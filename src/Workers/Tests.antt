-- ===== src/Workers/Tests.antt =====
-- The poller, started twice, and stopped and started again.
use ntfy.Base.{◌≡◌, refl, length}
use ntfy.Workers.{Worker, poller_rhythm, idle, start_worker, start, Reach, here, next}
use ntfy.Workers.Timers.{intervals}

abbrev first_worker : Worker
first_worker = start_worker poller_rhythm (idle 0)

abbrev second_worker : Worker
second_worker = start_worker poller_rhythm first_worker

reached : Reach poller_rhythm 0 second_worker
reached = next (next here (start (idle 0))) (start first_worker)

one_interval : length (intervals second_worker) ≡ 1
unfolding start_worker
one_interval = refl
