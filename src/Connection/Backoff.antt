-- ===== src/Connection/Backoff.antt =====
-- The delays between the retries of a connection.
use ntfy.Base.{
  ℕ, zero, suc, ◌+◌, ◌*◌, ◌≤◌, ◌≡◌, refl, ◌∙◌, ap, false, Option, some, arith, head?, get_or,
}
use ntfy.Util.Auth.{Base64}
use ntfy.Connection.{Timer, World, retry_seconds, start}
use ntfy.Connection.Events.{on_close, end_socket, fire}
use ntfy.Dexie.{map_option}

-- A retry comes after 5 seconds at least and 120 at most, after more failures never sooner, and from
-- the sixth failure on after 120 seconds.
pub retry_seconds_bounds :
    (n : ℕ)
    → (5 ≤ retry_seconds n)
      × (retry_seconds n ≤ 120)
      × (retry_seconds n ≤ retry_seconds (n + 1))
      × (retry_seconds (n + 5) ≡ 120)
unfolding retry_seconds
retry_seconds_bounds n = ground arith

-- The connection's socket dies, and the timer that follows fires.
abbrev pub dies : World → World
dies w = end_socket (get_or w.connection.ws 0) false w

abbrev pub retries : Base64 → World → World
retries base64 w = fire base64 (get_or w.connection.retry_timeout 0) w

pub outage : Base64 → ℕ → World → World
outage base64 zero w = w
outage base64 (suc n) w = outage base64 n (retries base64 (dies w))

-- The delay that the last timer was set for.
abbrev pub pending : World → Option ℕ
pending w = map_option (λ (t : Timer). t.millis) (head? w.browser.timers)

retry_count-outage :
    (base64 : Base64) (n : ℕ) (w : World)
    → (outage base64 n w).connection.retry_count ≡ w.connection.retry_count + n
unfolding outage on_close start
retry_count-outage base64 zero w = omega arith
retry_count-outage base64 (suc n) w = retry_count-outage base64 n _ ∙ omega arith

pending-dies : (w : World) → pending (dies w) ≡ some (retry_seconds w.connection.retry_count * 1000)
unfolding on_close
pending-dies w = refl

-- When the socket dies after `n` failed attempts in a row since the connection was last open, the
-- next attempt is set for the delay number `n` of the list.
pub pending-outage :
    (base64 : Base64) (n : ℕ) (w : World)
    → w.connection.retry_count ≡ 0
    → pending (dies (outage base64 n w)) ≡ some (retry_seconds n * 1000)
pending-outage base64 n w h =
    pending-dies (outage base64 n w)
    ∙ ap (λ k. some (retry_seconds k * 1000)) (retry_count-outage base64 n w ∙ omega arith)
