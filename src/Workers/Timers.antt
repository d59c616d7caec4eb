-- ===== src/Workers/Timers.antt =====
-- How many timers a worker has.
use ntfy.Base.{
  ℕ, ◌≡◌, refl, ap, subst, sym, ◌∙◌, ◌≤◌, ◌≢◌, ◌⊎◌, inl, inr, Bool, true, not, ◌||◌, none, some,
  List, [], ◌∷◌, filter, eqb, length, arith, Option-cases,
}
use ntfy.Workers.{
  Timer, Worker, Rhythm, started, unless_started, without_timer, start_worker, stop_worker, fire,
  clear, Step, start, stop, fires, Reach, here, next,
}

-- The timers that go off again and again.
abbrev pub intervals : Worker → List Timer
intervals w = filter (λ (x : Timer). x.repeats) w.timers

filter_comm :
    (p q : Timer → Bool) (xs : List Timer) → filter p (filter q xs) ≡ filter q (filter p xs)
filter_comm p q [] = refl
filter_comm p q (x ∷ xs) = ground (arith, filter_comm p q xs)

filter_spares :
    (t : ℕ) (xs : List Timer)
    → filter (λ (x : Timer). x.repeats) (filter (λ (x : Timer). not (eqb x.id t) || x.repeats) xs)
      ≡ filter (λ (x : Timer). x.repeats) xs
filter_spares t [] = refl
filter_spares t (x ∷ xs) = ground (arith, filter_spares t xs)

-- There is no interval, or there is the one that the field names.
abbrev IsSingle : Worker → Type 0
IsSingle w = (intervals w ≡ []) ⊎ ((x : Timer) × (intervals w ≡ x ∷ []) × (w.timer ≡ some x.id))

start_worker-none : (r : Rhythm) (w : Worker) → w.timer ≡ none → start_worker r w ≡ started r w
unfolding start_worker
start_worker-none r w e = ap (λ t. unless_started t r w) e

start_worker-some : (r : Rhythm) (w : Worker) (t : ℕ) → w.timer ≡ some t → start_worker r w ≡ w
unfolding start_worker
start_worker-some r w t e = ap (λ t. unless_started t r w) e

stop_worker-none : (w : Worker) → w.timer ≡ none → stop_worker w ≡ w
unfolding stop_worker
stop_worker-none w e = ap (λ t. without_timer t w) e

stop_worker-some :
    (w : Worker) (t : ℕ) → w.timer ≡ some t → stop_worker w ≡ record w { timers = clear t w.timers }
unfolding stop_worker
stop_worker-some w t e = ap (λ t. without_timer t w) e

start-IsSingle : (r : Rhythm) (w : Worker) → IsSingle w → IsSingle (start_worker r w)
start-IsSingle r w h = elim (Option-cases w.timer) [
  | inr (t, e) ↦ subst IsSingle (sym (start_worker-some r w t e)) h
  | inl e ↦ subst IsSingle (sym (start_worker-none r w e)) (only_interval e h)
]
  where
    interval : Timer
    interval = record { id = w.fresh; millis = r.interval_millis; repeats = true }

    only_interval : w.timer ≡ none → IsSingle w → IsSingle (started r w)
    only_interval e (inl e') = inr (interval, ap (interval ∷◌) e', refl)
    only_interval e (inr (x, _, e')) = cc

intervals-stop : (w : Worker) → IsSingle w → w.timer ≢ none → intervals (stop_worker w) ≡ []
intervals-stop w h ne = elim (Option-cases w.timer) [
  | inl e ↦ absurd (ne e)
  | inr (t, e) ↦ ap intervals (stop_worker-some w t e) ∙ filter_comm _ _ w.timers ∙ cleared t e h
]
  where
    cleared : (t : ℕ) → w.timer ≡ some t → IsSingle w → clear t (intervals w) ≡ []
    cleared t e (inl e') = ap (clear t) e'
    cleared t e (inr (x, e', e'')) = ap (clear t) e' ∙ ground (arith, e, e'')

stop-IsSingle : (w : Worker) → IsSingle w → IsSingle (stop_worker w)
stop-IsSingle w h = elim (Option-cases w.timer) [
  | inl e ↦ subst IsSingle (sym (stop_worker-none w e)) h
  | inr (t, e) ↦ inl (intervals-stop w h (λ e'. cc))
]

fire-IsSingle : (t : ℕ) (w : Worker) → IsSingle w → IsSingle (fire t w)
fire-IsSingle t w (inl e) = inl (filter_spares t w.timers ∙ e)
fire-IsSingle t w (inr (x, e, e')) = inr (x, filter_spares t w.timers ∙ e, e')

Step-IsSingle : {r : Rhythm} {w w' : Worker} → Step r w w' → IsSingle w → IsSingle w'
Step-IsSingle {r} (start w) h = start-IsSingle r w h
Step-IsSingle (stop w) h = stop-IsSingle w h
Step-IsSingle (fires t w) h = fire-IsSingle t w h

Reach-IsSingle : {r : Rhythm} {n : ℕ} {w : Worker} → Reach r n w → IsSingle w
Reach-IsSingle here = inl refl
Reach-IsSingle (next reached step) = Step-IsSingle step (Reach-IsSingle reached)

-- However often a worker is started and stopped, and whichever of its timers go off, at most one
-- interval is set.
pub intervals-le : (r : Rhythm) (n : ℕ) (w : Worker) → Reach r n w → length (intervals w) ≤ 1
intervals-le r n w reached = elim (Reach-IsSingle reached) [
  | inl e ↦ rw e (omega arith)
  | inr (x, e, _) ↦ rw e (omega arith)
]

still_guarded :
    (r : Rhythm) (w : Worker) → w.timer ≢ none → start_worker r (stop_worker w) ≡ stop_worker w
still_guarded r w ne = elim (Option-cases w.timer) [
  | inl e ↦ absurd (ne e)
  | inr (t, e) ↦
      start_worker-some r (stop_worker w) t
        (ap (λ (w : Worker). w.timer) (stop_worker-some w t e) ∙ e)
]

-- A worker that has been started and stopped does not come back: starting it again sets no interval,
-- since its field still names the timer that was cleared.
pub start_worker-stop_worker :
    (r : Rhythm) (n : ℕ) (w : Worker)
    → Reach r n w
    → w.timer ≢ none
    → intervals (start_worker r (stop_worker w)) ≡ []
start_worker-stop_worker r n w reached ne =
    ap intervals (still_guarded r w ne) ∙ intervals-stop w (Reach-IsSingle reached) ne
