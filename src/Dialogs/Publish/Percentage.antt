-- ===== src/Dialogs/Publish/Percentage.antt =====
-- `progressFn` of web/src/components/PublishDialog.jsx: what is said while a message is sent.
use native.Mathlib.Nat.{div-lt_iff_lt-mul}
use ntfy.Base.{
  ℕ, ◌+◌, ◌*◌, ◌/◌, ◌≤◌, ◌<◌, ◌&&◌, ltb, ltb→lt, if◌then◌else◌, arith, Bool-cases, inl, inr,
}

-- The bytes that were sent, of how many, and the percentage; or only that the message is sent.
pub data Status : Type 0 where
  uploading_detail : ℕ → ℕ → ℕ → Status
  uploading : Status

-- Math.round((loaded * 100.0) / total)
abbrev percent : ℕ → ℕ → ℕ
percent loaded total = (loaded * 200 + total) / (2 * total)

unfoldable pub progress : ℕ → ℕ → Status
progress loaded total =
    if ltb 0 loaded && ltb 0 total
    then Status.uploading_detail loaded total (percent loaded total)
    else Status.uploading

abbrev pub IsWithin : Status → Type 0
IsWithin (Status.uploading_detail loaded total percent) = percent ≤ 100
IsWithin Status.uploading = Unit

percent-le : (loaded total : ℕ) → 0 < total → loaded ≤ total → percent loaded total ≤ 100
percent-le loaded total positive h =
    let doubled : 0 < 2 * total = omega arith in
    let less : percent loaded total < 101 = (div-lt_iff_lt-mul doubled).1 (omega arith) in
    omega (arith, less)

-- While no more was sent than there is to send, no percentage is above 100.
pub progress-IsWithin : (loaded total : ℕ) → loaded ≤ total → IsWithin (progress loaded total)
unfolding progress
progress-IsWithin loaded total h = elim (Bool-cases (ltb 0 loaded && ltb 0 total)) [
  | inl e ↦ rw e (percent-le loaded total (ltb→lt 0 total (ground arith)) h)
  | inr e ↦ rw e tt
]
