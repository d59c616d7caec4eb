-- ===== src/Errors/Laws.antt =====
-- Which response is which error.
use ntfy.Base.{
  ℕ, String, ◌≡◌, ◌≢◌, ◌↔◌, ◌⊎◌, inl, inr, Option, none, some, arith, eqb, Bool-cases, ◌||◌, truthy,
  if◌then◌else◌,
}
use ntfy.Errors.{
  ErrorBody, Response, AppError, unauthorized, user_exists, topic_reserved,
  account_create_limit_reached, incorrect_password, other, app_error, error_of, described, code_of,
  err, fetch_or_throw,
}

-- The code of the body, where there is one.
abbrev pub HasCode : Response → ℕ → Type 0
HasCode r n = (b : ErrorBody) × (r.error_body ≡ some b) × (b.code ≡ some n)

abbrev pub IsDenied : Response → Type 0
IsDenied r = (r.status ≡ 401) ⊎ (r.status ≡ 403)

-- The code that stands for an error.
abbrev pub Stands : ℕ → AppError → Type 0
Stands n user_exists = n ≡ 40901
Stands n topic_reserved = n ≡ 40902
Stands n account_create_limit_reached = n ≡ 42906
Stands n incorrect_password = n ≡ 40026
Stands n unauthorized = ⊥
Stands n (other _) = ⊥

not_unauthorized :
    (r : Response) (n : ℕ) (error : Option String) → app_error r n error ≡ unauthorized → ⊥
not_unauthorized r n error h = described_otherwise (truthy error) h
  where
    described_otherwise :
        (o : Option String)
        → (if eqb n 40901
            then user_exists
            else if eqb n 40902
            then topic_reserved
            else if eqb n 42906
            then account_create_limit_reached
            else if eqb n 40026
            then incorrect_password
            else described r n o)
          ≡ unauthorized
        → ⊥
    described_otherwise none h = ground arith
    described_otherwise (some m) h = ground arith

thrown : (r : Response) (o : Option (ℕ × Option String)) → error_of r o ≡ unauthorized → ⊥
thrown r none h = cc
thrown r (some (n, error)) h = not_unauthorized r n error h

-- A request throws "unauthorized" exactly at 401 and 403.
pub unauthorized_iff : (r : Response) → (fetch_or_throw r ≡ err unauthorized) ↔ IsDenied r
unfolding fetch_or_throw
unauthorized_iff r = elim (Bool-cases (eqb r.status 401 || eqb r.status 403)) [
  | inl e ↦ rw e (ground arith)
  | inr e ↦
      rw e
        (λ h. absurd (thrown r (code_of r.error_body) (ground arith)), λ h. absurd (ground arith))
]

-- At any other status but 200, a body with a code that stands for an error throws that error, whatever else is
-- in it.
pub coded_error :
    (r : Response) (n : ℕ) (e : AppError)
    → r.status ≢ 200
    → ¬ IsDenied r
    → HasCode r n
    → Stands n e
    → fetch_or_throw r ≡ err e
unfolding fetch_or_throw
coded_error r n unauthorized s d c h = elim h [ ]
coded_error r n (other _) s d c h = elim h [ ]
coded_error r n user_exists s d c h = ground arith
coded_error r n topic_reserved s d c h = ground arith
coded_error r n account_create_limit_reached s d c h = ground arith
coded_error r n incorrect_password s d c h = ground arith
