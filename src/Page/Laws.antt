-- ===== src/Page/Laws.antt =====
-- How handlers follow on one another.
use ntfy.Base.{◌≡◌, ap}
use ntfy.Database.{Dexie}
use ntfy.Errors.{AppError, ok, err}
use ntfy.Page.{Page, Handler, ◌>>=◌}

module _ {d : Dexie} {A B : Type 0} (m : Handler d A) (f : A → Handler d B) (p : Page d) where
  -- After a success the next handler goes on.
  pub bind-ok : (a : A) → (m p).0 ≡ ok a → (m >>= f) p ≡ f a (m p).1
  bind-ok a e = ap (λ r. elim r [ ok a ↦ f a (m p).1 | err x ↦ (err x, (m p).1) ]) e

  -- An error is what the chain ends with.
  pub bind-err : (e : AppError) → (m p).0 ≡ err e → (m >>= f) p ≡ (err e, (m p).1)
  bind-err x e = ap (λ r. elim r [ ok a ↦ f a (m p).1 | err x ↦ (err x, (m p).1) ]) e
