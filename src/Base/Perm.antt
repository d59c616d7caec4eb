-- ===== src/Base/Perm.antt =====
-- What holds of some member holds whatever the order is.
use mathlib.Core.List.{Perm, Permᴰ}
use mathlib.Core.Logic.{∥∥₁_elim}
use ntfy.Base.{◌≡◌, refl, ◌∙◌, ap, Bool, List, any, arith}

any-permutation {ℓ} :
    {A : Type ℓ} (p : A → Bool) {xs ys : List A} → Permᴰ xs ys → any p xs ≡ any p ys
any-permutation p Permᴰ.nil = refl
any-permutation p (Permᴰ.cons {a = a} {b = b} e d) =
    let q = ap p e in let r = any-permutation p d in ground arith
any-permutation p (Permᴰ.swap e e') = let q = ap p e in let r = ap p e' in ground arith
any-permutation p (Permᴰ.trans d d') = any-permutation p d ∙ any-permutation p d'

pub any-perm {ℓ} : {A : Type ℓ} (p : A → Bool) {xs ys : List A} → Perm xs ys → any p xs ≡ any p ys
any-perm p h = ∥∥₁_elim h (hlevel) (any-permutation p)
