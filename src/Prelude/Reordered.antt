-- ===== src/Prelude/Reordered.antt =====
-- Lists that hold the same elements in another order.
use mathlib.Core.Logic.{∥∥₁_elim}
use Prim.Native.Nat.{ℕ}
use mathlib.Core.Path.{◌≡◌, refl, ap, ◌∙◌, subst}
use mathlib.Core.List.{List, [], ◌∷◌, Perm, Permᴰ}
use mathlib.Core.List.Permᴰ.{nil, cons, swap, trans}
use native.Mathlib.Omega.{arith}
use egressd.Prelude.Lists.{sum_by, All}

ℕ-IsSet : IsSet ℕ
ℕ-IsSet = hlevel

module _ {ℓ} {A : Type ℓ} where
  sum_by-Permᴰ : (f : A → ℕ) {xs ys : List A} → Permᴰ xs ys → sum_by f xs ≡ sum_by f ys
  sum_by-Permᴰ f nil = refl
  sum_by-Permᴰ f (cons e p) = omega (arith, ap f e, sum_by-Permᴰ f p)
  sum_by-Permᴰ f (swap e e') = omega (arith, ap f e, ap f e')
  sum_by-Permᴰ f (trans p q) = sum_by-Permᴰ f p ∙ sum_by-Permᴰ f q

  -- A sum does not depend on the order.
  pub sum_by-Perm : (f : A → ℕ) {xs ys : List A} → Perm xs ys → sum_by f xs ≡ sum_by f ys
  sum_by-Perm f {xs} {ys} p = ∥∥₁_elim p (ℕ-IsSet (sum_by f xs) (sum_by f ys)) (sum_by-Permᴰ f)

  All-Permᴰ {κ} : (P : A → Type κ) {xs ys : List A} → Permᴰ xs ys → All P xs → All P ys
  All-Permᴰ P nil h = tt
  All-Permᴰ P (cons e p) h = (subst P e h.0, All-Permᴰ P p h.1)
  All-Permᴰ P (swap e e') h = (subst P e' h.1.0, (subst P e h.0, h.1.1))
  All-Permᴰ P (trans p q) h = All-Permᴰ P q (All-Permᴰ P p h)

  pub All-IsProp {κ} :
      {P : A → Type κ} → ((x : A) → IsProp (P x)) → (xs : List A) → IsProp (All P xs)
  All-IsProp prop [] = λ h k. refl
  All-IsProp prop (x ∷ xs) = λ h k i. (prop x h.0 k.0 i, All-IsProp prop xs h.1 k.1 i)

  pub All-Perm {κ} :
      (P : A → Type κ) {xs ys : List A}
      → ((x : A) → IsProp (P x))
      → Perm xs ys
      → All P xs
      → All P ys
  All-Perm P {xs} {ys} prop p h = ∥∥₁_elim p (All-IsProp prop ys) (λ d. All-Permᴰ P d h)
