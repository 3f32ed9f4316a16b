-- ===== src/Base/Order.antt =====
-- `ORDER BY`: a stable insertion sort by a test that says whether the first must come strictly
-- before the second.
use mathlib.Core.Path.{◌≡◌}
use mathlib.Core.Bool.{Bool, true, false}
use mathlib.Core.List.{List, [], ◌∷◌, Perm}
use mathlib.Core.List.Perm
use native.Mathlib.Omega.{arith}
use cloud_sentinel_ai.Base.Tests.{if◌then◌else◌, if_each, if_both}
use cloud_sentinel_ai.Base.Lists.{All}

module _ {ℓ} {A : Type ℓ} (before : A → A → Bool) where
  unfoldable pub insert : A → List A → List A
  insert x [] = x ∷ []
  insert x (y ∷ ys) = if before y x then y ∷ insert x ys else x ∷ y ∷ ys

  unfoldable pub order_by : List A → List A
  unfolding insert
  order_by [] = []
  order_by (x ∷ xs) = insert x (order_by xs)

  -- No element must come before one that stands ahead of it.
  abbrev pub IsOrdered : List A → Type 0
  IsOrdered [] = Unit
  IsOrdered (x ∷ xs) = All (λ y. before y x ≡ false) xs × IsOrdered xs

  All-insert {κ} : (P : A → Type κ) (x : A) (xs : List A) → P x → All P xs → All P (insert x xs)
  unfolding insert
  All-insert P x [] p h = (p, tt)
  All-insert P x (y ∷ ys) p h = ground (arith, All-insert P x ys p h.1)

  pub All-order_by {κ} : (P : A → Type κ) (xs : List A) → All P xs → All P (order_by xs)
  unfolding order_by
  All-order_by P [] h = h
  All-order_by P (x ∷ xs) h = All-insert P x (order_by xs) h.0 (All-order_by P xs h.1)

-- The order is that of a test that is asymmetric and whose failure is transitive.
module _ {ℓ} {A : Type ℓ} (before : A → A → Bool)
    (asym : (x y : A) → before x y ≡ true → before y x ≡ false)
    (trans : (x y z : A) → before y x ≡ false → before z y ≡ false → before z x ≡ false) where
  weaken :
      (x y : A) (xs : List A)
      → before y x ≡ false
      → All (λ z. before z y ≡ false) xs
      → All (λ z. before z x ≡ false) xs
  weaken x y [] h k = tt
  weaken x y (z ∷ xs) h k = (trans x y z h k.0, weaken x y xs h k.1)

  insert-IsOrdered :
      (x : A) (xs : List A) → IsOrdered before xs → IsOrdered before (insert before x xs)
  unfolding insert
  insert-IsOrdered x [] h = (tt, tt)
  insert-IsOrdered x (y ∷ ys) h =
      if_each (IsOrdered before) (before y x) {x = y ∷ insert before x ys} {y = x ∷ y ∷ ys}
        (λ e. (
          All-insert before (λ z. before z y ≡ false) x ys (asym y x e) h.0,
          insert-IsOrdered x ys h.1,
        ))
        (λ e. ((e, weaken x y ys e h.0), h))

  pub order_by-IsOrdered : (xs : List A) → IsOrdered before (order_by before xs)
  unfolding order_by
  order_by-IsOrdered [] = tt
  order_by-IsOrdered (x ∷ xs) = insert-IsOrdered x (order_by before xs) (order_by-IsOrdered xs)

-- Ordering a list permutes it.
insert-perm {ℓ} :
    {A : Type ℓ} (before : A → A → Bool) (x : A) (xs : List A) → Perm (insert before x xs) (x ∷ xs)
unfolding insert
insert-perm before x [] = Perm.refl (x ∷ [])
insert-perm before x (y ∷ ys) =
    if_both (λ l. Perm l (x ∷ y ∷ ys)) (before y x) {x = y ∷ insert before x ys} {y = x ∷ y ∷ ys}
      (Perm.trans (Perm.cons y (insert-perm before x ys)) (Perm.swap x y ys))
      (Perm.refl (x ∷ y ∷ ys))

pub order_by-perm {ℓ} :
    {A : Type ℓ} (before : A → A → Bool) (xs : List A) → Perm (order_by before xs) xs
unfolding order_by
order_by-perm before [] = Perm.refl []
order_by-perm before (x ∷ xs) =
    Perm.trans (insert-perm before x (order_by before xs)) (Perm.cons x (order_by-perm before xs))
