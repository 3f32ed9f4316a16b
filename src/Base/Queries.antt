-- ===== src/Base/Queries.antt =====
-- The rows of a query: how many there are, and what `scalar_one_or_none()` makes of them.
use Prim.Native.Nat.{ℕ, suc, ◌+◌, ◌≤◌}
use mathlib.Core.Path.{◌≡◌, refl, subst}
use mathlib.Core.Logic.{◌⊎◌, inl, inr}
use mathlib.Core.Bool.{Bool, true}
use mathlib.Core.List.{List, [], ◌∷◌, map}
use native.Mathlib.Omega.{arith}
use cloud_sentinel_ai.Base.Tests.{if◌then◌else◌}
use cloud_sentinel_ai.Base.Lists.{length, keep, All, All-keep_test}

-- What `scalar_one_or_none()` makes of a query's rows: it raises if there are several.
pub data Found {ℓ} (A : Type ℓ) : Type ℓ where
  nothing : Found A
  one : A → Found A
  several : Found A

module _ {ℓ} {A : Type ℓ} where
  pub Found-cases : (f : Found A) → (f ≡ nothing) ⊎ ((a : A) × (f ≡ one a)) ⊎ (f ≡ several)
  Found-cases nothing = inl refl
  Found-cases (one a) = inr (inl (a, refl))
  Found-cases several = inr (inr refl)

  abbrev pub scalar_one_or_none : List A → Found A
  scalar_one_or_none [] = nothing
  scalar_one_or_none (x ∷ []) = one x
  scalar_one_or_none (_ ∷ _ ∷ _) = several

  abbrev pub count : (A → Bool) → List A → ℕ
  count p [] = 0
  count p (x ∷ xs) = if p x then suc (count p xs) else count p xs

  pub count-keep : (p : A → Bool) (xs : List A) → count p xs ≡ length (keep p xs)
  count-keep p [] = refl
  count-keep p (x ∷ xs) = ground (arith, count-keep p xs)

  -- What one test lets through, one of two others does.
  pub count-le-add :
      (p q r : A → Bool) (xs : List A)
      → ((x : A) → r x ≡ true → (p x ≡ true) ⊎ (q x ≡ true))
      → count r xs ≤ count p xs + count q xs
  count-le-add p q r [] h = omega arith
  count-le-add p q r (x ∷ xs) h = ground (arith, h x, count-le-add p q r xs h)

  -- The same, for a stronger test.
  pub count-le :
      (p q : A → Bool) (xs : List A) → ((x : A) → q x ≡ true → p x ≡ true) → count q xs ≤ count p xs
  count-le p q [] h = omega arith
  count-le p q (x ∷ xs) h = ground (arith, h x, count-le p q xs h)

  -- A change by which no element comes to pass the test raises no count.
  pub count-map-le :
      (p : A → Bool) (f : A → A) (xs : List A)
      → ((x : A) → p (f x) ≡ true → p x ≡ true)
      → count p (map f xs) ≤ count p xs
  count-map-le p f [] h = omega arith
  count-map-le p f (x ∷ xs) h = ground (arith, h x, count-map-le p f xs h)

  -- A query that finds nothing or too much.
  pub nothing_found :
      (p : A → Bool) (xs : List A) → scalar_one_or_none (keep p xs) ≡ nothing → keep p xs ≡ []
  nothing_found p xs h = none_of (keep p xs) h
    where
      none_of : (ys : List A) → scalar_one_or_none ys ≡ nothing → ys ≡ []
      none_of [] e = refl
      none_of (y ∷ []) e = absurd (cc)
      none_of (y ∷ z ∷ ys) e = absurd (cc)

  pub one_found :
      (p : A → Bool) (xs : List A) (x : A)
      → scalar_one_or_none (keep p xs) ≡ one x
      → (keep p xs ≡ x ∷ []) × (p x ≡ true)
  one_found p xs x h =
      let e = just (keep p xs) h in (e, (subst (All (λ y. p y ≡ true)) e (All-keep_test p xs)).0)
    where
      just : (ys : List A) → scalar_one_or_none ys ≡ one x → ys ≡ x ∷ []
      just [] e = absurd (cc)
      just (y ∷ []) e = cc
      just (y ∷ z ∷ ys) e = absurd (cc)

  pub several_found :
      (p : A → Bool) (xs : List A) → scalar_one_or_none (keep p xs) ≡ several → 2 ≤ count p xs
  several_found p xs h = omega (arith, count-keep p xs, two_of (keep p xs) h)
    where
      two_of : (ys : List A) → scalar_one_or_none ys ≡ several → 2 ≤ length ys
      two_of [] e = absurd (cc)
      two_of (y ∷ []) e = absurd (cc)
      two_of (y ∷ z ∷ ys) e = omega arith
