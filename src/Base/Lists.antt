-- ===== src/Base/Lists.antt =====
-- Lists measured by native numbers, and predicates on every element.
use Prim.Native.Nat.{ℕ, zero, suc, ◌+◌, ◌≤◌}
use mathlib.Core.Path.{◌≡◌, refl, ap}
use mathlib.Core.Logic.{◌⊎◌, inl, inr}
use mathlib.Core.Bool.{Bool, true, false}
use mathlib.Core.List.{List, [], ◌∷◌, ◌++◌}
use native.Mathlib.Omega.{arith}
use cloud_sentinel_ai.Base.Tests.{if◌then◌else◌, Bool-cases}

module _ {ℓ} {A : Type ℓ} where
  pub List-cases : (xs : List A) → (xs ≡ []) ⊎ ((y : A) × (ys : List A) × (xs ≡ y ∷ ys))
  List-cases [] = inl refl
  List-cases (y ∷ ys) = inr (y, ys, refl)

  abbrev pub length : List A → ℕ
  length [] = 0
  length (x ∷ xs) = suc (length xs)

  abbrev pub take : ℕ → List A → List A
  take zero xs = []
  take (suc n) [] = []
  take (suc n) (x ∷ xs) = x ∷ take n xs

  abbrev pub drop : ℕ → List A → List A
  drop zero xs = xs
  drop (suc n) [] = []
  drop (suc n) (x ∷ xs) = drop n xs

  -- `[x for x in xs if p(x)]`
  abbrev pub keep : (A → Bool) → List A → List A
  keep p [] = []
  keep p (x ∷ xs) = let rest = keep p xs in if p x then x ∷ rest else rest

  pub length-append : (xs ys : List A) → length (xs ++ ys) ≡ length xs + length ys
  length-append [] ys = omega arith
  length-append (x ∷ xs) ys = omega (arith, length-append xs ys)

  abbrev pub All {κ} : (A → Type κ) → List A → Type κ
  All P [] = Unit
  All P (x ∷ xs) = P x × All P xs

  pub All-append {κ} : (P : A → Type κ) (xs ys : List A) → All P xs → All P ys → All P (xs ++ ys)
  All-append P [] ys hx hy = hy
  All-append P (x ∷ xs) ys hx hy = (hx.0, All-append P xs ys hx.1 hy)

  pub All-keep {κ} : (P : A → Type κ) (p : A → Bool) (xs : List A) → All P xs → All P (keep p xs)
  All-keep P p [] h = h
  All-keep P p (x ∷ xs) h = ground (arith, All-keep P p xs h.1)

  All-tail {κ} :
      (P : A → Type κ) (b : Bool) (x : A) (xs : List A)
      → All P (if b then x ∷ xs else xs)
      → All P xs
  All-tail P true x xs h = h.1
  All-tail P false x xs h = h

  -- What holds of all that one test keeps holds of all that a stronger test keeps.
  pub All-keep_stronger {κ} :
      (P : A → Type κ) (p q : A → Bool) (xs : List A)
      → ((x : A) → q x ≡ true → p x ≡ true)
      → All P (keep p xs)
      → All P (keep q xs)
  All-keep_stronger P p q [] stronger h = h
  All-keep_stronger P p q (x ∷ xs) stronger h = elim (Bool-cases (q x)) [
    | inl e ↦ rw e (
        let both : P x × All P (keep p xs) = rw (stronger x e) at h in
        (both.0, All-keep_stronger P p q xs stronger both.1))
    | inr e ↦ rw e (All-keep_stronger P p q xs stronger (All-tail P (p x) x (keep p xs) h))
  ]

  pub keep-append : (p : A → Bool) (xs ys : List A) → keep p (xs ++ ys) ≡ keep p xs ++ keep p ys
  keep-append p [] ys = refl
  keep-append p (x ∷ xs) ys = elim (Bool-cases (p x)) [
    | inl e ↦ rw e (rw (keep-append p xs ys) refl)
    | inr e ↦ rw e (keep-append p xs ys)
  ]

  pub length-keep-le : (p : A → Bool) (xs : List A) → length (keep p xs) ≤ length xs
  length-keep-le p [] = omega arith
  length-keep-le p (x ∷ xs) = ground (arith, length-keep-le p xs)

  -- What is kept passes the test.
  pub All-keep_test : (p : A → Bool) (xs : List A) → All (λ x. p x ≡ true) (keep p xs)
  All-keep_test p [] = tt
  All-keep_test p (x ∷ xs) = elim (Bool-cases (p x)) [
    | inl e ↦ rw e (e, All-keep_test p xs)
    | inr e ↦ rw e (All-keep_test p xs)
  ]

  -- Nothing is kept where nothing passes.
  pub keep-nil : (p : A → Bool) (xs : List A) → All (λ x. p x ≡ false) xs → keep p xs ≡ []
  keep-nil p [] h = refl
  keep-nil p (x ∷ xs) h = rw h.0 (keep-nil p xs h.1)

  -- How many elements pass the test.

  pub All-map {κ ι} :
      {P : A → Type κ} {Q : A → Type ι} (f : (x : A) → P x → Q x) (xs : List A)
      → All P xs
      → All Q xs
  All-map f [] h = tt
  All-map f (x ∷ xs) h = (f x h.0, All-map f xs h.1)

  pub All-both {κ ι} :
      (P : A → Type κ) (Q : A → Type ι) (xs : List A)
      → All P xs
      → All Q xs
      → All (λ x. P x × Q x) xs
  All-both P Q [] h k = tt
  All-both P Q (x ∷ xs) h k = ((h.0, k.0), All-both P Q xs h.1 k.1)

  pub length-take-le : (n : ℕ) (xs : List A) → length (take n xs) ≤ n
  length-take-le zero xs = omega arith
  length-take-le (suc n) [] = omega arith
  length-take-le (suc n) (x ∷ xs) = omega (arith, length-take-le n xs)

  pub take-append-drop : (n : ℕ) (xs : List A) → take n xs ++ drop n xs ≡ xs
  take-append-drop zero xs = refl
  take-append-drop (suc n) [] = refl
  take-append-drop (suc n) (x ∷ xs) = rw (take-append-drop n xs)

  -- A prefix that is shorter than asked for is the whole list.
  pub take_all_or_full : (n : ℕ) (xs : List A) → (drop n xs ≡ []) ⊎ (length (take n xs) ≡ n)
  take_all_or_full zero xs = inr refl
  take_all_or_full (suc n) [] = inl refl
  take_all_or_full (suc n) (x ∷ xs) = elim (take_all_or_full n xs) [
    | inl none_left ↦ inl none_left
    | inr full ↦ inr (omega arith)
  ]

  pub All-take {κ} : (P : A → Type κ) (n : ℕ) (xs : List A) → All P xs → All P (take n xs)
  All-take P zero xs h = tt
  All-take P (suc n) [] h = h
  All-take P (suc n) (x ∷ xs) h = (h.0, All-take P n xs h.1)

  -- A test keeps the whole list, or less.
  pub keep_whole_or_less :
      (p : A → Bool) (xs : List A) → All (λ x. p x ≡ true) xs ⊎ (length (keep p xs) + 1 ≤ length xs)
  keep_whole_or_less p [] = inl tt
  keep_whole_or_less p (x ∷ xs) = elim (keep_whole_or_less p xs) [
    | inl all ↦ elim (Bool-cases (p x)) [
      | inl e ↦ inl (e, all)
      | inr e ↦ inr (rw e (omega (arith, length-keep-le p xs)))
    ]
    | inr less ↦ elim (Bool-cases (p x)) [
      | inl e ↦ inr (rw e (omega (arith, less)))
      | inr e ↦ inr (rw e (omega (arith, less)))
    ]
  ]

  -- Where one test lets nothing through, its opposite lets all through.
  pub keep_opposite :
      (p q : A → Bool) (xs : List A)
      → ((x : A) → p x ≡ false → q x ≡ true)
      → keep p xs ≡ []
      → keep q xs ≡ xs
  keep_opposite p q [] opposite h = refl
  keep_opposite p q (x ∷ xs) opposite h = elim (Bool-cases (p x)) [
    | inl e ↦ let kept : x ∷ keep p xs ≡ [] = rw e at h in absurd (cc)
    | inr e ↦ rw (opposite x e) (ap (λ l. x ∷ l) (keep_opposite p q xs opposite (rw e at h)))
  ]

  pub take-nil : (n : ℕ) (xs : List A) → take (suc n) xs ≡ [] → xs ≡ []
  take-nil n [] h = refl
  take-nil n (x ∷ xs) h = absurd (cc)
