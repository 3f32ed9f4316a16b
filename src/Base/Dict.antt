-- ===== src/Base/Dict.antt =====
-- A Python dictionary whose keys are only compared, as a list of entries in insertion order.
use Prim.Native.Nat.{ℕ}
use mathlib.Core.Path.{◌≡◌, refl, sym, subst, ◌∙◌}
use mathlib.Core.Logic.{◌≢◌, inl, inr}
use mathlib.Core.Bool.{Bool, true, false}
use mathlib.Core.Option.{Option, none, some}
use mathlib.Core.List.{List, [], ◌∷◌}
use native.Mathlib.Omega.{arith}
use cloud_sentinel_ai.Base.Tests.{◌==◌, if◌then◌else◌, if_both, Bool-cases, eq→==}
use cloud_sentinel_ai.Base.Lists.{All, keep}

abbrev pub Dict {ℓ} : Type ℓ → Type ℓ
Dict V = List (ℕ × V)

module _ {ℓ} {V : Type ℓ} where
  some_inj : {x y : V} → some x ≡ some y → x ≡ y
  some_inj h = cc

  tail_inj : {x y : V} {xs ys : List V} → (x ∷ xs) ≡ (y ∷ ys) → xs ≡ ys
  tail_inj h = cc

  -- `entries.get(key)`
  abbrev pub get : ℕ → Dict V → Option V
  get key [] = none
  get key ((k, v) ∷ rest) = if k == key then some v else get key rest

  -- `entries[key] = value`
  abbrev pub put : ℕ → V → Dict V → Dict V
  put key value [] = (key, value) ∷ []
  put key value ((k, v) ∷ rest) =
      if k == key then (key, value) ∷ rest else (k, v) ∷ put key value rest

  -- `entries.values()`
  abbrev pub values : Dict V → List V
  values [] = []
  values ((_, v) ∷ rest) = v ∷ values rest

  pub get-put :
      (key j : ℕ) (value : V) (d : Dict V)
      → get j (put key value d) ≡ (if key == j then some value else get j d)
  get-put key j value [] = refl
  get-put key j value ((k, v) ∷ rest) = ground (arith, get-put key j value rest)

  -- A predicate on the values of all entries.
  abbrev pub Values {κ} : (V → Type κ) → Dict V → Type κ
  Values P = All (λ e. P e.1)

  pub put-Values {κ} :
      (P : V → Type κ) (key : ℕ) (value : V) (d : Dict V)
      → P value
      → Values P d
      → Values P (put key value d)
  put-Values P key value [] h k = (h, tt)
  put-Values P key value ((j, v) ∷ rest) h k =
      if_both (Values P) (j == key) (h, k.1) (k.0, put-Values P key value rest h k.1)

  get-keep :
      (p : V → Bool) (key : ℕ) (v : V) (d : Dict V)
      → p v ≡ true
      → get key d ≡ some v
      → keep p (values d) ≢ []
  get-keep p key v [] pv found none_kept = absurd (cc)
  get-keep p key v ((k, x) ∷ rest) pv found none_kept = elim (Bool-cases (p x)) [
    | inl px ↦ let kept : x ∷ keep p (values rest) ≡ [] = rw px at none_kept in absurd (cc)
    | inr px ↦
        let kept : keep p (values rest) ≡ [] = rw px at none_kept in
        elim (Bool-cases (k == key)) [
          | inl e ↦
              let same : some x ≡ some v = rw e at found in
              let other : p v ≡ false = subst (λ y. p y ≡ false) (some_inj same) px in
              let wrong : true ≡ false = sym pv ∙ other in absurd (cc)
          | inr e ↦ get-keep p key v rest pv (rw e at found) kept
        ]
  ]

  -- A query that finds just the value under a key finds what takes its place there.
  pub keep-put :
      (p : V → Bool) (key : ℕ) (v v' : V) (d : Dict V)
      → p v ≡ true
      → p v' ≡ true
      → get key d ≡ some v
      → keep p (values d) ≡ v ∷ []
      → keep p (values (put key v' d)) ≡ v' ∷ []
  keep-put p key v v' [] pv pv' found kept = absurd (cc)
  keep-put p key v v' ((k, x) ∷ rest) pv pv' found kept = elim (Bool-cases (k == key)) [
    | inl e ↦
        let same : some x ≡ some v = rw e at found in
        let px : p x ≡ true = subst (λ y. p y ≡ true) (sym (some_inj same)) pv in
        let whole : x ∷ keep p (values rest) ≡ v ∷ [] = rw px at kept in
        rw e (rw pv' (rw (tail_inj whole) refl))
    | inr e ↦
        let deeper : get key rest ≡ some v = rw e at found in
        elim (Bool-cases (p x)) [
          | inl px ↦
              let whole : x ∷ keep p (values rest) ≡ v ∷ [] = rw px at kept in
              absurd (get-keep p key v rest pv deeper (tail_inj whole))
          | inr px ↦ rw e (rw px (keep-put p key v v' rest pv pv' deeper (rw px at kept)))
        ]
  ]

  -- A query that finds nothing finds just the value that is put.
  pub keep-put_new :
      (p : V → Bool) (key : ℕ) (v : V) (d : Dict V)
      → p v ≡ true
      → keep p (values d) ≡ []
      → keep p (values (put key v d)) ≡ v ∷ []
  keep-put_new p key v [] pv kept = rw pv refl
  keep-put_new p key v ((k, x) ∷ rest) pv kept = elim (Bool-cases (p x)) [
    | inl px ↦ let whole : x ∷ keep p (values rest) ≡ [] = rw px at kept in absurd (cc)
    | inr px ↦
        let none_kept : keep p (values rest) ≡ [] = rw px at kept in
        elim (Bool-cases (k == key)) [
          | inl e ↦ rw e (rw pv (rw none_kept refl))
          | inr e ↦ rw e (rw px (keep-put_new p key v rest pv none_kept))
        ]
  ]

  pub put-put : (key : ℕ) (v : V) (d : Dict V) → put key v (put key v d) ≡ put key v d
  put-put key v [] = rw (eq→== key key refl) refl
  put-put key v ((k, x) ∷ rest) = elim (Bool-cases (k == key)) [
    | inl e ↦ rw e (rw (eq→== key key refl) refl)
    | inr e ↦ rw e (rw e (rw (put-put key v rest) refl))
  ]
