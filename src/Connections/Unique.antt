-- ===== src/Connections/Unique.antt =====
-- A tenant has an account connected once, and a connection is in use only once it was verified.
use cloud_sentinel_ai.Base.{
  ℕ, ◌+◌, ◌≤◌, ◌≡◌, refl, sym, subst, ◌∙◌, ap, ◌≢◌, inl, inr, Bool, true, false, List, [], ◌∷◌,
  ◌++◌, if◌then◌else◌, All, map, keep, count, count-keep, length, nothing, several, nothing_found,
  several_found, Bool-cases, arith,
}
use cloud_sentinel_ai.Connections.{
  Database, Connection, aws_columns, azure_columns, gcp_columns, find_account, has_account, is_own,
  change_own, delete_own, add,
}
use cloud_sentinel_ai.Connections.Edits.{Edit, unchanged, added, changed, deleted, call-Edits}
use cloud_sentinel_ai.Connections.Calls.{Call, call, calls}

module _ {C : Type 0} ⦃k : Connection C⦄ where
  -- At most one row for an account of a tenant.
  abbrev pub IsUnique : List C → Type 0
  IsUnique table = (tenant account : ℕ) → count (has_account tenant account) table ≤ 1

  count-append : (p : C → Bool) (xs ys : List C) → count p (xs ++ ys) ≡ count p xs + count p ys
  count-append p [] ys = omega arith
  count-append p (x ∷ xs) ys = ground (arith, count-append p xs ys)

  count-keep-le : (p q : C → Bool) (xs : List C) → count p (keep q xs) ≤ count p xs
  count-keep-le p q [] = omega arith
  count-keep-le p q (x ∷ xs) = ground (arith, count-keep-le p q xs)

  count-map :
      (p : C → Bool) (f : C → C) (xs : List C)
      → ((x : C) → p (f x) ≡ p x)
      → count p (map f xs) ≡ count p xs
  count-map p f [] h = refl
  count-map p f (x ∷ xs) h = ground (arith, h x, count-map p f xs h)

  not_connected :
      (tenant account : ℕ) (table : List C)
      → find_account tenant account table ≡ nothing
      → count (has_account tenant account) table ≡ 0
  unfolding find_account
  not_connected tenant account table h =
      count-keep (has_account tenant account) table
      ∙ ap (λ l. length l) (nothing_found (has_account tenant account) table h)

  new_row-le :
      (i a : ℕ) (c : C) (t : List C)
      → find_account (k.owner_of c) (k.account_of c) t ≡ nothing
      → count (has_account i a) t ≤ 1
      → count (has_account i a) t + count (has_account i a) (c ∷ []) ≤ 1
  new_row-le i a c t e old = elim (Bool-cases (has_account i a c)) [
    | inl h ↦
        let same_tenant : i ≡ k.owner_of c = ground (arith, h) in
        let same_account : a ≡ k.account_of c = ground (arith, h) in
        let none_yet : count (has_account i a) t ≡ 0 =
          ap (λ x. count (has_account x a) t) same_tenant
          ∙ ap (λ y. count (has_account (k.owner_of c) y) t) same_account
          ∙ not_connected (k.owner_of c) (k.account_of c) t e in
        rw none_yet (ground arith)
    | inr h ↦ ground (arith, h, old)
  ]

  edited_account :
      (i a : ℕ) (f : C → C) (b : Bool) (x : C)
      → k.owner_of (f x) ≡ k.owner_of x
      → k.account_of (f x) ≡ k.account_of x
      → has_account i a (if b then f x else x) ≡ has_account i a x
  edited_account i a f true x h e = rw h (rw e refl)
  edited_account i a f false x h e = refl

  Edit-IsUnique :
      {tenant : ℕ} {proven : Bool} {t t' : List C}
      → Edit tenant proven t t'
      → IsUnique t
      → IsUnique t'
  unfolding add change_own delete_own
  Edit-IsUnique unchanged u = u
  Edit-IsUnique {tenant} (added {t} c h l e) u = λ i a. omega (
    arith,
    count-append (has_account i a) t (c ∷ []),
    new_row-le i a c t (subst (λ x. find_account x (k.account_of c) t ≡ nothing) (sym h) e) (u i a),
  )
  Edit-IsUnique {tenant} (changed {t} id f h) u = λ i a.
      subst (λ n. n ≤ 1)
        (sym (
          count-map (has_account i a) _ t
            (λ x. edited_account i a f (is_own tenant id x) x (h x).0 (h x).1)))
        (u i a)
  Edit-IsUnique (deleted {t} id) u =
      λ i a. omega (arith, count-keep-le (has_account i a) _ t, u i a)

  -- A row in use was in use before, unless the call proved it.
  abbrev pub IsIdle : List C → Type 0
  IsIdle = All (λ c. k.is_live c ≡ false)

  unique_found :
      (tenant account : ℕ) (t : List C) → IsUnique t → find_account tenant account t ≢ several
  unfolding find_account
  unique_found tenant account t u h =
      absurd (omega (arith, u tenant account, several_found (has_account tenant account) t h))

abbrev pub AllUnique : Database → Type 0
AllUnique db = IsUnique db.aws × IsUnique db.azure × IsUnique db.gcp

calls-AllUnique : (cs : List (ℕ × Call)) (db : Database) → AllUnique db → AllUnique (calls cs db)
unfolding calls
calls-AllUnique [] db u = u
calls-AllUnique ((tenant, c) ∷ cs) db u =
    let e = call-Edits tenant c db in
    calls-AllUnique cs (call tenant c db).1
      (Edit-IsUnique e.0 u.0, Edit-IsUnique e.1 u.1, Edit-IsUnique e.2 u.2)

-- However tenants create, verify, link and delete connections and discover accounts, from a database
-- where no tenant has an account connected twice: none comes to have one twice, so that the check for
-- a connected account never finds several, in any of the three tables.
pub accounts_are_unique :
    (cs : List (ℕ × Call)) (db : Database) (tenant account : ℕ)
    → AllUnique db
    → let db' = calls cs db in
      AllUnique db'
      × (find_account tenant account db'.aws ≢ several)
      × (find_account tenant account db'.azure ≢ several)
      × (find_account tenant account db'.gcp ≢ several)
accounts_are_unique cs db tenant account u =
    let u' = calls-AllUnique cs db u in
    (
      u',
      unique_found tenant account _ u'.0,
      unique_found tenant account _ u'.1,
      unique_found tenant account _ u'.2,
    )

abbrev pub AllIdle : Database → Type 0
AllIdle db = IsIdle db.aws × IsIdle db.azure × IsIdle db.gcp
