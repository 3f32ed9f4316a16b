-- ===== src/CostCache/Keys.antt =====
-- What is stored for one tenant, and for how long.
use cloud_sentinel_ai.Base.{
  ℕ, ◌+◌, ◌≡◌, ◌≢◌, refl, sym, ap, ◌∙◌, Instant, seconds, Option, none, some, List, [], ◌∷◌, ◌++◌,
  All, ltb, if◌then◌else◌, arith, Bool-cases, inl, inr,
}
use cloud_sentinel_ai.Base.Text.{
  Text, codes, same_text, same_text-eq, same_text_self, split, split-join,
}
use cloud_sentinel_ai.CostCache.{
  Entry, find, put, memory, memory_get, memory_set, read_entry, Codec, hit, miss, loaded, from_json,
  generate_key, get_cached, get_daily_costs, set_daily_costs,
}
use cloud_sentinel_ai.CostCache.Memory.{find-put}

-- The parts of a key have no colon.
abbrev pub IsPlain : Text → Type 0
IsPlain = All (λ c. c ≢ b':')

cons_inj : (c : ℕ) (s t : Text) → (c ∷ s) ≡ (c ∷ t) → s ≡ t
cons_inj c s t h = cc

digests_eq : (s t : Text) → codes "valdrix:" ++ s ≡ codes "valdrix:" ++ t → s ≡ t
unfolding codes
digests_eq s t h = cc

second_eq : (p q p' q' : Text) (r r' : List Text) → (p ∷ q ∷ r) ≡ (p' ∷ q' ∷ r') → q ≡ q'
second_eq p q p' q' r r' h = cc

module _ {J : Type 0} (out : Codec J)
    (digest_inj : (s t : Text) → out.hexdigest s ≡ out.hexdigest t → s ≡ t) where
  generate_key-inj :
      (prefix tenant prefix' tenant' : Text) (args args' : List Text)
      → All IsPlain (prefix ∷ tenant ∷ args)
      → All IsPlain (prefix' ∷ tenant' ∷ args')
      → generate_key out prefix tenant args ≡ generate_key out prefix' tenant' args'
      → tenant ≡ tenant'
  unfolding generate_key
  generate_key-inj prefix tenant prefix' tenant' args args' plain plain' h =
      let joined = digest_inj _ _ (digests_eq _ _ h) in
      second_eq prefix tenant prefix' tenant' args args' (
        sym (split-join b':' prefix (tenant ∷ args) plain)
        ∙ ap (split b':') joined
        ∙ split-join b':' prefix' (tenant' ∷ args') plain')

-- What is read depends only on what is found.
read_found :
    (now : Instant) (o : Option Entry) (s s' : List Entry)
    → (read_entry now o s).0 ≡ (read_entry now o s').0
read_found now none s s' = refl
read_found now (some e) s s' = ground arith

get_other :
    (now later : Instant) (key other value : Text) (ttl : ℕ) (s : List Entry)
    → key ≢ other
    → (memory_get later other (memory_set now key value ttl s)).0 ≡ (memory_get later other s).0
unfolding memory_get memory_set
get_other now later key other value ttl s h =
    let new : Entry = record { key = key; value = value; expires_at = some (now + seconds ttl) } in
    elim (Bool-cases (same_text key other)) [
      | inl e ↦ absurd (h (same_text-eq key other e))
      | inr e ↦ rw (find-put other new s) (rw e (read_found later (find other s) (put new s) s))
    ]

get_self :
    (now later : Instant) (key value : Text) (ttl : ℕ) (s : List Entry)
    → (memory_get later key (memory_set now key value ttl s)).0
      ≡ (if ltb (now + seconds ttl) later then none else some value)
unfolding memory_get memory_set
get_self now later key value ttl s =
    let new : Entry = record { key = key; value = value; expires_at = some (now + seconds ttl) } in
    rw (find-put key new s) (rw (same_text_self key) (ground arith))

module _ {J : Type 0} (out : Codec J) where
  -- What is stored under one tenant, of costs, scans or analyses, changes nothing that is read under
  -- another, provided that the parts of keys have no colon and that digests do not collide.
  pub tenants_separate :
      ((s t : Text) → out.hexdigest s ≡ out.hexdigest t → s ≡ t)
      → (prefix tenant prefix' tenant' : Text) (args args' : List Text)
      → All IsPlain (prefix ∷ tenant ∷ args)
      → All IsPlain (prefix' ∷ tenant' ∷ args')
      → tenant ≢ tenant'
      → (now later : Instant) (value : Text) (ttl : ℕ) (s : List Entry)
      → let stored = memory.set now (generate_key out prefix tenant args) value ttl s in
        (get_cached out memory (generate_key out prefix' tenant' args') later stored).0
        ≡ (get_cached out memory (generate_key out prefix' tenant' args') later s).0
  tenants_separate inj prefix tenant prefix' tenant' args args' plain plain' h now later value ttl
        s =
      ap (loaded out) (
        get_other now later (generate_key out prefix tenant args)
          (generate_key out prefix' tenant' args') value ttl s
          (λ e.
            h (generate_key-inj out inj prefix tenant prefix' tenant' args args' plain plain' e)))

  loaded_dumps :
      (v : J)
      → out.loads (out.dumps v) ≡ some v
      → out.dumps v ≢ []
      → loaded out (some (out.dumps v)) ≡ hit v
  loaded_dumps v h k = go (out.dumps v) h k
    where
      go : (t : Text) → out.loads t ≡ some v → t ≢ [] → loaded out (some t) ≡ hit v
      go [] h k = absurd (k refl)
      go (c ∷ t) h k = rw (h, from_json) refl

  -- The daily costs that were stored are found for an hour, and not after it.
  pub found_for_an_hour :
      (tenant : Text) (start_date end_date : ℕ) (costs : J) (now later : Instant) (s : List Entry)
      → out.loads (out.dumps costs) ≡ some costs
      → out.dumps costs ≢ []
      → let stored = set_daily_costs out memory tenant start_date end_date costs now s in
        (get_daily_costs out memory tenant start_date end_date later stored).0
        ≡ (if ltb (now + seconds 3600) later then miss else hit costs)
  unfolding get_daily_costs set_daily_costs
  found_for_an_hour tenant start_date end_date costs now later s h k =
      rw (get_self now later _ (out.dumps costs) 3600 s)
        (elim (Bool-cases (ltb (now + seconds 3600) later)) [
          | inl e ↦ rw e refl
          | inr e ↦ rw e (loaded_dumps costs h k)
        ])
