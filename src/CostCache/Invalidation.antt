-- ===== src/CostCache/Invalidation.antt =====
-- To invalidate a tenant deletes nothing: the patterns name the tenant, but the keys are digests.
use cloud_sentinel_ai.Base.{
  ℕ, ◌≡◌, ◌≢◌, refl, sym, ap, ◌∙◌, subst, Instant, Bool, true, false, not, ◌&&◌, ◌||◌, Option, none,
  some, List, [], ◌∷◌, ◌++◌, All, leb, length, keep, arith, Bool-cases, inl, inr, zero, All-keep,
}
use cloud_sentinel_ai.Base.Text.{Text, codes, is_prefix, rstrip, rstrip-append, rstrip-prefix}
use cloud_sentinel_ai.CostCache.{
  Entry, find, put, is_expired, has_prefix, read_entry, memory, memory_get, memory_set,
  memory_delete_pattern, Codec, generate_key, get_daily_costs, set_daily_costs, get_zombie_scan,
  set_zombie_scan, get_analysis, set_analysis, invalidate_tenant, invalidate_zombies,
}

-- A digest of SHA-256 in hexadecimal.
abbrev pub is_hex : ℕ → Bool
is_hex c = (leb b'0' c && leb c b'9') || (leb b'a' c && leb c b'f')

abbrev pub IsHexDigest : Text → Type 0
IsHexDigest t = (length t ≡ 64) × All (λ c. is_hex c ≡ true) t

-- An identifier of a tenant: some characters, and no star.
abbrev pub IsName : Text → Type 0
IsName t = (t ≢ []) × All (λ c. c ≢ b'*') t

strip_pattern : (p : Text) (t : Text) → IsName t → rstrip b'*' (p ++ (t ++ (b'*' ∷ []))) ≡ p ++ t
strip_pattern p [] h = absurd (h.0 refl)
strip_pattern p (c ∷ t) h =
    rstrip-prefix b'*' p ((c ∷ t) ++ (b'*' ∷ [])) c t (rstrip-append b'*' (c ∷ t) h.1)

not_a_key :
    (rest digest : Text)
    → IsHexDigest digest
    → is_prefix (codes "valdrix:*" ++ rest) (codes "valdrix:" ++ digest) ≡ false
unfolding codes
not_a_key rest [] h = refl
not_a_key rest (d ∷ digest) h = ground (arith, h.1.0)

append_assoc : (p q r : Text) → (p ++ q) ++ r ≡ p ++ (q ++ r)
append_assoc [] q r = refl
append_assoc (c ∷ p) q r = ap (◌∷◌ c) (append_assoc p q r)

put-All : (P : Entry → Type 0) (e : Entry) (s : List Entry) → P e → All P s → All P (put e s)
put-All P e [] p h = (p, tt)
put-All P e (x ∷ s) p h = ground (arith, put-All P e s p h.1)

read-All :
    (P : Entry → Type 0) (now : Instant) (o : Option Entry) (s : List Entry)
    → All P s
    → All P (read_entry now o s).1
read-All P now none s h = h
read-All P now (some e) s h = elim (Bool-cases (is_expired now e.expires_at)) [
  | inl d ↦ rw (d, read_entry) (All-keep P _ s h)
  | inr d ↦ rw (d, read_entry) h
]

abbrev Digests : (Text → Text) → List Entry → Type 0
Digests hexdigest = All (λ e. (t : Text) × (e.key ≡ codes "valdrix:" ++ hexdigest t))

nothing_matches :
    (hexdigest : Text → Text) (rest : Text) (s : List Entry)
    → ((t : Text) → IsHexDigest (hexdigest t))
    → Digests hexdigest s
    → All (λ e. has_prefix (codes "valdrix:*" ++ rest) e ≡ false) s
nothing_matches hexdigest rest [] hex h = tt
nothing_matches hexdigest rest (e ∷ s) hex h = (
  ap (is_prefix (codes "valdrix:*" ++ rest)) h.0.1 ∙ not_a_key rest (hexdigest h.0.0) (hex h.0.0),
  nothing_matches hexdigest rest s hex h.1,
)

keep_all :
    (p : Entry → Bool) (s : List Entry)
    → All (λ e. p e ≡ false) s
    → (length (keep p s) ≡ 0) × (keep (λ e. not (p e)) s ≡ s)
keep_all p [] h = (refl, refl)
keep_all p (e ∷ s) h = rw h.0 (let rest = keep_all p s h.1 in (rest.0, ap (◌∷◌ e) rest.1))

-- A pattern that begins like those of the invalidations deletes no entry of a digest.
deletes_nothing :
    (hexdigest : Text → Text) (rest tenant : Text) (s : List Entry)
    → ((t : Text) → IsHexDigest (hexdigest t))
    → IsName tenant
    → Digests hexdigest s
    → memory_delete_pattern ((codes "valdrix:*" ++ rest) ++ (tenant ++ (b'*' ∷ []))) s ≡ (zero, s)
unfolding memory_delete_pattern
deletes_nothing hexdigest rest tenant s hex named h =
    let all = keep_all (has_prefix ((codes "valdrix:*" ++ rest) ++ tenant)) s (
      subst (λ q. All (λ e. has_prefix q e ≡ false) s)
        (sym (append_assoc (codes "valdrix:*") rest tenant))
        (nothing_matches hexdigest (rest ++ tenant) s hex h)) in
    rw (strip_pattern (codes "valdrix:*" ++ rest) tenant named) (λ i. (all.0 i, all.1 i))

-- The calls of the cache's clients.
pub data Use (J : Type 0) : Type 0 where
  stores_costs : Text → ℕ → ℕ → J → Use J
  stores_scan stores_analysis : Text → Text → J → Use J
  reads_costs : Text → ℕ → ℕ → Use J
  reads_scan reads_analysis : Text → Text → Use J
  invalidates invalidates_zombies : Text → Use J

module _ {J : Type 0} (out : Codec J) where
  unfoldable pub after_use : Instant → Use J → List Entry → List Entry
  after_use now (stores_costs t a b v) s = set_daily_costs out memory t a b v now s
  after_use now (stores_scan t r v) s = set_zombie_scan out memory t r v now s
  after_use now (stores_analysis t h v) s = set_analysis out memory t h v now s
  after_use now (reads_costs t a b) s = (get_daily_costs out memory t a b now s).1
  after_use now (reads_scan t r) s = (get_zombie_scan out memory t r now s).1
  after_use now (reads_analysis t h) s = (get_analysis out memory t h now s).1
  after_use now (invalidates t) s = (invalidate_tenant memory t s).1
  after_use now (invalidates_zombies t) s = (invalidate_zombies memory t s).1

  unfoldable pub after_uses : List (Instant × Use J) → List Entry → List Entry
  unfolding after_use
  after_uses [] s = s
  after_uses ((now, u) ∷ us) s = after_uses us (after_use now u s)

  set-Digests :
      (now : Instant) (prefix tenant : Text) (args : List Text) (value : Text) (ttl : ℕ)
      (s : List Entry)
      → Digests out.hexdigest s
      → Digests out.hexdigest (memory_set now (generate_key out prefix tenant args) value ttl s)
  unfolding memory_set generate_key
  set-Digests now prefix tenant args value ttl s h =
      put-All _ (record { key = _; value = value; expires_at = _ }) s (_, refl) h

  get-Digests :
      (now : Instant) (key : Text) (s : List Entry)
      → Digests out.hexdigest s
      → Digests out.hexdigest (memory_get now key s).1
  unfolding memory_get
  get-Digests now key s h = read-All _ now (find key s) s h

  after_use-Digests :
      (now : Instant) (u : Use J) (s : List Entry)
      → Digests out.hexdigest s
      → Digests out.hexdigest (after_use now u s)
  unfolding after_use set_daily_costs set_zombie_scan set_analysis get_daily_costs get_zombie_scan
      get_analysis invalidate_tenant invalidate_zombies memory_delete_pattern
  after_use-Digests now (stores_costs t a b v) s h = set-Digests now _ t _ _ _ s h
  after_use-Digests now (stores_scan t r v) s h = set-Digests now _ t _ _ _ s h
  after_use-Digests now (stores_analysis t k v) s h = set-Digests now _ t _ _ _ s h
  after_use-Digests now (reads_costs t a b) s h = get-Digests now _ s h
  after_use-Digests now (reads_scan t r) s h = get-Digests now _ s h
  after_use-Digests now (reads_analysis t k) s h = get-Digests now _ s h
  after_use-Digests now (invalidates t) s h = All-keep _ _ s h
  after_use-Digests now (invalidates_zombies t) s h = All-keep _ _ s h

  after_uses-Digests :
      (us : List (Instant × Use J)) (s : List Entry)
      → Digests out.hexdigest s
      → Digests out.hexdigest (after_uses us s)
  unfolding after_uses
  after_uses-Digests [] s h = h
  after_uses-Digests ((now, u) ∷ us) s h =
      after_uses-Digests us (after_use now u s) (after_use-Digests now u s h)

  -- After any use of a cache that starts empty, with a digest in hexadecimal: to invalidate a tenant,
  -- or its scans, deletes no entry and reports 0, whatever was stored for the tenant.
  pub invalidation_deletes_nothing :
      ((t : Text) → IsHexDigest (out.hexdigest t))
      → (us : List (Instant × Use J)) (tenant : Text) → IsName tenant
      → let s = after_uses us [] in
        (invalidate_tenant memory tenant s ≡ (zero, s))
        × (invalidate_zombies memory tenant s ≡ (zero, s))
  unfolding invalidate_tenant invalidate_zombies codes
  invalidation_deletes_nothing hex us tenant named =
      let own = after_uses-Digests us [] tt in
      (
        deletes_nothing out.hexdigest [] tenant (after_uses us []) hex named own,
        deletes_nothing out.hexdigest (codes "zombies*") tenant (after_uses us []) hex named own,
      )
