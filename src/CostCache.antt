-- ===== src/CostCache.antt =====
-- The cache of costs, scans and analyses (app/shared/adapters/cost_cache.py). `CacheBackend` is the
-- interface; InMemoryCache implements it, and RedisCache forwards to a client that is not modelled.
-- A value of JSON is of any type; its printing and parsing, the digest and the printing of a date
-- are a `Codec`.
use cloud_sentinel_ai.Base.{
  ℕ, zero, ◌+◌, Instant, seconds, Bool, true, false, not, Option, none, some, List, [], ◌∷◌, ◌++◌,
  ltb, if◌then◌else◌, length, keep,
}
use cloud_sentinel_ai.Base.Text.{Text, codes, same_text, is_prefix, rstrip, join}
pub mod Memory
pub mod Keys
pub mod Invalidation
mod Samples

-- What the backends promise to do, on a state.
pub record CacheBackend (S : Type 0) : Type 0 where
  pub get : Instant → Text → S → Option Text × S
  pub set : Instant → Text → Text → ℕ → S → S
  pub delete : Text → S → S
  pub delete_pattern : Text → S → ℕ × S

-- An entry of `InMemoryCache._store`.
pub record Entry : Type 0 where
  pub key : Text
  pub value : Text
  pub expires_at : Option Instant

abbrev pub find : Text → List Entry → Option Entry
find key [] = none
find key (e ∷ es) = if same_text e.key key then some e else find key es

abbrev pub put : Entry → List Entry → List Entry
put new [] = new ∷ []
put new (e ∷ es) = if same_text e.key new.key then new ∷ es else e ∷ put new es

-- `del self._store[key]`, and `pop` with a default.
abbrev pub remove : Text → List Entry → List Entry
remove key = keep (λ e. not (same_text e.key key))

abbrev pub is_expired : Instant → Option Instant → Bool
is_expired now none = false
is_expired now (some expires_at) = ltb expires_at now

abbrev pub read_entry : Instant → Option Entry → List Entry → Option Text × List Entry
read_entry now none store = (none, store)
read_entry now (some e) store =
    if is_expired now e.expires_at then (none, remove e.key store) else (some e.value, store)

unfoldable pub memory_get : Instant → Text → List Entry → Option Text × List Entry
memory_get now key store = read_entry now (find key store) store

unfoldable pub memory_set : Instant → Text → Text → ℕ → List Entry → List Entry
memory_set now key value ttl_seconds =
    put (record { key = key; value = value; expires_at = some (now + seconds ttl_seconds) })

unfoldable pub memory_delete : Text → List Entry → List Entry
memory_delete key = remove key

abbrev pub has_prefix : Text → Entry → Bool
has_prefix prefix e = is_prefix prefix e.key

-- The pattern without its stars at the end is taken as a prefix.
unfoldable pub memory_delete_pattern : Text → List Entry → ℕ × List Entry
memory_delete_pattern pattern store = (
  length (keep (has_prefix (rstrip b'*' pattern)) store),
  keep (λ e. not (has_prefix (rstrip b'*' pattern) e)) store,
)

abbrev pub memory : CacheBackend (List Entry)
memory = record {
  get = memory_get;
  set = memory_set;
  delete = memory_delete;
  delete_pattern = memory_delete_pattern;
}

-- Which backend the factory takes: Redis only if it is configured and answers.
pub data BackendKind : Type 0 where
  redis in_memory : BackendKind

unfoldable pub get_cost_cache : Bool → Bool → BackendKind
get_cost_cache false health_check = in_memory
get_cost_cache true health_check = if health_check then redis else in_memory

pub record Codec (J : Type 0) : Type 0 where
  pub dumps : J → Text
  pub loads : Text → Option J
  pub hexdigest : Text → Text
  pub isoformat : ℕ → Text

abbrev pub ttl_daily_costs : ℕ
ttl_daily_costs = 3600

abbrev pub ttl_zombies : ℕ
ttl_zombies = 1800

abbrev pub ttl_analysis : ℕ
ttl_analysis = 7200

pub data Lookup (J : Type 0) : Type 0 where
  hit : J → Lookup J
  miss raised : Lookup J

unfoldable pub key_string : Text → Text → List Text → Text
key_string prefix tenant_id args = join b':' (prefix ∷ tenant_id ∷ args)

unfoldable pub tenant_pattern : Text → Text
tenant_pattern tenant_id = codes "valdrix:*" ++ (tenant_id ++ (b'*' ∷ []))

module _ {J : Type 0} (out : Codec J) where
  unfoldable pub generate_key : Text → Text → List Text → Text
  unfolding key_string
  generate_key prefix tenant_id args =
      codes "valdrix:" ++ out.hexdigest (key_string prefix tenant_id args)

  -- An empty text counts as missing, and `json.loads` may raise.
  abbrev pub from_json : Option J → Lookup J
  from_json none = raised
  from_json (some value) = hit value

  abbrev pub loaded : Option Text → Lookup J
  loaded none = miss
  loaded (some []) = miss
  loaded (some (c ∷ text)) = from_json (out.loads (c ∷ text))

module _ {J S : Type 0} (out : Codec J) (b : CacheBackend S) where
  abbrev pub get_cached : Text → Instant → S → Lookup J × S
  get_cached key now s = let (cached, s') = b.get now key s in (loaded out cached, s')

  unfoldable pub get_daily_costs : Text → ℕ → ℕ → Instant → S → Lookup J × S
  get_daily_costs tenant start_date end_date = get_cached (
      generate_key out (codes "costs") tenant
        (out.isoformat start_date ∷ out.isoformat end_date ∷ []))

  unfoldable pub set_daily_costs : Text → ℕ → ℕ → J → Instant → S → S
  set_daily_costs tenant start_date end_date costs now =
      b.set now
        (generate_key out (codes "costs") tenant
          (out.isoformat start_date ∷ out.isoformat end_date ∷ []))
        (out.dumps costs) ttl_daily_costs

  unfoldable pub get_zombie_scan : Text → Text → Instant → S → Lookup J × S
  get_zombie_scan tenant region =
      get_cached (generate_key out (codes "zombies") tenant (region ∷ []))

  unfoldable pub set_zombie_scan : Text → Text → J → Instant → S → S
  set_zombie_scan tenant region zombies now =
      b.set now (generate_key out (codes "zombies") tenant (region ∷ [])) (out.dumps zombies)
        ttl_zombies

  unfoldable pub get_analysis : Text → Text → Instant → S → Lookup J × S
  get_analysis tenant analysis_hash =
      get_cached (generate_key out (codes "analysis") tenant (analysis_hash ∷ []))

  unfoldable pub set_analysis : Text → Text → J → Instant → S → S
  set_analysis tenant analysis_hash result now =
      b.set now (generate_key out (codes "analysis") tenant (analysis_hash ∷ [])) (out.dumps result)
        ttl_analysis

module _ {S : Type 0} (b : CacheBackend S) where
  unfoldable pub invalidate_tenant : Text → S → ℕ × S
  unfolding tenant_pattern
  invalidate_tenant tenant = b.delete_pattern (tenant_pattern tenant)

  unfoldable pub invalidate_zombies : Text → S → ℕ × S
  invalidate_zombies tenant =
      b.delete_pattern (codes "valdrix:*zombies*" ++ (tenant ++ (b'*' ∷ [])))
