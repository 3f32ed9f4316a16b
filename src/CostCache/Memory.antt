-- ===== src/CostCache/Memory.antt =====
-- The in-memory backend keeps what a table of values with times would keep.
use cloud_sentinel_ai.Base.{
  ℕ, ◌+◌, ◌≤◌, ◌≡◌, refl, sym, ap, ◌∙◌, Instant, seconds, Bool, true, false, not, Option, none,
  some, List, [], ◌∷◌, if◌then◌else◌, keep, arith, inl, inr, Bool-cases, subst,
}
use cloud_sentinel_ai.Base.Text.{
  Text, same_text, same_text-eq, same_text_self, same_text_comm, is_prefix, rstrip,
}
use cloud_sentinel_ai.CostCache.{
  CacheBackend, Entry, find, put, remove, is_expired, has_prefix, memory, memory_get, memory_set,
  memory_delete, memory_delete_pattern, read_entry,
}

-- What is asked of a backend.
pub data Request : Type 0 where
  gets : Text → Request
  sets : Text → Text → ℕ → Request
  deletes deletes_pattern : Text → Request

-- The answers to a sequence of requests; only `get` has one.
module _ {S : Type 0} (b : CacheBackend S) where
  unfoldable pub answers : List (Instant × Request) → S → List (Option Text)
  answers [] s = []
  answers ((now, gets key) ∷ rs) s = let (found, s') = b.get now key s in found ∷ answers rs s'
  answers ((now, sets key value ttl) ∷ rs) s = answers rs (b.set now key value ttl s)
  answers ((now, deletes key) ∷ rs) s = answers rs (b.delete key s)
  answers ((now, deletes_pattern pattern) ∷ rs) s = answers rs (b.delete_pattern pattern s).1

-- The table that the backend stands for: a value for a key, until a time.
abbrev pub Table : Type 0
Table = Text → Option (Text × Option Instant)

abbrev pub still_live : Instant → Option (Text × Option Instant) → Option Text
still_live now none = none
still_live now (some (value, expires_at)) = if is_expired now expires_at then none else some value

abbrev pub table : CacheBackend Table
table = record {
  get = λ now key m. (still_live now (m key), m);
  set = λ now key value ttl m k.
      if same_text key k then some (value, some (now + seconds ttl)) else m k;
  delete = λ key m k. if same_text key k then none else m k;
  delete_pattern = λ pattern m. (0, λ k. if is_prefix (rstrip b'*' pattern) k then none else m k);
}

-- The times of the requests do not go back.
abbrev pub IsTimed : Instant → List (Instant × Request) → Type 0
IsTimed now [] = Unit {0}
IsTimed now ((t, r) ∷ rs) = (now ≤ t) × IsTimed t rs

abbrev cell : Option Entry → Option (Text × Option Instant)
cell none = none
cell (some e) = some (e.value, e.expires_at)

-- From now on both have the same values.
abbrev Agree : Instant → List Entry → Table → Type 0
Agree now s m =
    (later : Instant)
    → now ≤ later
    → (k : Text) → still_live later (cell (find k s)) ≡ still_live later (m k)

pub find-put :
    (k : Text) (e : Entry) (s : List Entry)
    → find k (put e s) ≡ (if same_text e.key k then some e else find k s)
find-put k e [] = refl
find-put k e (x ∷ s) = ground (
  arith,
  find-put k e s,
  same_text-eq x.key e.key,
  same_text-eq x.key k,
  same_text-eq e.key k,
  same_text_self k,
)

find-keep :
    (k : Text) (p : Entry → Bool) (c : Bool) (s : List Entry)
    → ((e : Entry) → e.key ≡ k → p e ≡ not c)
    → find k (keep p s) ≡ (if c then none else find k s)
find-keep k p true [] h = refl
find-keep k p false [] h = refl
find-keep k p c (x ∷ s) h = ground (arith, find-keep k p c s h, h x, same_text-eq x.key k)

found_key : (k : Text) (s : List Entry) (e : Entry) → find k s ≡ some e → e.key ≡ k
found_key k [] e h = cc
found_key k (x ∷ s) e h = ground (arith, found_key k s e, same_text-eq x.key k)

-- A time that was over is over later.
stays_expired :
    (now later : Instant) (c : Option (Text × Option Instant))
    → now ≤ later
    → still_live now c ≡ none
    → still_live later c ≡ none
stays_expired now later none h e = refl
stays_expired now later (some (v, none)) h e = e
stays_expired now later (some (v, some t)) h e = ground arith

Agree-later :
    (now later : Instant) (s : List Entry) (m : Table)
    → now ≤ later
    → Agree now s m
    → Agree later s m
Agree-later now later s m h a t k = a t (omega (arith, h, k))

set-Agree :
    (now : Instant) (key value : Text) (ttl : ℕ) (s : List Entry) (m : Table)
    → Agree now s m
    → Agree now (memory_set now key value ttl s) (table.set now key value ttl m)
unfolding memory_set
set-Agree now key value ttl s m a later h k =
    rw (find-put k (record { key = key; value = value; expires_at = some (now + seconds ttl) }) s)
      (elim (Bool-cases (same_text key k)) [ inl e ↦ rw e refl | inr e ↦ rw e (a later h k) ])

remove-Agree :
    (now : Instant) (key : Text) (s : List Entry) (m : Table)
    → Agree now s m
    → Agree now (memory_delete key s) (table.delete key m)
unfolding memory_delete
remove-Agree now key s m a later h k =
    rw
      (find-keep k (λ e. not (same_text e.key key)) (same_text key k) s
        (λ e p. ap not (ap (λ t. same_text t key) p ∙ same_text_comm k key)))
      (elim (Bool-cases (same_text key k)) [ inl e ↦ rw e refl | inr e ↦ rw e (a later h k) ])

pattern-Agree :
    (now : Instant) (pattern : Text) (s : List Entry) (m : Table)
    → Agree now s m
    → Agree now (memory_delete_pattern pattern s).1 (table.delete_pattern pattern m).1
unfolding memory_delete_pattern
pattern-Agree now pattern s m a later h k =
    rw
      (find-keep k (λ e. not (has_prefix (rstrip b'*' pattern) e))
        (is_prefix (rstrip b'*' pattern) k) s
        (λ e p. ap (λ t. not (is_prefix (rstrip b'*' pattern) t)) p))
      (elim (Bool-cases (is_prefix (rstrip b'*' pattern) k)) [
        | inl e ↦ rw e refl
        | inr e ↦ rw e (a later h k)
      ])

-- To drop an entry that has expired changes nothing from now on.
drop-Agree :
    (now : Instant) (key : Text) (s : List Entry) (m : Table)
    → Agree now s m
    → still_live now (m key) ≡ none
    → Agree now (remove key s) m
drop-Agree now key s m a gone later h k =
    rw
      (find-keep k (λ e. not (same_text e.key key)) (same_text key k) s
        (λ e p. ap not (ap (λ t. same_text t key) p ∙ same_text_comm k key)))
      (elim (Bool-cases (same_text key k)) [
        | inl e ↦ rw e (
            sym (
              ap (λ t. still_live later (m t)) (sym (same_text-eq key k e))
              ∙ stays_expired now later (m key) h gone))
        | inr e ↦ rw e (a later h k)
      ])

-- Reading gives the same, and what it drops had expired.
read_same :
    (now : Instant) (key : Text) (s : List Entry) (m : Table) (o : Option Entry)
    → Agree now s m
    → find key s ≡ o
    → ((read_entry now o s).0 ≡ still_live now (m key)) × Agree now (read_entry now o s).1 m
read_same now key s m none a f =
    (ap (λ c. still_live now (cell c)) (sym f) ∙ a now (omega arith) key, a)
read_same now key s m (some e) a f =
    let same : still_live now (cell (some e)) ≡ still_live now (m key) =
      ap (λ c. still_live now (cell c)) (sym f) ∙ a now (omega arith) key in
    elim (Bool-cases (is_expired now e.expires_at)) [
      | inl over ↦
          let gone : still_live now (m key) ≡ none =
            sym same ∙ ap (λ b. if b then none else some e.value) over in
          rw (over, read_entry)
            (
              sym gone,
              subst (λ t. Agree now (remove t s) m) (sym (found_key key s e f))
                  (drop-Agree now key s m a gone),
            )
      | inr still_live ↦
          rw (still_live, read_entry)
            (sym (ap (λ b. if b then none else some e.value) still_live) ∙ same, a)
    ]

get_same :
    (now : Instant) (key : Text) (s : List Entry) (m : Table)
    → Agree now s m
    → ((memory_get now key s).0 ≡ still_live now (m key)) × Agree now (memory_get now key s).1 m
unfolding memory_get
get_same now key s m a = read_same now key s m (find key s) a refl

answers_same :
    (start : Instant) (rs : List (Instant × Request)) (s : List Entry) (m : Table)
    → IsTimed start rs
    → Agree start s m
    → answers memory rs s ≡ answers table rs m
unfolding answers
answers_same start [] s m h a = refl
answers_same start ((now, gets key) ∷ rs) s m h a =
    let (same, kept) = get_same now key s m (Agree-later start now s m h.0 a) in
    cc (same, answers_same now rs (memory_get now key s).1 m h.1 kept)
answers_same start ((now, sets key value ttl) ∷ rs) s m h a =
    answers_same now rs (memory_set now key value ttl s) (table.set now key value ttl m) h.1
      (set-Agree now key value ttl s m (Agree-later start now s m h.0 a))
answers_same start ((now, deletes key) ∷ rs) s m h a =
    answers_same now rs (memory_delete key s) (table.delete key m) h.1
      (remove-Agree now key s m (Agree-later start now s m h.0 a))
answers_same start ((now, deletes_pattern pattern) ∷ rs) s m h a =
    answers_same now rs (memory_delete_pattern pattern s).1 (table.delete_pattern pattern m).1 h.1
      (pattern-Agree now pattern s m (Agree-later start now s m h.0 a))

-- An in-memory cache that starts empty answers every sequence of requests, at times that do not go
-- back, as a table from keys to values with the time until which each counts: a later write hides an
-- earlier one, a deletion of a key or of a prefix removes what is there, and nothing else is lost.
pub memory_refines :
    (rs : List (Instant × Request))
    → IsTimed 0 rs
    → answers memory rs [] ≡ answers table rs (λ _. none)
memory_refines rs h = answers_same 0 rs [] (λ _. none) h (λ later p k. refl)
