-- ===== src/Connections/Discovery.antt =====
-- An account that was discovered stays with the connection that discovered it first.
use cloud_sentinel_ai.Base.{
  ℕ, ◌≡◌, ◌≢◌, refl, sym, ap, subst, ◌∙◌, inl, inr, true, false, ◌&&◌, Option, none, some, List, [],
  ◌∷◌, ◌++◌, ◌==◌, if◌then◌else◌, map, keep, All, All-append, Found, nothing, one, several,
  Bool-cases, nothing_found, count, count-keep, ◌≤◌, arith, length, if_both, Option-cases, eq→==,
}
use cloud_sentinel_ai.Connections.{
  Database, AwsConnection, DiscoveredAccount, is_of_tenant, aws_columns,
}
use cloud_sentinel_ai.Connections.Services.{
  Member, find_discovered, is_account, refresh, new_discovered, record_member, after_member,
  record_members, sync_accounts, synced,
}
use cloud_sentinel_ai.Connections.Routes.{list_discovered_accounts, is_among, managers_of}

-- There is a row of the account, and all its rows belong to one connection.
abbrev pub Owned : ℕ → ℕ → List DiscoveredAccount → Type 0
Owned account manager table =
    (1 ≤ count (is_account account) table)
    × All (λ d. is_account account d ≡ true → d.management_connection_id ≡ manager) table

refresh-Owned :
    (account manager : ℕ) (m : Member) (table : List DiscoveredAccount)
    → Owned account manager table
    → Owned account manager (map (refresh m) table)
refresh-Owned account manager m table (some_row, all) =
    (subst (λ n. 1 ≤ n) (sym (same_count table)) some_row, same_all table all)
  where
    same_count :
        (t : List DiscoveredAccount)
        → count (is_account account) (map (refresh m) t) ≡ count (is_account account) t
    same_count [] = refl
    same_count (d ∷ t) = ground (arith, same_count t)

    same_all :
        (t : List DiscoveredAccount)
        → All (λ d. is_account account d ≡ true → d.management_connection_id ≡ manager) t
        → All
            (λ d. is_account account d ≡ true → d.management_connection_id ≡ manager)
            (map (refresh m) t)
    same_all [] h = tt
    same_all (d ∷ t) h = (
      if_both
          (λ (x : DiscoveredAccount).
            is_account account x ≡ true → x.management_connection_id ≡ manager)
          (is_account m.account d) h.0 h.0,
      same_all t h.1,
    )

-- A new row is of another account.
add-Owned :
    (account manager : ℕ) (new : DiscoveredAccount) (table : List DiscoveredAccount)
    → find_discovered new.account_id table ≡ nothing
    → Owned account manager table
    → Owned account manager (table ++ (new ∷ []))
unfolding find_discovered
add-Owned account manager new table e (some_row, all) =
    let none_yet : count (is_account new.account_id) table ≡ 0 =
      count-keep (is_account new.account_id) table
      ∙ ap (λ l. length l) (nothing_found (is_account new.account_id) table e) in
    let other : new.account_id ≢ account = λ p.
      absurd (omega (arith, some_row, subst (λ x. count (is_account x) table ≡ 0) p none_yet)) in
    (
      more table some_row,
      All-append _ table (new ∷ []) all (λ h. absurd (other (ground (arith, h))), tt),
    )
  where
    more :
        (t : List DiscoveredAccount)
        → 1 ≤ count (is_account account) t
        → 1 ≤ count (is_account account) (t ++ (new ∷ []))
    more [] h = absurd (omega arith)
    more (d ∷ t) h = ground (arith, more t)

record_member-Owned :
    (account manager : ℕ) (c : AwsConnection) (m : Member) (f : Found DiscoveredAccount)
    (table table' : List DiscoveredAccount)
    → find_discovered m.account table ≡ f
    → record_member c m f table ≡ some table'
    → Owned account manager table
    → Owned account manager table'
record_member-Owned account manager c m (one d) table table' e h o =
    let same : map (refresh m) table ≡ table' = cc in
    subst (Owned account manager) same (refresh-Owned account manager m table o)
record_member-Owned account manager c m several table table' e h o = absurd (cc)
record_member-Owned account manager c m nothing table table' e h o =
    let same : table ++ (new_discovered c m ∷ []) ≡ table' = cc in
    subst (Owned account manager) same (add-Owned account manager (new_discovered c m) table e o)

after_member-Owned :
    (account manager : ℕ) (c : AwsConnection) (m : Member) (table table' : List DiscoveredAccount)
    → after_member c m table ≡ some table'
    → Owned account manager table
    → Owned account manager table'
after_member-Owned account manager c m table table' h o =
    elim (Bool-cases (m.account == c.aws_account_id)) [
      | inl e ↦ subst (Owned account manager) (ground (arith, h, e)) o
      | inr e ↦
          record_member-Owned account manager c m (find_discovered m.account table) table table'
            refl
            (ap
                (λ b.
                  if b
                  then some table
                  else record_member c m (find_discovered m.account table) table)
                (sym e)
              ∙ h)
            o
    ]

record_members-Owned :
    (account manager : ℕ) (c : AwsConnection) (ms : List Member)
    (table table' : List DiscoveredAccount)
    → record_members c ms table ≡ some table'
    → Owned account manager table
    → Owned account manager table'
unfolding record_members
record_members-Owned account manager c [] table table' h o =
    let same : table ≡ table' = cc in subst (Owned account manager) same o
record_members-Owned account manager c (m ∷ ms) table table' h o =
    let next : Option (List DiscoveredAccount) → Option (List DiscoveredAccount) =
      λ r. elim r [ none ↦ none | some t ↦ record_members c ms t ] in
    elim (Option-cases (after_member c m table)) [
      | inl e ↦ absurd (cc (sym (ap next e) ∙ h))
      | inr (t, e) ↦
          record_members-Owned account manager c ms t table' (sym (ap next e) ∙ h)
            (after_member-Owned account manager c m table t e o)
    ]

sync_accounts-Owned :
    (account manager : ℕ) (c : AwsConnection) (members : Option (List Member)) (db : Database)
    → Owned account manager db.discovered_accounts
    → Owned account manager (sync_accounts c members db).1.discovered_accounts
unfolding sync_accounts
sync_accounts-Owned account manager c none db o = o
sync_accounts-Owned account manager c (some ms) db o =
    if_both (λ (r : ℕ × Database). Owned account manager r.1.discovered_accounts)
      c.is_management_account (go (record_members c ms db.discovered_accounts) refl) o
  where
    go :
        (r : Option (List DiscoveredAccount))
        → record_members c ms db.discovered_accounts ≡ r
        → Owned account manager (synced r (length ms) db).1.discovered_accounts
    go none e = o
    go (some t) e = record_members-Owned account manager c ms db.discovered_accounts t e o

sync_accounts-aws :
    (c : AwsConnection) (members : Option (List Member)) (db : Database)
    → (sync_accounts c members db).1.aws ≡ db.aws
unfolding sync_accounts
sync_accounts-aws c none db = refl
sync_accounts-aws c (some ms) db =
    if_both (λ (r : ℕ × Database). r.1.aws ≡ db.aws) c.is_management_account
      (go (record_members c ms db.discovered_accounts)) refl
  where
    go : (r : Option (List DiscoveredAccount)) → (synced r (length ms) db).1.aws ≡ db.aws
    go none = refl
    go (some t) = refl

unlisted :
    (account manager : ℕ) (managers : List AwsConnection) (table : List DiscoveredAccount)
    → is_among manager managers ≡ false
    → All (λ d. is_account account d ≡ true → d.management_connection_id ≡ manager) table
    → All
        (λ d. d.account_id ≢ account)
        (keep (λ d. is_among d.management_connection_id managers) table)
unlisted account manager managers [] h o = tt
unlisted account manager managers (d ∷ t) h o =
    elim (Bool-cases (is_among d.management_connection_id managers)) [
      | inl e ↦ rw e (
        (λ p.
            absurd (cc (e, ap (λ x. is_among x managers) (o.0 (eq→== d.account_id account p)), h))),
        unlisted account manager managers t h o.1,
      )
      | inr e ↦ rw e (unlisted account manager managers t h o.1)
    ]

-- Once an account was discovered by a connection of one tenant, another tenant whose organization has
-- it too never gets to see it: it stays with the first connection whatever the second one discovers,
-- and is not listed to a tenant that has not that connection.
pub first_discoverer_keeps :
    (tenant account manager : ℕ) (c : AwsConnection) (members : Option (List Member))
    (db : Database)
    → Owned account manager db.discovered_accounts
    → is_among manager (managers_of tenant db) ≡ false
    → let db' = (sync_accounts c members db).1 in
      Owned account manager db'.discovered_accounts
      × All (λ d. d.account_id ≢ account) (list_discovered_accounts tenant db')
unfolding list_discovered_accounts
first_discoverer_keeps tenant account manager c members db o h =
    let o' = sync_accounts-Owned account manager c members db o in
    (
      o',
      unlisted account manager (managers_of tenant (sync_accounts c members db).1) _
          (ap
              (λ t.
                is_among manager (keep (λ c. is_of_tenant tenant c && c.is_management_account) t))
              (sync_accounts-aws c members db)
            ∙ h)
          o'.1,
    )
