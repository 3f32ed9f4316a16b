-- ===== src/Connections/Edits.antt =====
-- What any call does to a table of connections: nothing, a new row, a change to an own row, or a
-- deletion of own rows.
use cloud_sentinel_ai.Base.{
  ℕ, Bool, true, false, ◌≡◌, refl, ◌⊎◌, inl, Option, none, some, List, [], ◌∷◌, Found, nothing, one,
  several, if_both, length, ap, scalar_one_or_none,
}
use cloud_sentinel_ai.Connections.{
  Database, Connection, AwsConnection, AzureConnection, GcpConnection, DiscoveredAccount,
  aws_columns, azure_columns, gcp_columns, find_own, find_account, select_account, change_own,
  delete_own, add,
}
use cloud_sentinel_ai.Connections.Services.{
  Response, Verification, authentic, rejected, adapter_error, unexpected, verify_aws, verify_azure,
  verify_gcp, aws_outcome, azure_outcome, gcp_outcome, Member, sync_accounts, synced,
  record_members,
}
use cloud_sentinel_ai.Connections.Routes.{
  create_aws_connection, delete_aws_connection, sync_aws_org, sync_found, link_discovered_account,
  link_found, link_unless, create_azure_connection, verify_azure_connection,
  delete_azure_connection, create_gcp_connection, verify_gcp_connection, delete_gcp_connection,
  gated, check_growth_tier, unless_found, unless_any, if_found, new_aws, new_azure, new_gcp,
  linked_aws, Defaults,
}
use cloud_sentinel_ai.Connections.Calls.{
  Call, call, authenticates, creates_aws, creates_azure, creates_gcp, verifies_aws, verifies_azure,
  verifies_gcp, deletes_aws, deletes_azure, deletes_gcp, syncs, links,
}

module _ {C : Type 0} ⦃k : Connection C⦄ where
  -- A change keeps the tenant and the account, and puts a row in use only with proof.
  abbrev pub IsUpdate : Bool → (C → C) → Type 0
  IsUpdate proven f =
      (c : C)
      → (k.owner_of (f c) ≡ k.owner_of c)
        × (k.account_of (f c) ≡ k.account_of c)
        × (k.is_live (f c) ≡ true → (proven ≡ true) ⊎ (k.is_live c ≡ true))

  pub data Edit (tenant : ℕ) (proven : Bool) : List C → List C → Type 0 where
    unchanged : {t : List C} → Edit tenant proven t t
    added :
        {t : List C} (c : C)
        → k.owner_of c ≡ tenant
        → k.is_live c ≡ false
        → find_account tenant (k.account_of c) t ≡ nothing
        → Edit tenant proven t (add c t)
    changed :
        {t : List C} (id : ℕ) (f : C → C)
        → IsUpdate proven f
        → Edit tenant proven t (change_own tenant id f t)
    deleted : {t : List C} (id : ℕ) → Edit tenant proven t (delete_own tenant id t)

  none_selected :
      (tenant account : ℕ) (t : List C)
      → select_account tenant account t ≡ []
      → find_account tenant account t ≡ nothing
  unfolding select_account find_account
  none_selected tenant account t h = ap scalar_one_or_none h

-- The same for the three tables.
abbrev pub Edits : ℕ → Bool → Database → Database → Type 0
Edits tenant proven db db' =
    Edit tenant proven db.aws db'.aws
    × Edit tenant proven db.azure db'.azure
    × Edit tenant proven db.gcp db'.gcp

abbrev nothing_done : (tenant : ℕ) (proven : Bool) (db : Database) → Edits tenant proven db db
nothing_done tenant proven db = (unchanged, unchanged, unchanged)

verify_aws-Edits :
    (tenant id : ℕ) (v : Verification) (f : Found AwsConnection) (db : Database)
    → Edits tenant (authenticates (verifies_aws id v)) db (aws_outcome tenant id v f db).1
verify_aws-Edits tenant id v nothing db = nothing_done tenant _ db
verify_aws-Edits tenant id v several db = nothing_done tenant _ db
verify_aws-Edits tenant id authentic (one c) db =
    (changed id _ (λ c. (refl, refl, λ _. inl refl)), unchanged, unchanged)
verify_aws-Edits tenant id rejected (one c) db =
    (changed id _ (λ c. (refl, refl, λ h. absurd (cc))), unchanged, unchanged)
verify_aws-Edits tenant id adapter_error (one c) db =
    (changed id _ (λ c. (refl, refl, λ h. absurd (cc))), unchanged, unchanged)
verify_aws-Edits tenant id unexpected (one c) db = nothing_done tenant _ db

verify_azure-Edits :
    (tenant id : ℕ) (v : Verification) (f : Found AzureConnection) (db : Database)
    → Edits tenant (authenticates (verifies_azure id v)) db (azure_outcome tenant id v f db).1
verify_azure-Edits tenant id v nothing db = nothing_done tenant _ db
verify_azure-Edits tenant id v several db = nothing_done tenant _ db
verify_azure-Edits tenant id authentic (one c) db =
    (unchanged, changed id _ (λ c. (refl, refl, λ _. inl refl)), unchanged)
verify_azure-Edits tenant id rejected (one c) db = nothing_done tenant _ db
verify_azure-Edits tenant id adapter_error (one c) db = nothing_done tenant _ db
verify_azure-Edits tenant id unexpected (one c) db = nothing_done tenant _ db

verify_gcp-Edits :
    (tenant id : ℕ) (v : Verification) (f : Found GcpConnection) (db : Database)
    → Edits tenant (authenticates (verifies_gcp id v)) db (gcp_outcome tenant id v f db).1
verify_gcp-Edits tenant id v nothing db = nothing_done tenant _ db
verify_gcp-Edits tenant id v several db = nothing_done tenant _ db
verify_gcp-Edits tenant id authentic (one c) db =
    (unchanged, unchanged, changed id _ (λ c. (refl, refl, λ _. inl refl)))
verify_gcp-Edits tenant id rejected (one c) db = nothing_done tenant _ db
verify_gcp-Edits tenant id adapter_error (one c) db = nothing_done tenant _ db
verify_gcp-Edits tenant id unexpected (one c) db = nothing_done tenant _ db

-- A gate, a conflict or a missing row leaves all as it was.
gated-Edits :
    (tenant : ℕ) (proven : Bool) (g : Option Response) (go : Response × Database) (db : Database)
    → Edits tenant proven db go.1
    → Edits tenant proven db (gated g go db).1
gated-Edits tenant proven none go db h = h
gated-Edits tenant proven (some r) go db h = nothing_done tenant proven db

unless_found-Edits :
    {C : Type 0} (tenant : ℕ) (proven : Bool) (f : Found C) (go : Response × Database)
    (db : Database)
    → (f ≡ nothing → Edits tenant proven db go.1)
    → Edits tenant proven db (unless_found f go db).1
unless_found-Edits tenant proven nothing go db h = h refl
unless_found-Edits tenant proven (one c) go db h = nothing_done tenant proven db
unless_found-Edits tenant proven several go db h = nothing_done tenant proven db

unless_any-Edits :
    {C : Type 0} (tenant : ℕ) (proven : Bool) (l : List C) (go : Response × Database)
    (db : Database)
    → (l ≡ [] → Edits tenant proven db go.1)
    → Edits tenant proven db (unless_any l go db).1
unless_any-Edits tenant proven [] go db h = h refl
unless_any-Edits tenant proven (c ∷ l) go db h = nothing_done tenant proven db

if_found-Edits :
    {C : Type 0} (tenant : ℕ) (proven : Bool) (f : Found C) (go : Response × Database)
    (db : Database)
    → Edits tenant proven db go.1
    → Edits tenant proven db (if_found f go db).1
if_found-Edits tenant proven nothing go db h = nothing_done tenant proven db
if_found-Edits tenant proven (one c) go db h = h
if_found-Edits tenant proven several go db h = nothing_done tenant proven db

synced-Edits :
    (tenant : ℕ) (o : Option (List DiscoveredAccount)) (n : ℕ) (db : Database)
    → Edits tenant false db (synced o n db).1
synced-Edits tenant none n db = nothing_done tenant false db
synced-Edits tenant (some t) n db = nothing_done tenant false db

-- A discovery changes no connection.
sync_accounts-Edits :
    (tenant : ℕ) (c : AwsConnection) (members : Option (List Member)) (db : Database)
    → Edits tenant false db (sync_accounts c members db).1
unfolding sync_accounts
sync_accounts-Edits tenant c none db = nothing_done tenant false db
sync_accounts-Edits tenant c (some ms) db =
    if_both (λ (r : ℕ × Database). Edits tenant false db r.1) c.is_management_account
      (synced-Edits tenant (record_members c ms db.discovered_accounts) (length ms) db)
      (nothing_done tenant false db)

sync_found-Edits :
    (tenant : ℕ) (members : Option (List Member)) (f : Found AwsConnection) (db : Database)
    → Edits tenant false db (sync_found members f db).1
sync_found-Edits tenant members nothing db = nothing_done tenant false db
sync_found-Edits tenant members several db = nothing_done tenant false db
sync_found-Edits tenant members (one c) db =
    if_both (λ (r : Response × Database). Edits tenant false db r.1) c.is_management_account
      (sync_accounts-Edits tenant c members db) (nothing_done tenant false db)

link_unless-Edits :
    (tenant new_id : ℕ) (c : AwsConnection) (d : DiscoveredAccount) (f : Found AwsConnection)
    (db : Database)
    → c.tenant_id ≡ tenant
    → aws_columns.is_live c ≡ false
    → (f ≡ nothing → find_account tenant c.aws_account_id db.aws ≡ nothing)
    → Edits tenant false db (link_unless new_id c d f db).1
link_unless-Edits tenant new_id c d nothing db h l e = (added c h l (e refl), unchanged, unchanged)
link_unless-Edits tenant new_id c d (one _) db h l e = nothing_done tenant false db
link_unless-Edits tenant new_id c d several db h l e = nothing_done tenant false db

link_found-Edits :
    (tenant new_id : ℕ) (given : Defaults) (f : Found (DiscoveredAccount × AwsConnection))
    (db : Database)
    → Edits tenant false db (link_found tenant new_id given f db).1
link_found-Edits tenant new_id given nothing db = nothing_done tenant false db
link_found-Edits tenant new_id given several db = nothing_done tenant false db
link_found-Edits tenant new_id given (one (d, manager)) db =
    link_unless-Edits tenant new_id (linked_aws tenant new_id given d manager) d _ db refl refl
      (λ e. e)

pub call-Edits :
    (tenant : ℕ) (c : Call) (db : Database) → Edits tenant (authenticates c) db (call tenant c db).1
unfolding call create_aws_connection create_azure_connection create_gcp_connection verify_aws
    verify_azure verify_gcp verify_azure_connection verify_gcp_connection delete_aws_connection
    delete_azure_connection delete_gcp_connection sync_aws_org link_discovered_account
call-Edits tenant (creates_aws id body) db =
    unless_found-Edits tenant false _ _ db
      (λ e. (added (new_aws tenant id body) refl refl e, unchanged, unchanged))
call-Edits tenant (creates_azure id body) db =
    gated-Edits tenant false (check_growth_tier tenant db) _ db (
      unless_any-Edits tenant false (select_account tenant body.subscription_id db.azure) _ db (λ e.
        (
          unchanged,
          added (new_azure tenant id body) refl refl (none_selected tenant _ db.azure e),
          unchanged,
        )))
call-Edits tenant (creates_gcp id body) db =
    gated-Edits tenant false (check_growth_tier tenant db) _ db (
      unless_any-Edits tenant false (select_account tenant body.project_id db.gcp) _ db (λ e. (
        unchanged,
        unchanged,
        added (new_gcp tenant id body) refl refl (none_selected tenant _ db.gcp e),
      )))
call-Edits tenant (verifies_aws id v) db =
    verify_aws-Edits tenant id v (find_own tenant id db.aws) db
call-Edits tenant (verifies_azure id v) db =
    gated-Edits tenant _ (check_growth_tier tenant db) _ db
      (verify_azure-Edits tenant id v (find_own tenant id db.azure) db)
call-Edits tenant (verifies_gcp id v) db =
    gated-Edits tenant _ (check_growth_tier tenant db) _ db
      (verify_gcp-Edits tenant id v (find_own tenant id db.gcp) db)
call-Edits tenant (deletes_aws id) db =
    if_found-Edits tenant false (find_own tenant id db.aws) _ db (deleted id, unchanged, unchanged)
call-Edits tenant (deletes_azure id) db =
    if_found-Edits tenant false (find_own tenant id db.azure) _ db
      (unchanged, deleted id, unchanged)
call-Edits tenant (deletes_gcp id) db =
    if_found-Edits tenant false (find_own tenant id db.gcp) _ db (unchanged, unchanged, deleted id)
call-Edits tenant (syncs id members) db =
    sync_found-Edits tenant members (find_own tenant id db.aws) db
call-Edits tenant (links id new_id given) db = link_found-Edits tenant new_id given _ db
