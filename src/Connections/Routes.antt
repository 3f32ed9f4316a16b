-- ===== src/Connections/Routes.antt =====
-- The endpoints of app/modules/governance/api/v1/settings/connections.py, with the roles of
-- app/shared/core/auth.py. Every call is made by a user of a tenant; a new row's identifier is given.
use cloud_sentinel_ai.Base.{
  ℕ, Bool, true, false, not, ◌&&◌, Option, none, some, List, [], ◌∷◌, ◌==◌, if◌then◌else◌, ◌++◌,
  map, keep, leb, Found, nothing, one, several, scalar_one_or_none,
}
use cloud_sentinel_ai.Tiers.{PricingTier, free, trial, growth, pro, enterprise}
use cloud_sentinel_ai.Connections.{
  Database, AwsConnection, AzureConnection, GcpConnection, DiscoveredAccount, pending, linked,
  find_own, find_account, select_account, delete_own, add, is_own, is_of_tenant, aws_columns,
  azure_columns, gcp_columns,
}
use cloud_sentinel_ai.Connections.Services.{
  Response, created, removed, linked_to, already_linked, discovered_count, conflict, forbidden,
  not_found, server_error, Verification, verify_azure, verify_gcp, Member, sync_accounts,
}

pub data UserRole : Type 0 where
  owner admin member : UserRole

abbrev pub role_level : UserRole → ℕ
role_level owner = 100
role_level admin = 50
role_level member = 10

-- An owner passes every check.
unfoldable pub has_role : UserRole → UserRole → Bool
has_role required owner = true
has_role required role = leb (role_level required) (role_level role)

abbrev pub is_growth : PricingTier → Bool
is_growth trial = true
is_growth growth = true
is_growth pro = true
is_growth enterprise = true
is_growth _ = false

-- A plan that is no tier counts as free.
abbrev pub current_plan : Option PricingTier → PricingTier
current_plan none = free
current_plan (some tier) = tier

abbrev pub plan_of : ℕ → Database → Found (ℕ × Option PricingTier)
plan_of tenant db = scalar_one_or_none (keep (λ p. p.0 == tenant) db.plans)

-- What `check_growth_tier` raises, if it does.
abbrev pub gate : Found (ℕ × Option PricingTier) → Option Response
gate nothing = some not_found
gate several = some server_error
gate (one (_, plan)) = if is_growth (current_plan plan) then none else some forbidden

unfoldable pub check_growth_tier : ℕ → Database → Option Response
check_growth_tier tenant db = gate (plan_of tenant db)

abbrev pub gated : Option Response → Response × Database → Database → Response × Database
gated none go db = go
gated (some refusal) go db = (refusal, db)

abbrev pub unless_found :
    {C : Type 0} → Found C → Response × Database → Database → Response × Database
unless_found nothing go db = go
unless_found (one _) go db = (conflict, db)
unless_found several go db = (server_error, db)

abbrev pub unless_any : {C : Type 0} → List C → Response × Database → Database → Response × Database
unless_any [] go db = go
unless_any (_ ∷ _) go db = (conflict, db)

abbrev pub if_found : {C : Type 0} → Found C → Response × Database → Database → Response × Database
if_found nothing go db = (not_found, db)
if_found (one _) go db = go
if_found several go db = (server_error, db)

-- The bodies of the requests, whose tenant and state are not theirs to say.
abbrev pub new_aws : ℕ → ℕ → AwsConnection → AwsConnection
new_aws tenant id body = record body { id = id; tenant_id = tenant; status = pending }

abbrev pub new_azure : ℕ → ℕ → AzureConnection → AzureConnection
new_azure tenant id body = record body { id = id; tenant_id = tenant; is_active = false }

abbrev pub new_gcp : ℕ → ℕ → GcpConnection → GcpConnection
new_gcp tenant id body = record body { id = id; tenant_id = tenant; is_active = false }

unfoldable pub create_aws_connection : ℕ → ℕ → AwsConnection → Database → Response × Database
create_aws_connection tenant id body db =
    unless_found (find_account tenant body.aws_account_id db.aws)
      (created id, record db { aws = add (new_aws tenant id body) db.aws }) db

-- The discovered accounts of a deleted management connection go with it.
unfoldable pub delete_aws_connection : ℕ → ℕ → Database → Response × Database
delete_aws_connection tenant id db =
    if_found (find_own tenant id db.aws)
      (
        removed id,
        record db {
          aws = delete_own tenant id db.aws;
          discovered_accounts =
              keep (λ d. not (d.management_connection_id == id)) db.discovered_accounts;
        },
      )
      db

abbrev pub sync_found : Option (List Member) → Found AwsConnection → Database → Response × Database
sync_found members nothing db = (not_found, db)
sync_found members several db = (server_error, db)
sync_found members (one c) db =
    if c.is_management_account
    then (let (count, db') = sync_accounts c members db in (discovered_count count, db'))
    else (not_found, db)

unfoldable pub sync_aws_org : ℕ → ℕ → Option (List Member) → Database → Response × Database
sync_aws_org tenant id members db = sync_found members (find_own tenant id db.aws) db

abbrev pub is_among : ℕ → List AwsConnection → Bool
is_among id [] = false
is_among id (c ∷ cs) = if c.id == id then true else is_among id cs

-- The management connections of a tenant.
abbrev pub managers_of : ℕ → Database → List AwsConnection
managers_of tenant db = keep (λ c. is_of_tenant tenant c && c.is_management_account) db.aws

-- The order, which is that of the discovery, is left out.
unfoldable pub list_discovered_accounts : ℕ → Database → List DiscoveredAccount
list_discovered_accounts tenant db =
    keep (λ d. is_among d.management_connection_id (managers_of tenant db)) db.discovered_accounts

-- The join of the discovered accounts with their management connections.
abbrev pub manager_rows :
    ℕ → DiscoveredAccount → List AwsConnection → List (DiscoveredAccount × AwsConnection)
manager_rows tenant d [] = []
manager_rows tenant d (c ∷ cs) =
    let rest = manager_rows tenant d cs in
    if is_own tenant d.management_connection_id c then (d, c) ∷ rest else rest

abbrev pub joined :
    ℕ → ℕ → List DiscoveredAccount → List AwsConnection → List (DiscoveredAccount × AwsConnection)
joined tenant id [] cs = []
joined tenant id (d ∷ ds) cs =
    let rest = joined tenant id ds cs in
    if d.id == id then manager_rows tenant d cs ++ rest else rest

abbrev pub mark_linked : ℕ → List DiscoveredAccount → List DiscoveredAccount
mark_linked id = map (λ d. if d.id == id then record d { status = linked } else d)

-- The region and the name of the role of a linked account.
pub record Defaults : Type 0 where
  pub us_east_1 : ℕ
  pub role_arn_of : ℕ → ℕ

abbrev pub linked_aws : ℕ → ℕ → Defaults → DiscoveredAccount → AwsConnection → AwsConnection
linked_aws tenant new_id given d manager = record {
  id = new_id;
  tenant_id = tenant;
  aws_account_id = d.account_id;
  role_arn = given.role_arn_of d.account_id;
  external_id = manager.external_id;
  region = given.us_east_1;
  is_management_account = false;
  organization_id = none;
  status = pending;
}

abbrev pub link_unless :
    ℕ → AwsConnection → DiscoveredAccount → Found AwsConnection → Database → Response × Database
link_unless new_id c d nothing db = (
  linked_to new_id,
  record db { aws = add c db.aws; discovered_accounts = mark_linked d.id db.discovered_accounts },
)
link_unless new_id c d (one _) db =
    (already_linked, record db { discovered_accounts = mark_linked d.id db.discovered_accounts })
link_unless new_id c d several db = (server_error, db)

abbrev pub link_found :
    ℕ → ℕ → Defaults → Found (DiscoveredAccount × AwsConnection) → Database → Response × Database
link_found tenant new_id given nothing db = (not_found, db)
link_found tenant new_id given several db = (server_error, db)
link_found tenant new_id given (one (d, manager)) db =
    link_unless new_id (linked_aws tenant new_id given d manager) d
      (find_account tenant d.account_id db.aws) db

unfoldable pub link_discovered_account : ℕ → ℕ → ℕ → Defaults → Database → Response × Database
link_discovered_account tenant id new_id given db =
    link_found tenant new_id given
      (scalar_one_or_none (joined tenant id db.discovered_accounts db.aws)) db

unfoldable pub create_azure_connection : ℕ → ℕ → AzureConnection → Database → Response × Database
create_azure_connection tenant id body db =
    gated (check_growth_tier tenant db)
      (unless_any (select_account tenant body.subscription_id db.azure)
        (created id, record db { azure = add (new_azure tenant id body) db.azure }) db)
      db

unfoldable pub verify_azure_connection : ℕ → ℕ → Verification → Database → Response × Database
verify_azure_connection tenant id v db =
    gated (check_growth_tier tenant db) (verify_azure tenant id v db) db

unfoldable pub delete_azure_connection : ℕ → ℕ → Database → Response × Database
delete_azure_connection tenant id db =
    if_found (find_own tenant id db.azure)
      (removed id, record db { azure = delete_own tenant id db.azure }) db

unfoldable pub create_gcp_connection : ℕ → ℕ → GcpConnection → Database → Response × Database
create_gcp_connection tenant id body db =
    gated (check_growth_tier tenant db)
      (unless_any (select_account tenant body.project_id db.gcp)
        (created id, record db { gcp = add (new_gcp tenant id body) db.gcp }) db)
      db

unfoldable pub verify_gcp_connection : ℕ → ℕ → Verification → Database → Response × Database
verify_gcp_connection tenant id v db =
    gated (check_growth_tier tenant db) (verify_gcp tenant id v db) db

unfoldable pub delete_gcp_connection : ℕ → ℕ → Database → Response × Database
delete_gcp_connection tenant id db =
    if_found (find_own tenant id db.gcp)
      (removed id, record db { gcp = delete_own tenant id db.gcp }) db
