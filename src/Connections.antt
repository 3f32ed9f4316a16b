-- ===== src/Connections.antt =====
-- The connections of a tenant to its cloud accounts: the tables of app/models/aws_connection.py,
-- azure_connection.py, gcp_connection.py and discovered_account.py, with the queries on them.
-- What is only stored, such as a secret, is a number.
use cloud_sentinel_ai.Base.{
  ℕ, Bool, true, false, not, ◌&&◌, Option, none, some, List, [], ◌∷◌, ◌++◌, ◌==◌, if◌then◌else◌,
  map, keep, Found, scalar_one_or_none,
}
use cloud_sentinel_ai.Tiers.{PricingTier}
pub mod Services
pub mod Routes
pub mod Calls
mod Edits
pub mod Unique
pub mod Isolation
pub mod Gates
pub mod Discovery
mod Samples

pub data ConnectionStatus : Type 0 where
  pending active error : ConnectionStatus

pub record AwsConnection : Type 0 where
  pub id : ℕ
  pub tenant_id : ℕ
  pub aws_account_id : ℕ
  pub role_arn : ℕ
  pub external_id : ℕ
  pub region : ℕ
  pub is_management_account : Bool
  pub organization_id : Option ℕ
  pub status : ConnectionStatus

pub record AzureConnection : Type 0 where
  pub id : ℕ
  pub tenant_id : ℕ
  pub name : ℕ
  pub azure_tenant_id : ℕ
  pub client_id : ℕ
  pub subscription_id : ℕ
  pub client_secret : Option ℕ
  pub is_active : Bool

pub record GcpConnection : Type 0 where
  pub id : ℕ
  pub tenant_id : ℕ
  pub name : ℕ
  pub project_id : ℕ
  pub service_account_json : Option ℕ
  pub auth_method : ℕ
  pub billing_project_id : Option ℕ
  pub billing_dataset : Option ℕ
  pub billing_table : Option ℕ
  pub is_active : Bool

pub data DiscoveryStatus : Type 0 where
  discovered linked : DiscoveryStatus

pub record DiscoveredAccount : Type 0 where
  pub id : ℕ
  pub management_connection_id : ℕ
  pub account_id : ℕ
  pub name : ℕ
  pub email : ℕ
  pub status : DiscoveryStatus

-- The database as the endpoints see it; a plan that is no tier is `none`.
pub record Database : Type 0 where
  pub plans : List (ℕ × Option PricingTier)
  pub aws : List AwsConnection
  pub azure : List AzureConnection
  pub gcp : List GcpConnection
  pub discovered_accounts : List DiscoveredAccount

abbrev pub is_active_status : ConnectionStatus → Bool
is_active_status active = true
is_active_status _ = false

-- The columns that the queries select by, of each table of connections, and whether one is in use.
pub record Connection (C : Type 0) : Type 0 where
  pub id_of : C → ℕ
  pub owner_of : C → ℕ
  pub account_of : C → ℕ
  pub is_live : C → Bool

instance abbrev pub aws_columns : Connection AwsConnection
aws_columns = record {
  id_of = λ c. c.id;
  owner_of = λ c. c.tenant_id;
  account_of = λ c. c.aws_account_id;
  is_live = λ c. is_active_status c.status;
}

instance abbrev pub azure_columns : Connection AzureConnection
azure_columns = record {
  id_of = λ c. c.id;
  owner_of = λ c. c.tenant_id;
  account_of = λ c. c.subscription_id;
  is_live = λ c. c.is_active;
}

instance abbrev pub gcp_columns : Connection GcpConnection
gcp_columns = record {
  id_of = λ c. c.id;
  owner_of = λ c. c.tenant_id;
  account_of = λ c. c.project_id;
  is_live = λ c. c.is_active;
}

module _ {C : Type 0} ⦃k : Connection C⦄ where
  abbrev pub is_of_tenant : ℕ → C → Bool
  is_of_tenant tenant c = k.owner_of c == tenant

  abbrev pub is_own : ℕ → ℕ → C → Bool
  is_own tenant id c = k.id_of c == id && is_of_tenant tenant c

  abbrev pub has_account : ℕ → ℕ → C → Bool
  has_account tenant account c = is_of_tenant tenant c && k.account_of c == account

  unfoldable pub find_own : ℕ → ℕ → List C → Found C
  find_own tenant id table = scalar_one_or_none (keep (is_own tenant id) table)

  unfoldable pub find_account : ℕ → ℕ → List C → Found C
  find_account tenant account table = scalar_one_or_none (keep (has_account tenant account) table)

  -- All rows that a query for an account selects, of which `db.scalar` takes the first.
  unfoldable pub select_account : ℕ → ℕ → List C → List C
  select_account tenant account table = keep (has_account tenant account) table

  -- A change to the row that `find_own` finds, and its deletion.
  unfoldable pub change_own : ℕ → ℕ → (C → C) → List C → List C
  change_own tenant id f = map (λ c. if is_own tenant id c then f c else c)

  unfoldable pub delete_own : ℕ → ℕ → List C → List C
  delete_own tenant id = keep (λ c. not (is_own tenant id c))

  unfoldable pub list_own : ℕ → List C → List C
  list_own tenant = keep (is_of_tenant tenant)

  unfoldable pub add : C → List C → List C
  add c table = table ++ (c ∷ [])
