-- ===== src/Connections/Services.antt =====
-- The verification of connections and the discovery of accounts (aws.py, azure.py, gcp.py and
-- organizations.py of app/shared/connections). What the cloud answers is given.
use cloud_sentinel_ai.Base.{
  ℕ, Bool, true, Option, none, some, List, [], ◌∷◌, ◌++◌, ◌==◌, if◌then◌else◌, map, keep, length,
  Found, nothing, one, several, scalar_one_or_none,
}
use cloud_sentinel_ai.Connections.{
  Database, AwsConnection, AzureConnection, GcpConnection, DiscoveredAccount, discovered, active,
  error, find_own, change_own, aws_columns, azure_columns, gcp_columns,
}

-- The end of an adapter's `verify_connection`.
pub data Verification : Type 0 where
  authentic rejected adapter_error unexpected : Verification

pub data Response : Type 0 where
  created removed linked_to : ℕ → Response
  success failed error_reported already_linked : Response
  discovered_count : ℕ → Response
  conflict forbidden not_found server_error : Response

abbrev pub aws_outcome : ℕ → ℕ → Verification → Found AwsConnection → Database → Response × Database
aws_outcome tenant id v nothing db = (not_found, db)
aws_outcome tenant id v several db = (server_error, db)
aws_outcome tenant id authentic (one c) db =
    (success, record db { aws = change_own tenant id (λ c. record c { status = active }) db.aws })
aws_outcome tenant id rejected (one c) db =
    (failed, record db { aws = change_own tenant id (λ c. record c { status = error }) db.aws })
aws_outcome tenant id adapter_error (one c) db = (
  error_reported,
  record db { aws = change_own tenant id (λ c. record c { status = error }) db.aws },
)
aws_outcome tenant id unexpected (one c) db = (error_reported, db)

unfoldable pub verify_aws : ℕ → ℕ → Verification → Database → Response × Database
verify_aws tenant id v db = aws_outcome tenant id v (find_own tenant id db.aws) db

abbrev pub azure_outcome :
    ℕ → ℕ → Verification → Found AzureConnection → Database → Response × Database
azure_outcome tenant id v nothing db = (not_found, db)
azure_outcome tenant id v several db = (server_error, db)
azure_outcome tenant id authentic (one c) db = (
  success,
  record db { azure = change_own tenant id (λ c. record c { is_active = true }) db.azure },
)
azure_outcome tenant id rejected (one c) db = (failed, db)
azure_outcome tenant id adapter_error (one c) db = (server_error, db)
azure_outcome tenant id unexpected (one c) db = (server_error, db)

unfoldable pub verify_azure : ℕ → ℕ → Verification → Database → Response × Database
verify_azure tenant id v db = azure_outcome tenant id v (find_own tenant id db.azure) db

abbrev pub gcp_outcome : ℕ → ℕ → Verification → Found GcpConnection → Database → Response × Database
gcp_outcome tenant id v nothing db = (not_found, db)
gcp_outcome tenant id v several db = (server_error, db)
gcp_outcome tenant id authentic (one c) db =
    (success, record db { gcp = change_own tenant id (λ c. record c { is_active = true }) db.gcp })
gcp_outcome tenant id rejected (one c) db = (failed, db)
gcp_outcome tenant id adapter_error (one c) db = (server_error, db)
gcp_outcome tenant id unexpected (one c) db = (server_error, db)

unfoldable pub verify_gcp : ℕ → ℕ → Verification → Database → Response × Database
verify_gcp tenant id v db = gcp_outcome tenant id v (find_own tenant id db.gcp) db

-- A member account as AWS Organizations lists it, with the identifier that a new row would get.
pub record Member : Type 0 where
  pub account : ℕ
  pub name : ℕ
  pub email : ℕ
  pub new_id : ℕ

abbrev pub is_account : ℕ → DiscoveredAccount → Bool
is_account account d = d.account_id == account

-- The query for an account that is known does not look at who discovered it.
unfoldable pub find_discovered : ℕ → List DiscoveredAccount → Found DiscoveredAccount
find_discovered account table = scalar_one_or_none (keep (is_account account) table)

abbrev pub refresh : Member → DiscoveredAccount → DiscoveredAccount
refresh m d = if is_account m.account d then record d { name = m.name; email = m.email } else d

abbrev pub new_discovered : AwsConnection → Member → DiscoveredAccount
new_discovered c m = record {
  id = m.new_id;
  management_connection_id = c.id;
  account_id = m.account;
  name = m.name;
  email = m.email;
  status = discovered;
}

abbrev pub record_member :
    AwsConnection
    → Member
    → Found DiscoveredAccount
    → List DiscoveredAccount
    → Option (List DiscoveredAccount)
record_member c m nothing table = some (table ++ (new_discovered c m ∷ []))
record_member c m (one d) table = some (map (refresh m) table)
record_member c m several table = none

abbrev pub after_member :
    AwsConnection → Member → List DiscoveredAccount → Option (List DiscoveredAccount)
after_member c m table =
    if m.account == c.aws_account_id
    then some table
    else record_member c m (find_discovered m.account table) table

-- The loop over all pages; `none` if a query raises.
unfoldable pub record_members :
    AwsConnection → List Member → List DiscoveredAccount → Option (List DiscoveredAccount)
record_members c [] table = some table
record_members c (m ∷ ms) table = elim (after_member c m table) [
  | none ↦ none
  | some table' ↦ record_members c ms table'
]

abbrev pub synced : Option (List DiscoveredAccount) → ℕ → Database → ℕ × Database
synced none count db = (0, db)
synced (some table) count db = (count, record db { discovered_accounts = table })

-- `none` for the members if a call to AWS raises. Nothing is committed then, and the count is 0.
unfoldable pub sync_accounts : AwsConnection → Option (List Member) → Database → ℕ × Database
sync_accounts c none db = (0, db)
sync_accounts c (some members) db =
    if c.is_management_account
    then synced (record_members c members db.discovered_accounts) (length members) db
    else (0, db)
