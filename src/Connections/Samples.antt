-- ===== src/Connections/Samples.antt =====
-- Two tenants, one of them on the starter plan.
use cloud_sentinel_ai.Base.{ℕ, ◌*◌, ◌≡◌, ◌≢◌, refl, true, none, some, List, [], ◌∷◌, arith, several}
use cloud_sentinel_ai.Tiers.{growth, starter}
use cloud_sentinel_ai.Connections.{
  Database, AwsConnection, AzureConnection, pending, discovered, find_own, find_account, add,
  change_own, aws_columns, azure_columns, gcp_columns,
}
use cloud_sentinel_ai.Connections.Services.{
  failed, conflict, authentic, rejected, Member, verify_aws, verify_azure, sync_accounts,
  record_members, find_discovered,
}
use cloud_sentinel_ai.Connections.Routes.{
  Defaults, admin, member, has_role, create_aws_connection, sync_aws_org, link_discovered_account,
}
use cloud_sentinel_ai.Connections.Calls.{
  Call, call, calls, creates_aws, creates_azure, verifies_aws, verifies_azure, syncs, links,
}
use cloud_sentinel_ai.Connections.Unique.{AllUnique, accounts_are_unique}

abbrev empty : Database
empty = record {
  plans = (1, some growth) ∷ (2, some starter) ∷ [];
  aws = [];
  azure = [];
  gcp = [];
  discovered_accounts = [];
}

abbrev body : AwsConnection
body = record {
  id = 0;
  tenant_id = 0;
  aws_account_id = 500;
  role_arn = 70;
  external_id = 71;
  region = 72;
  is_management_account = true;
  organization_id = none;
  status = pending;
}

abbrev azure_body : AzureConnection
azure_body = record {
  id = 0;
  tenant_id = 0;
  name = 80;
  azure_tenant_id = 81;
  client_id = 82;
  subscription_id = 83;
  client_secret = none;
  is_active = true;
}

abbrev defaults : Defaults
defaults = record { us_east_1 = 72; role_arn_of = λ account. account * 10 }

abbrev member_600 : Member
member_600 = record { account = 600; name = 90; email = 91; new_id = 13 }

-- Tenant 1 connects, verifies and discovers, and links what it found.
abbrev story : List (ℕ × Call)
story =
    (1, creates_aws 10 body)
    ∷ (1, verifies_aws 10 authentic)
    ∷ (1, syncs 10 (some (member_600 ∷ [])))
    ∷ (1, links 13 14 defaults)
    ∷ []

linked_account :
    (call 1 (creates_aws 15 (record body { aws_account_id = 600 })) (calls story empty)).0
    ≡ conflict
unfolding call calls create_aws_connection find_account find_own verify_aws sync_aws_org
    sync_accounts record_members find_discovered link_discovered_account add change_own
linked_account = refl

-- A rejected verification of Azure fails, and leaves the connection in use.
still_active :
    (verify_azure 1 20 rejected
      (record empty { azure = record azure_body { id = 20; tenant_id = 1 } ∷ [] })).0
    ≡ failed
unfolding verify_azure find_own
still_active = refl

accounts_are_unique_example :
    let db' = calls story empty in
    AllUnique db'
    × (find_account 1 600 db'.aws ≢ several)
    × (find_account 1 600 db'.azure ≢ several)
    × (find_account 1 600 db'.gcp ≢ several)
accounts_are_unique_example =
    accounts_are_unique story empty 1 600
      (λ i a. omega arith, λ i a. omega arith, λ i a. omega arith)

abbrev unproven : List (ℕ × Call)
unproven =
    (1, creates_aws 10 body)
    ∷ (1, verifies_aws 10 rejected)
    ∷ (1, creates_azure 20 azure_body)
    ∷ (1, verifies_azure 20 rejected)
    ∷ []

-- Tenant 1 has discovered account 600 by its connection 10; tenant 2 has connection 11.
abbrev both : Database
both = record empty {
  aws =
      record body { id = 10; tenant_id = 1 }
      ∷ record body { id = 11; tenant_id = 2; aws_account_id = 501 }
      ∷ [];
  discovered_accounts =
      record {
        id = 13;
        management_connection_id = 10;
        account_id = 600;
        name = 90;
        email = 91;
        status = discovered;
      }
      ∷ [];
}

admins_are_members : has_role member admin ≡ true
unfolding has_role
admins_are_members = refl
