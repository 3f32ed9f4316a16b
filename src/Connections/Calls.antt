-- ===== src/Connections/Calls.antt =====
-- The calls of the endpoints that change the database, one after the other.
use cloud_sentinel_ai.Base.{ℕ, Bool, true, false, Option, List, [], ◌∷◌}
use cloud_sentinel_ai.Connections.{Database, AwsConnection, AzureConnection, GcpConnection}
use cloud_sentinel_ai.Connections.Services.{Response, Verification, authentic, verify_aws, Member}
use cloud_sentinel_ai.Connections.Routes.{
  Defaults, create_aws_connection, delete_aws_connection, sync_aws_org, link_discovered_account,
  create_azure_connection, verify_azure_connection, delete_azure_connection, create_gcp_connection,
  verify_gcp_connection, delete_gcp_connection,
}

pub data Call : Type 0 where
  creates_aws : ℕ → AwsConnection → Call
  creates_azure : ℕ → AzureConnection → Call
  creates_gcp : ℕ → GcpConnection → Call
  verifies_aws verifies_azure verifies_gcp : ℕ → Verification → Call
  deletes_aws deletes_azure deletes_gcp : ℕ → Call
  syncs : ℕ → Option (List Member) → Call
  links : ℕ → ℕ → Defaults → Call

unfoldable pub call : ℕ → Call → Database → Response × Database
call tenant (creates_aws id body) = create_aws_connection tenant id body
call tenant (creates_azure id body) = create_azure_connection tenant id body
call tenant (creates_gcp id body) = create_gcp_connection tenant id body
call tenant (verifies_aws id v) = verify_aws tenant id v
call tenant (verifies_azure id v) = verify_azure_connection tenant id v
call tenant (verifies_gcp id v) = verify_gcp_connection tenant id v
call tenant (deletes_aws id) = delete_aws_connection tenant id
call tenant (deletes_azure id) = delete_azure_connection tenant id
call tenant (deletes_gcp id) = delete_gcp_connection tenant id
call tenant (syncs id members) = sync_aws_org tenant id members
call tenant (links id new_id given) = link_discovered_account tenant id new_id given

unfoldable pub calls : List (ℕ × Call) → Database → Database
unfolding call
calls [] db = db
calls ((tenant, c) ∷ cs) db = calls cs (call tenant c db).1

abbrev is_authentic : Verification → Bool
is_authentic authentic = true
is_authentic _ = false

-- Whether the cloud accepts the credentials in a call.
abbrev pub authenticates : Call → Bool
authenticates (verifies_aws _ v) = is_authentic v
authenticates (verifies_azure _ v) = is_authentic v
authenticates (verifies_gcp _ v) = is_authentic v
authenticates _ = false

-- The calls that a plan of growth or above is asked for.
abbrev pub needs_growth : Call → Bool
needs_growth (creates_azure _ _) = true
needs_growth (creates_gcp _ _) = true
needs_growth (verifies_azure _ _) = true
needs_growth (verifies_gcp _ _) = true
needs_growth _ = false
