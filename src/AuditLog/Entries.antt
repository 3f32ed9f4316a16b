-- ===== src/AuditLog/Entries.antt =====
-- The entries of the audit log: how they are written (`AuditLogger.log`) and read one by one
-- (`get_audit_log_detail` of app/modules/governance/api/v1/audit.py). Texts that are only stored are
-- numbers.
use cloud_sentinel_ai.Base.{
  ℕ, Instant, Bool, not, ◌&&◌, Option, none, some, List, [], ◌∷◌, ◌++◌, ◌==◌, if◌then◌else◌, keep,
  Found, nothing, one, several, scalar_one_or_none,
}
use cloud_sentinel_ai.Base.Text.{Text}
use cloud_sentinel_ai.AuditLog.{Json, dict, Fields, end, field, mask_sensitive}
use cloud_sentinel_ai.Connections.Routes.{UserRole, admin, has_role}

-- `AuditLog`
pub record AuditEntry : Type 0 where
  pub id : ℕ
  pub tenant_id : ℕ
  pub event_type : ℕ
  pub event_timestamp : Instant
  pub actor_id : Option ℕ
  pub actor_email : Option ℕ
  pub actor_ip : Option ℕ
  pub correlation_id : ℕ
  pub request_method : Option ℕ
  pub request_path : Option ℕ
  pub resource_type : Option ℕ
  pub resource_id : Option ℕ
  pub details : Option Json
  pub success : Bool
  pub error_message : Option ℕ

-- The arguments of `log`; the details are a dictionary.
pub record LogArguments : Type 0 where
  pub event_type : ℕ
  pub actor_id : Option ℕ
  pub actor_email : Option ℕ
  pub actor_ip : Option ℕ
  pub resource_type : Option ℕ
  pub resource_id : Option ℕ
  pub details : Option Fields
  pub success : Bool
  pub error_message : Option ℕ
  pub request_method : Option ℕ
  pub request_path : Option ℕ

pub record AuditLogger : Type 0 where
  pub tenant_id : ℕ
  pub correlation_id : ℕ

-- `self._mask_sensitive(details) if details else None`: an empty dictionary is stored as none.
unfoldable pub masked_details : (Text → Text) → Option Fields → Option Json
masked_details lower none = none
masked_details lower (some end) = none
masked_details lower (some (field key value rest)) =
    some (mask_sensitive lower (dict (field key value rest)))

-- The entry gets a new identifier and the time of the call.
abbrev pub new_entry : (Text → Text) → AuditLogger → ℕ → Instant → LogArguments → AuditEntry
new_entry lower logger id now a = record {
  id = id;
  tenant_id = logger.tenant_id;
  event_type = a.event_type;
  event_timestamp = now;
  actor_id = a.actor_id;
  actor_email = a.actor_email;
  actor_ip = a.actor_ip;
  correlation_id = logger.correlation_id;
  request_method = a.request_method;
  request_path = a.request_path;
  resource_type = a.resource_type;
  resource_id = a.resource_id;
  details = masked_details lower a.details;
  success = a.success;
  error_message = a.error_message;
}

unfoldable pub log :
    (Text → Text) → AuditLogger → ℕ → Instant → LogArguments → List AuditEntry → List AuditEntry
log lower logger id now a entries = entries ++ (new_entry lower logger id now a ∷ [])

pub data Detail : Type 0 where
  detail : AuditEntry → Detail
  forbidden not_found failed : Detail

abbrev pub is_entry : ℕ → ℕ → AuditEntry → Bool
is_entry id tenant e = e.id == id && e.tenant_id == tenant

abbrev pub detail_of : Found AuditEntry → Detail
detail_of nothing = not_found
detail_of (one e) = detail e
detail_of several = failed

unfoldable pub get_audit_log_detail : UserRole → ℕ → ℕ → List AuditEntry → Detail
get_audit_log_detail role tenant id entries =
    if not (has_role admin role)
    then forbidden
    else detail_of (scalar_one_or_none (keep (is_entry id tenant) entries))
