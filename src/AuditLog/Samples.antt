-- ===== src/AuditLog/Samples.antt =====
-- Details with a secret in a list.
use cloud_sentinel_ai.Base.{◌≡◌, refl, true, none, some, [], ◌∷◌}
use cloud_sentinel_ai.Base.Text.{Text, codes}
use cloud_sentinel_ai.AuditLog.{
  Json, scalar, text, list, dict, nil, cons, end, field, redacted, is_sensitive, mask,
  mask_sensitive,
}
use cloud_sentinel_ai.AuditLog.Entries.{get_audit_log_detail}
use cloud_sentinel_ai.AuditLog.Stored.{Logged, after_logs, IsShown, only_masked_details}
use cloud_sentinel_ai.Connections.Routes.{admin}

abbrev same : Text → Text
same t = t

abbrev details : Json
details = dict (
    field (codes "retries") (scalar 3) (
      field (codes "accounts")
        (list (cons (dict (field (codes "my_token") (text (codes "abc")) end)) nil)) end))

secrets_are_masked :
    mask_sensitive same details
    ≡ dict (
        field (codes "retries") (scalar 3) (
          field
            (codes "accounts")
            (list (cons (dict (field (codes "my_token") redacted end)) nil))
            end))
unfolding mask_sensitive is_sensitive codes mask
secrets_are_masked = refl

abbrev logged : Logged
logged = record {
  logger = record { tenant_id = 7; correlation_id = 1 };
  id = 5;
  now = 600;
  arguments = record {
    event_type = 2;
    actor_id = some 3;
    actor_email = none;
    actor_ip = none;
    resource_type = none;
    resource_id = none;
    details = some (field (codes "my_token") (text (codes "abc")) end);
    success = true;
    error_message = none;
    request_method = none;
    request_path = none;
  };
}

only_masked_details_example :
    IsShown same 7 5 (get_audit_log_detail admin 7 5 (after_logs same (logged ∷ []) []))
only_masked_details_example = only_masked_details same (logged ∷ []) admin 7 5
