-- ===== src/AuditLog.antt =====
-- The masking of an audit entry's details (`AuditLogger._mask_sensitive` of
-- app/modules/governance/domain/security/audit_log.py); Entries has the entries themselves. `lower` is
-- Python's `str.lower`.
use cloud_sentinel_ai.Base.{ℕ, Bool, true, false, List, [], ◌∷◌, ◌==◌, ◌&&◌, ◌||◌, if◌then◌else◌}
use cloud_sentinel_ai.Base.Text.{Text, codes, is_in}
pub mod Masked
pub mod Entries
pub mod Stored
mod Samples

-- The values of the details; an item that is no text, list or dictionary is a number.
mutual
  pub data Json : Type 0 where
    scalar : ℕ → Json
    text : Text → Json
    list : Items → Json
    dict : Fields → Json

  pub data Items : Type 0 where
    nil : Items
    cons : Json → Items → Items

  pub data Fields : Type 0 where
    end : Fields
    field : Text → Json → Fields → Fields

abbrev pub sensitive_fields : List Text
sensitive_fields =
    codes "password"
    ∷ codes "token"
    ∷ codes "secret"
    ∷ codes "api_key"
    ∷ codes "access_key"
    ∷ codes "external_id"
    ∷ codes "session_token"
    ∷ codes "credit_card"
    ∷ []

abbrev pub any_in : List Text → Text → Bool
any_in [] key = false
any_in (s ∷ ss) key = is_in s key || any_in ss key

unfoldable pub is_sensitive : (Text → Text) → Text → Bool
is_sensitive lower key = any_in sensitive_fields (lower key)

abbrev pub redacted : Json
redacted = text (codes "***REDACTED***")

-- A value that is neither a list nor a dictionary is left as it is.
unfoldable mutual
  pub mask : (Text → Bool) → Json → Json
  mask secret (scalar n) = scalar n
  mask secret (text t) = text t
  mask secret (list xs) = list (mask_items secret xs)
  mask secret (dict fs) = dict (mask_fields secret fs)

  pub mask_items : (Text → Bool) → Items → Items
  mask_items secret nil = nil
  mask_items secret (cons x xs) = cons (mask secret x) (mask_items secret xs)

  pub mask_fields : (Text → Bool) → Fields → Fields
  mask_fields secret end = end
  mask_fields secret (field key value rest) =
      let inner = mask secret value in
      field key (if secret key then redacted else inner) (mask_fields secret rest)

unfoldable pub mask_sensitive : (Text → Text) → Json → Json
mask_sensitive lower j = mask (is_sensitive lower) j
