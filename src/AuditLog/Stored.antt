-- ===== src/AuditLog/Stored.antt =====
-- What the audit log ever gives out.
use cloud_sentinel_ai.Base.{
  ℕ, Instant, ◌≡◌, true, not, Option, none, some, List, [], ◌∷◌, All, All-append, All-keep,
  All-keep_test, keep, scalar_one_or_none, if_both, arith,
}
use cloud_sentinel_ai.Base.Text.{Text}
use cloud_sentinel_ai.AuditLog.{Json, dict, Fields, end, field, is_sensitive}
use cloud_sentinel_ai.AuditLog.Masked.{IsMasked, mask_sensitive_lem}
use cloud_sentinel_ai.AuditLog.Entries.{
  AuditEntry, LogArguments, AuditLogger, masked_details, log, Detail, detail, is_entry, detail_of,
  get_audit_log_detail,
}
use cloud_sentinel_ai.Connections.Routes.{UserRole, admin, has_role}

-- A call of `log`, with its logger, the new identifier and the time.
pub record Logged : Type 0 where
  pub logger : AuditLogger
  pub id : ℕ
  pub now : Instant
  pub arguments : LogArguments

module _ (lower : Text → Text) where
  unfoldable pub after_logs : List Logged → List AuditEntry → List AuditEntry
  after_logs [] entries = entries
  after_logs (c ∷ cs) entries = after_logs cs (log lower c.logger c.id c.now c.arguments entries)

  abbrev pub IsMaskedDetails : Option Json → Type 0
  IsMaskedDetails none = Unit
  IsMaskedDetails (some j) = IsMasked (is_sensitive lower) j

  masked_details-IsMaskedDetails :
      (details : Option Fields) → IsMaskedDetails (masked_details lower details)
  unfolding masked_details
  masked_details-IsMaskedDetails none = tt
  masked_details-IsMaskedDetails (some end) = tt
  masked_details-IsMaskedDetails (some (field key value rest)) =
      (mask_sensitive_lem lower (dict (field key value rest))).0

  abbrev pub IsStored : List AuditEntry → Type 0
  IsStored = All (λ e. IsMaskedDetails e.details)

  after_logs-IsStored :
      (cs : List Logged) (entries : List AuditEntry)
      → IsStored entries
      → IsStored (after_logs cs entries)
  unfolding after_logs log
  after_logs-IsStored [] entries h = h
  after_logs-IsStored (c ∷ cs) entries h = after_logs-IsStored cs _ (
      All-append (λ e. IsMaskedDetails e.details) entries _ h
        (masked_details-IsMaskedDetails c.arguments.details, tt))

  -- An entry of the tenant with the identifier, whose details are masked; or no entry.
  abbrev pub IsShown : ℕ → ℕ → Detail → Type 0
  IsShown tenant id (detail e) = (e.id ≡ id) × (e.tenant_id ≡ tenant) × IsMaskedDetails e.details
  IsShown tenant id _ = Unit

  own_entry :
      (tenant id : ℕ) (e : AuditEntry)
      → is_entry id tenant e ≡ true
      → (e.id ≡ id) × (e.tenant_id ≡ tenant)
  own_entry tenant id e h = (ground (arith, h), ground (arith, h))

  detail_of-IsShown :
      (tenant id : ℕ) (rows : List AuditEntry)
      → All (λ e. is_entry id tenant e ≡ true) rows
      → IsStored rows
      → IsShown tenant id (detail_of (scalar_one_or_none rows))
  detail_of-IsShown tenant id [] h k = tt
  detail_of-IsShown tenant id (e ∷ []) h k =
      let own = own_entry tenant id e h.0 in (own.0, own.1, k.0)
  detail_of-IsShown tenant id (e ∷ f ∷ rows) h k = tt

  -- After any calls of any loggers, a reader of any role that asks for an entry is given only one of
  -- its own tenant with that identifier, and only with masked details: at every depth, the value of
  -- each field with a sensitive key is redacted.
  pub only_masked_details :
      (cs : List Logged) (role : UserRole) (tenant id : ℕ)
      → IsShown tenant id (get_audit_log_detail role tenant id (after_logs cs []))
  unfolding get_audit_log_detail
  only_masked_details cs role tenant id =
      let entries = after_logs cs [] in
      if_both (IsShown tenant id) (not (has_role admin role)) tt (
        detail_of-IsShown tenant id (keep (is_entry id tenant) entries)
          (All-keep_test (is_entry id tenant) entries)
          (All-keep (λ e. IsMaskedDetails e.details) (is_entry id tenant) entries
            (after_logs-IsStored cs [] tt)))
