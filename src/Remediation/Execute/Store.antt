-- ===== src/Remediation/Execute/Store.antt =====
-- Finding a request after one was saved.
use cloud_sentinel_ai.Base.{ℕ, some, List, [], ◌∷◌, ◌≡◌, ◌≢◌, ◌⊎◌, arith, refl}
use cloud_sentinel_ai.Remediation.{RemediationRequest}
use cloud_sentinel_ai.Remediation.Execute.{find, save}

-- A found request has the identifier and the tenant that were asked for.
pub find_sound :
    (id tenant : ℕ) (requests : List RemediationRequest) {r : RemediationRequest}
    → find id tenant requests ≡ some r
    → (r.id ≡ id) × (r.tenant_id ≡ tenant)
find_sound id tenant [] h = cc
find_sound id tenant (x ∷ rest) {r} h = ground (arith, find_sound id tenant rest {r = r})

pub find-save_self :
    (id tenant : ℕ) (s : RemediationRequest) (requests : List RemediationRequest)
    {r : RemediationRequest}
    → s.id ≡ id
    → s.tenant_id ≡ tenant
    → find id tenant requests ≡ some r
    → find id tenant (save s requests) ≡ some s
find-save_self id tenant s [] i t h = cc
find-save_self id tenant s (x ∷ rest) {r} i t h =
    ground (arith, find-save_self id tenant s rest {r = r})

pub find-save_other :
    (s : RemediationRequest) (requests : List RemediationRequest) (id tenant : ℕ)
    → (s.id ≢ id) ⊎ (s.tenant_id ≢ tenant)
    → find id tenant (save s requests) ≡ find id tenant requests
find-save_other s [] id tenant h = refl
find-save_other s (x ∷ rest) id tenant h = ground (arith, find-save_other s rest id tenant h)
