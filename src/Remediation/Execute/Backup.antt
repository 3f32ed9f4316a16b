-- ===== src/Remediation/Execute/Backup.antt =====
-- A resource that is deleted with a backup is deleted only after its snapshot was accepted.
use cloud_sentinel_ai.Base.{
  ℕ, true, Option, some, ◌∷◌, ◌≡◌, ◌⊎◌, inl, inr, arith, refl, if_each, is_some, ◌∙◌, ap,
}
use cloud_sentinel_ai.Base.Text.{Text}
use cloud_sentinel_ai.Remediation.{
  executing, failed, RemediationRequest, RemediationAction, CloudCall, Response, accepted, refused,
  called, Log, Env, cloud_calls,
}
use cloud_sentinel_ai.Remediation.Actions.{
  call, back_up, execute_action, create_volume_backup, create_rds_backup, create_redshift_backup,
  snapshot_name,
}
use cloud_sentinel_ai.Remediation.Execute.{finish, act, after_backup, perform, started}
use cloud_sentinel_ai.Remediation.Execute.Stages.{
  deletion_of, snapshot_of, cloud_calls-finish, cloud_calls-act,
}

Response-cases : (a : Response) → ((id : Text) × (a ≡ accepted id)) ⊎ ((e : Text) × (a ≡ refused e))
Response-cases (accepted id) = inl (id, refl)
Response-cases (refused e) = inr (e, refl)

-- What `back_up` does where there is a snapshot to take.
abbrev Backed : Env → Log → CloudCall → Option Response × Log → Type 0
Backed env log c b =
    ((id : Text) × (name : Text) × (env.aws log c ≡ accepted id)
      × (b ≡ (some (accepted name), called c ∷ log)))
    ⊎ ((e : Text) × (env.aws log c ≡ refused e) × (b ≡ (some (refused e), called c ∷ log)))

back_up-Backed :
    (env : Env) (action : RemediationAction) (r : Text) (n : ℕ) (log : Log) {c : CloudCall}
    → snapshot_of env action r n ≡ some c
    → Backed env log c (back_up env action r n log)
unfolding back_up create_volume_backup create_rds_backup create_redshift_backup call
back_up-Backed env RemediationAction.delete_volume r n log {c} h =
    elim (Response-cases (env.aws log c)) [
      | inl (id, e) ↦ inl (id, id, e, ground arith)
      | inr (m, e) ↦ inr (m, e, ground arith)
    ]
back_up-Backed env RemediationAction.delete_rds_instance r n log {c} h =
    elim (Response-cases (env.aws log c)) [
      | inl (id, e) ↦ inl (id, snapshot_name env r, e, ground arith)
      | inr (m, e) ↦ inr (m, e, ground arith)
    ]
back_up-Backed env RemediationAction.delete_redshift_cluster r n log {c} h =
    elim (Response-cases (env.aws log c)) [
      | inl (id, e) ↦ inl (id, snapshot_name env r, e, ground arith)
      | inr (m, e) ↦ inr (m, e, ground arith)
    ]
back_up-Backed env _ r n log h = cc

-- How an execution with a backup went, from the log before it: the snapshot `c` was accepted and
-- the deletion `d` followed it, or the snapshot was refused, nothing followed, and the request
-- failed.
abbrev pub BackedUpFirst :
    Env → Log → Log → CloudCall → CloudCall → RemediationRequest × Log → Type 0
BackedUpFirst env before at d c (s, after) =
    ((id : Text) × (env.aws at c ≡ accepted id)
      × (cloud_calls after ≡ d ∷ c ∷ cloud_calls before)
      × (is_some s.backup_resource_id ≡ true))
    ⊎ ((e : Text) × (env.aws at c ≡ refused e)
        × (cloud_calls after ≡ c ∷ cloud_calls before)
        × (s.status ≡ failed))

finish_backup_id :
    (env : Env) (r : RemediationRequest) (a : Response × Log)
    → (finish env r a).0.backup_resource_id ≡ r.backup_resource_id
unfolding finish
finish_backup_id env r (accepted id, log) = refl
finish_backup_id env r (refused e, log) = refl

act_backed :
    (env : Env) (r : RemediationRequest) (name : Text) (log : Log) {d : CloudCall}
    → deletion_of r.action r.resource_id ≡ some d
    → let s = act env (record r { backup_resource_id = some name }) log in
      (cloud_calls s.1 ≡ d ∷ cloud_calls log) × (is_some s.0.backup_resource_id ≡ true)
unfolding act
act_backed env r name log h =
    let r' = record r { backup_resource_id = some name } in
    let a = execute_action env r.action r.resource_id log in
    (
      cloud_calls-finish env r' a ∙ cloud_calls-act env r.action r.resource_id log h,
      ap is_some (finish_backup_id env r' a),
    )

after_backup-BackedUpFirst :
    (env : Env) (r : RemediationRequest) (log : Log) {c d : CloudCall} (b : Option Response × Log)
    → deletion_of r.action r.resource_id ≡ some d
    → Backed env log c b
    → BackedUpFirst env log log d c (after_backup env r b)
unfolding after_backup
after_backup-BackedUpFirst env r log b h (inl (id, name, e, p)) =
    rw p (inl (let (calls, made) = act_backed env r name _ h in (id, e, calls, made)))
after_backup-BackedUpFirst env r log b h (inr (m, e, p)) = rw p (inr (m, e, refl, refl))

-- When a request that asks for a backup deletes a volume, a database instance or a Redshift
-- cluster, the execution makes exactly two calls of the cloud, the snapshot and then the deletion,
-- and only if the snapshot was accepted, with a backup identifier on the request; if
-- the snapshot was refused that is the only call and the request has failed.
pub backup_precedes_deletion :
    (env : Env) (r : RemediationRequest) (log : Log) {c d : CloudCall}
    → r.create_backup ≡ true
    → deletion_of r.action r.resource_id ≡ some d
    → snapshot_of env r.action r.resource_id r.backup_retention_days ≡ some c
    → BackedUpFirst env log (started r log) d c (perform env r log)
unfolding perform
backup_precedes_deletion env r log {c} {d} wanted h k =
    if_each (BackedUpFirst env log (started r log) d c) r.create_backup
      (λ _.
        after_backup-BackedUpFirst env (record r { status = executing }) (started r log) _ h
          (back_up-Backed env r.action r.resource_id r.backup_retention_days (started r log) k))
      (λ unwanted. cc)
