-- ===== src/Remediation/Execute/Stages.antt =====
-- What each stage of an execution calls in the cloud, and where it leaves the request.
use cloud_sentinel_ai.Base.{ℕ, Option, none, some, ◌∷◌, ◌≡◌, ◌⊎◌, arith, refl, if_both}
use cloud_sentinel_ai.Base.Text.{Text}
use cloud_sentinel_ai.Remediation.{
  executing, completed, failed, RemediationRequest, RemediationAction, CloudCall, Response,
  accepted, refused, Log, Env, cloud_calls,
}
use cloud_sentinel_ai.Remediation.Actions.{call, execute_action, snapshot_name}
use cloud_sentinel_ai.Remediation.Execute.{finish, act, after_backup, perform}

-- A request ends completed, with its time of execution, or failed, with its time as it was.
abbrev pub Ended : Env → RemediationRequest → RemediationRequest → Type 0
Ended env r s =
    (s.id ≡ r.id)
    × (s.tenant_id ≡ r.tenant_id)
    × (s.confidence_score ≡ r.confidence_score)
    × (s.reviewed_by_user_id ≡ r.reviewed_by_user_id)
    × (((s.status ≡ completed) × (s.executed_at ≡ some env.executed_at))
        ⊎ ((s.status ≡ failed) × (s.executed_at ≡ r.executed_at)))

finish-Ended :
    (env : Env) (r : RemediationRequest) (a : Response × Log) → Ended env r (finish env r a).0
unfolding finish
finish-Ended env r (accepted id, log) = ground arith
finish-Ended env r (refused e, log) = ground arith

act-Ended : (env : Env) (r : RemediationRequest) (log : Log) → Ended env r (act env r log).0
unfolding act
act-Ended env r log = finish-Ended env r _

after_backup-Ended :
    (env : Env) (r : RemediationRequest) (b : Option Response × Log)
    → Ended env r (after_backup env r b).0
unfolding after_backup
after_backup-Ended env r (none, log) = act-Ended env r _
after_backup-Ended env r (some (accepted id), log) =
    act-Ended env (record r { backup_resource_id = some id }) _
after_backup-Ended env r (some (refused e), log) = ground arith

pub perform-Ended :
    (env : Env) (r : RemediationRequest) (log : Log) → Ended env r (perform env r log).0
unfolding perform
perform-Ended env r log =
    if_both (λ (s : RemediationRequest × Log). Ended env r s.0) r.create_backup
      (after_backup-Ended env (record r { status = executing }) _)
      (act-Ended env (record r { status = executing }) _)

-- The deletion that an action with a backup stands for.
abbrev pub deletion_of : RemediationAction → Text → Option CloudCall
deletion_of RemediationAction.delete_volume r = some (CloudCall.delete_volume r)
deletion_of RemediationAction.delete_rds_instance r = some (CloudCall.delete_db_instance r)
deletion_of RemediationAction.delete_redshift_cluster r = some (CloudCall.delete_cluster r)
deletion_of _ r = none

-- The snapshot that has to stand before it.
abbrev pub snapshot_of : Env → RemediationAction → Text → ℕ → Option CloudCall
snapshot_of env RemediationAction.delete_volume r n = some (CloudCall.create_snapshot r n)
snapshot_of env RemediationAction.delete_rds_instance r n =
    some (CloudCall.create_db_snapshot (snapshot_name env r) r n)
snapshot_of env RemediationAction.delete_redshift_cluster r n =
    some (CloudCall.create_cluster_snapshot (snapshot_name env r) r n)
snapshot_of env _ r n = none

pub cloud_calls-finish :
    (env : Env) (r : RemediationRequest) (a : Response × Log)
    → cloud_calls (finish env r a).1 ≡ cloud_calls a.1
unfolding finish
cloud_calls-finish env r (accepted id, log) = refl
cloud_calls-finish env r (refused e, log) = refl

-- One of the three deletions is one call, made after what is already in the log.
pub cloud_calls-act :
    (env : Env) (action : RemediationAction) (r : Text) (log : Log) {deletion : CloudCall}
    → deletion_of action r ≡ some deletion
    → cloud_calls (execute_action env action r log).1 ≡ deletion ∷ cloud_calls log
unfolding execute_action call
cloud_calls-act env RemediationAction.delete_volume r log e = cc
cloud_calls-act env RemediationAction.delete_rds_instance r log e = cc
cloud_calls-act env RemediationAction.delete_redshift_cluster r log e = cc
cloud_calls-act env _ r log e = cc
