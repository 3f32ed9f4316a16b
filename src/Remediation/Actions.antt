-- ===== src/Remediation/Actions.antt =====
-- The calls of the cloud that back a resource up and that act on it: `_create_*_backup` and
-- `_execute_action` of `RemediationService`. The client is `env.aws`; failing to build it counts
-- as a refusal of the call.
use cloud_sentinel_ai.Base.{ℕ, Option, none, some, List, [], ◌∷◌, ◌++◌}
use cloud_sentinel_ai.Base.Text.{Text, codes, split}
use cloud_sentinel_ai.Remediation.{
  RemediationAction, CloudCall, Response, accepted, refused, called, Log, Env,
}

unfoldable pub call : Env → CloudCall → Log → Response × Log
call env c log = (env.aws log c, called c ∷ log)

-- `valdrix-backup-<resource>-<time>`
unfoldable pub snapshot_name : Env → Text → Text
snapshot_name env resource = codes "valdrix-backup-" ++ (resource ++ (codes "-" ++ env.timestamp))

-- A snapshot named by the caller answers with that name.
named : Text → Response × Log → Response × Log
named name (accepted _, log) = (accepted name, log)
named name (refused e, log) = (refused e, log)

unfoldable pub create_volume_backup : Env → Text → ℕ → Log → Response × Log
create_volume_backup env volume retention = call env (CloudCall.create_snapshot volume retention)

unfoldable pub create_rds_backup : Env → Text → ℕ → Log → Response × Log
unfolding named snapshot_name
create_rds_backup env instance_id retention log =
    let name = snapshot_name env instance_id in
    named name (call env (CloudCall.create_db_snapshot name instance_id retention) log)

unfoldable pub create_redshift_backup : Env → Text → ℕ → Log → Response × Log
unfolding named snapshot_name
create_redshift_backup env cluster_id retention log =
    let name = snapshot_name env cluster_id in
    named name (call env (CloudCall.create_cluster_snapshot name cluster_id retention) log)

some_response : Response × Log → Option Response × Log
some_response (r, log) = (some r, log)

-- The backup of an action's resource; `none` where the service makes none.
unfoldable pub back_up : Env → RemediationAction → Text → ℕ → Log → Option Response × Log
unfolding some_response
back_up env RemediationAction.delete_volume resource retention log =
    some_response (create_volume_backup env resource retention log)
back_up env RemediationAction.delete_rds_instance resource retention log =
    some_response (create_rds_backup env resource retention log)
back_up env RemediationAction.delete_redshift_cluster resource retention log =
    some_response (create_redshift_backup env resource retention log)
back_up env _ resource retention log = (none, log)

-- The second call of a pair is made only if the first one was accepted.
and_then : Env → CloudCall → Response × Log → Response × Log
and_then env c (accepted _, log) = call env c log
and_then env c (refused e, log) = (refused e, log)

-- `repo, digest = resource_id.split("@")`: Python raises unless there are two parts.
delete_image : Env → List Text → Log → Response × Log
delete_image env [] log = (refused (codes "not enough values to unpack (expected 2, got 0)"), log)
delete_image env (_ ∷ []) log =
    (refused (codes "not enough values to unpack (expected 2, got 1)"), log)
delete_image env (repo ∷ digest ∷ []) log = call env (CloudCall.batch_delete_image repo digest) log
delete_image env (_ ∷ _ ∷ _ ∷ _) log =
    (refused (codes "too many values to unpack (expected 2)"), log)

unfoldable pub execute_action : Env → RemediationAction → Text → Log → Response × Log
unfolding and_then delete_image split codes
execute_action env RemediationAction.delete_volume r = call env (CloudCall.delete_volume r)
execute_action env RemediationAction.delete_snapshot r = call env (CloudCall.delete_snapshot r)
execute_action env RemediationAction.release_elastic_ip r = call env (CloudCall.release_address r)
execute_action env RemediationAction.stop_instance r = call env (CloudCall.stop_instances r)
execute_action env RemediationAction.terminate_instance r =
    call env (CloudCall.terminate_instances r)
execute_action env RemediationAction.delete_s3_bucket r = call env (CloudCall.delete_bucket r)
execute_action env RemediationAction.delete_ecr_image r = delete_image env (split b'@' r)
execute_action env RemediationAction.delete_sagemaker_endpoint r = λ log.
    and_then env (CloudCall.delete_endpoint_config r) (call env (CloudCall.delete_endpoint r) log)
execute_action env RemediationAction.delete_redshift_cluster r =
    call env (CloudCall.delete_cluster r)
execute_action env RemediationAction.delete_load_balancer r =
    call env (CloudCall.delete_load_balancer r)
execute_action env RemediationAction.stop_rds_instance r = call env (CloudCall.stop_db_instance r)
execute_action env RemediationAction.delete_rds_instance r =
    call env (CloudCall.delete_db_instance r)
execute_action env RemediationAction.delete_nat_gateway r =
    call env (CloudCall.delete_nat_gateway r)
execute_action env RemediationAction.resize_instance r =
    λ log. (refused (codes "Unknown action: RemediationAction.RESIZE_INSTANCE"), log)
execute_action env RemediationAction.manual_review r =
    λ log. (refused (codes "Unknown action: RemediationAction.MANUAL_REVIEW"), log)
