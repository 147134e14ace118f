-- ===== src/Service/Audit.antt =====
-- backend/internal/service/audit_service.go.
use wi_fi_man.Common.{Text}
use wi_fi_man.Common.Exec.{◌>>=◌}
use wi_fi_man.Store.Memory.{create_audit_log}
use wi_fi_man.World.{Env, M, db, now_utc, new_uuid}

module _ (env : Env) where
  unfoldable pub log_audit : Text → Text → Text → Text → Text → M (Unit {0})
  unfolding create_audit_log
  log_audit admin_id action entity_type entity_id metadata = do
    id ← new_uuid env
    now ← now_utc env
    db (
        create_audit_log (record {
          id = id;
          admin_id = admin_id;
          action = action;
          entity_type = entity_type;
          entity_id = entity_id;
          metadata = metadata;
          created_at = now;
        }))
