-- ===== src/Service/Token/Revoke/Effect.antt =====
-- What a revocation does.
use wi_fi_man.Common.{suc, ◌≡◌, some, Text, bytes, is_empty, if◌then◌else◌, arith, eq_iff, inl, inr}
use wi_fi_man.Common.Dict
use wi_fi_man.Common.Dict.{get-put, get-put_self}
use wi_fi_man.Common.Exec.{outcome}
use wi_fi_man.Domain.{Token, TokenStatus, Session, SessionStatus}
use wi_fi_man.Store.Memory.{running, get_token_by_id, update_token}
use wi_fi_man.Store.Memory.Sessions.{status_at}
use wi_fi_man.World.{Env, World}
use wi_fi_man.Service.Audit.{log_audit}
use wi_fi_man.Service.Token.Redeem.{given_or}
use wi_fi_man.Service.Token.Expiry.{end_active_session}
use wi_fi_man.Service.Token.Expiry.Effect.{end_active_session-SameBut, end_active_session-ended}
use wi_fi_man.Service.Token.Revoke.{revoked, audit_revocation, revoke_token}

module _ (env : Env) (id admin_id given : Text) (w : World) where
  audit_revocation-maps :
      (r : Text) (v : World)
      → ((audit_revocation env id admin_id r v).1.store.tokens ≡ v.store.tokens)
        × ((audit_revocation env id admin_id r v).1.store.sessions ≡ v.store.sessions)
  unfolding audit_revocation log_audit
  audit_revocation-maps r v = ground arith

  abbrev pub reason : Text
  reason = given_or given (bytes "revoked by admin")

  module _ (t : Token) (stored : Dict.get w.store.tokens id ≡ some t) (own : t.id ≡ id) where
    abbrev marked : World
    marked = record w {
      clock = suc w.clock;
      store = record w.store {
        tokens = Dict.put w.store.tokens t.id (revoked t reason (env.now w.clock));
        token_by_hash = Dict.put w.store.token_by_hash t.code_hash t.id;
      };
    }

    abbrev closed : World
    closed = (end_active_session env id (bytes "revoked") (env.now w.clock) marked).1

    revoke_token-maps :
        ((revoke_token env id admin_id given w).1.store.tokens ≡ closed.store.tokens)
        × ((revoke_token env id admin_id given w).1.store.sessions ≡ closed.store.sessions)
    unfolding revoke_token get_token_by_id update_token
    revoke_token-maps =
        let kept : Dict.get w.store.tokens t.id ≡ some t = cc in
        elim (outcome (end_active_session env id (bytes "revoked") (env.now w.clock) marked)) [
          | inl (u, v, e) ↦
              rw (revoke_token, get_token_by_id, stored, update_token, kept)
                (ground (arith, e, audit_revocation-maps reason v))
          | inr (x, v, e) ↦
              rw (revoke_token, get_token_by_id, stored, update_token, kept) (ground (arith, e))
        ]

    -- A revocation of a stored token sets its status to revoked, its reason to the given one, or to
    -- a default where none is given, and the time of the change, and leaves the rest of it as it
    -- was, whatever the gateway answers.
    pub revoke_token-stored :
        Dict.get (revoke_token env id admin_id given w).1.store.tokens id
        ≡ some (record t {
          status = TokenStatus.revoked;
          revoked_reason = if is_empty given then bytes "revoked by admin" else given;
          updated_at = env.now w.clock;
        })
    revoke_token-stored =
        let same = end_active_session-SameBut env id (bytes "revoked") (env.now w.clock) marked in
        let put = get-put w.store.tokens t.id id (revoked t reason (env.now w.clock)) in
        rw (revoke_token-maps.0, same.tokens) (ground (arith, put, own, eq_iff t.id id))

    -- And it ends the token's running session, whatever the gateway answers.
    pub revoke_token-ended :
        (s : Session)
        → Dict.find (running id) w.store.sessions ≡ some s
        → Dict.get w.store.sessions s.id ≡ some s
        → status_at (revoke_token env id admin_id given w).1.store s.id ≡ some SessionStatus.ended
    revoke_token-ended s found kept =
        rw (status_at, revoke_token-maps.1)
          (end_active_session-ended env id (bytes "revoked") (env.now w.clock) marked s found kept)
