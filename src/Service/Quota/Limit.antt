-- ===== src/Service/Quota/Limit.antt =====
-- What a usage report does to a session, its token and the ledger.
use wi_fi_man.Common.{suc, ◌≡◌, refl, bytes, true, false, some, ◌++◌, [], ◌∷◌, arith}
use wi_fi_man.Common.Dict
use wi_fi_man.Common.Dict.{get-put, get-put_self}
use wi_fi_man.Common.Exec.{ok}
use wi_fi_man.Common.Int.{ℤ, pos, ◌+ℤ◌, ◌*ℤ◌, ◌≤ℤ◌, wrap}
use wi_fi_man.Domain.{Plan, Token, TokenStatus, Session, SessionStatus, UsageRecord}
use wi_fi_man.Store.Memory.{
  get_session_by_id, get_token_by_id, get_plan, update_session, create_usage_record, update_token,
}
use wi_fi_man.World.{Env, World}
use wi_fi_man.Service.Gateway.{is_ended}
use wi_fi_man.Service.Quota.{
  UsageUpdateInput, counted, over_limit, limited_session, consumed_token, limit_reason,
  usage_record, data_limit, enforce_limit, check_limit, apply_to, apply_usage,
}

module _ (env : Env) (i : UsageUpdateInput) (w : World) (s : Session) (t : Token) (p : Plan)
    (found : Dict.get w.store.sessions i.session_id ≡ some s) (own : s.id ≡ i.session_id)
    (active : s.status ≡ SessionStatus.active) (token : Dict.get w.store.tokens s.token_id ≡ some t)
    (own_token : t.id ≡ s.token_id) (plan : Dict.get w.store.plans t.plan_id ≡ some p) where
  -- The world once the report has been stored and recorded.
  abbrev pub reported : World
  reported = record w {
    clock = suc w.clock;
    store = record w.store {
      sessions = Dict.put w.store.sessions s.id (counted s i);
      usage = w.store.usage ++ usage_record env i s (env.now w.clock) ∷ [];
    };
  }

  apply_usage-step :
      apply_usage env i w ≡ enforce_limit env (counted s i) t p (env.now w.clock) reported
  unfolding apply_usage apply_to check_limit get_session_by_id get_token_by_id get_plan
      update_session create_usage_record
  apply_usage-step =
      let running : is_ended s ≡ false = ground arith in
      let kept : Dict.get w.store.sessions s.id ≡ some s = cc in
      rw (
        apply_usage, apply_to, check_limit, get_session_by_id, get_token_by_id, get_plan,
        update_session, create_usage_record, found, running, kept, token, plan,
      )

  -- A report that stays under the plan's limit, or meets a plan without one, adds its bytes to the
  -- session's counters and one record to the ledger, and nothing else changes.
  pub apply_usage-under :
      over_limit p (counted s i) ≡ false
      → apply_usage env i w ≡ (
        ok (record { session = counted s i; disconnect = false; disconnect_reason = [] }),
        reported,
      )
  unfolding enforce_limit bytes
  apply_usage-under under = rw (apply_usage-step, enforce_limit, under)

  -- A report that is over the limit ends the session and consumes the token, by the code's own names for both.
  pub apply_usage-limited :
      over_limit p (counted s i) ≡ true
      → (apply_usage env i w).0
          ≡ ok (record {
            session = limited_session (counted s i) (env.now w.clock);
            disconnect = true;
            disconnect_reason = limit_reason;
          })
        × (Dict.get (apply_usage env i w).1.store.sessions s.id
            ≡ some (limited_session (counted s i) (env.now w.clock)))
        × (Dict.get (apply_usage env i w).1.store.tokens t.id
            ≡ some (consumed_token t (env.now w.clock)))
        × ((apply_usage env i w).1.store.usage
            ≡ w.store.usage ++ usage_record env i s (env.now w.clock) ∷ [])
  unfolding enforce_limit update_session update_token
  apply_usage-limited over =
      let first = get-put_self w.store.sessions s.id (counted s i) in
      let stored : Dict.get w.store.tokens t.id ≡ some t = cc in
      rw (apply_usage-step, enforce_limit, over, update_session, update_token, first, stored)
        (
          refl,
          get-put_self _ s.id (limited_session (counted s i) (env.now w.clock)),
          get-put_self _ t.id (consumed_token t (env.now w.clock)),
          refl,
        )

  -- The plan's limit in bytes, as an `int64` holds it.
  abbrev pub limit : ℤ
  limit = wrap (wrap (p.data_limit_mb *ℤ pos 1024) *ℤ pos 1024)

  -- What the session's counters hold once the report is added.
  abbrev pub total_up : ℤ
  total_up = wrap (s.bytes_up +ℤ i.bytes_up)

  abbrev pub total_down : ℤ
  total_down = wrap (s.bytes_down +ℤ i.bytes_down)

  reached :
      pos 1 ≤ℤ limit → limit ≤ℤ wrap (total_up +ℤ total_down) → over_limit p (counted s i) ≡ true
  unfolding over_limit data_limit
  reached positive over = ground arith

  -- A report on a stored active session, whose token and plan are stored, that brings the total of
  -- its counters to the plan's limit, or past it, where that limit is positive, ends the session
  -- for that reason, marks it for the gateway, tells the caller to disconnect it, and consumes the
  -- token; its bytes are on the counters and in one more record of the ledger.
  pub apply_usage-over :
      pos 1 ≤ℤ limit
      → limit ≤ℤ wrap (total_up +ℤ total_down)
      → let now = env.now w.clock in
        let session : Session = record s {
          bytes_up = total_up;
          bytes_down = total_down;
          status = SessionStatus.ended;
          end_reason = bytes "data_limit_reached";
          ended_at = some now;
          disconnect_pending = true;
        } in
        let report : UsageRecord = record {
          id = i.session_id ++ env.format_time now;
          session_id = i.session_id;
          token_id = s.token_id;
          bytes_up = i.bytes_up;
          bytes_down = i.bytes_down;
          created_at = now;
        } in
        ((apply_usage env i w).0
          ≡ ok (record {
            session = session;
            disconnect = true;
            disconnect_reason = bytes "data_limit_reached";
          }))
        × (Dict.get (apply_usage env i w).1.store.sessions s.id ≡ some session)
        × (Dict.get (apply_usage env i w).1.store.tokens t.id
            ≡ some (record t { status = TokenStatus.consumed; updated_at = now }))
        × ((apply_usage env i w).1.store.usage ≡ w.store.usage ++ report ∷ [])
  apply_usage-over positive over = apply_usage-limited (reached positive over)
