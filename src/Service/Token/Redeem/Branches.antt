-- ===== src/Service/Token/Redeem/Branches.antt =====
-- What redemption and resumption answer in each state of a token, and what they change.
use wi_fi_man.Common.{
  suc, ◌≡◌, refl, inl, Bool, true, false, Option, none, some, Text, ◌++◌, ◌∷◌, [], is_empty, arith,
  if◌then◌else◌,
}
use wi_fi_man.Common.Dict
use wi_fi_man.Common.Dict.{get-put, get-put_self}
use wi_fi_man.Common.Int.{pos, ◌+ℤ◌, ◌*ℤ◌, ◌≤ℤ◌, wrap}
use wi_fi_man.Common.Decimal.{decimal}
use wi_fi_man.Common.Exec.{ok, err}
use wi_fi_man.Domain.{
  Plan, Token, TokenStatus, Session, SessionStatus, Time, Error, invalid_token, token_expired,
  token_revoked, token_consumed, token_device_bound,
}
use wi_fi_man.Util.Mac.{normalize_mac}
use wi_fi_man.Store.Memory.{running, with_tx}
use wi_fi_man.Store.Memory.Sessions.{status_at}
use wi_fi_man.World.{Env, World}
use wi_fi_man.Service.Token.Policy.{session_timeout, policy_from_token, minutes_long, rate_limit}
use wi_fi_man.Service.Token.Expiry.{expire_token, ensure_not_expired}
use wi_fi_man.Service.Token.Expiry.Effect.{
  expire_token-stored, expire_token-ended, expire_token-fails,
}
use wi_fi_man.Service.Token.Redeem.{
  RedeemInput, bound_to, activate, reattach, redeem_status, redeem_found, redeem_unsafe,
  redeem_token,
}
use wi_fi_man.Service.Token.Redeem.Cases.{Unexpired, find_token, timed}

-- The error that the state of a token calls for: the status, whether an activation is excluded, and
-- whether the token is bound to the device that asks.
abbrev pub refusal : TokenStatus → Bool → Bool → Option Error
refusal TokenStatus.created require_active is_bound = some invalid_token
refusal TokenStatus.unused require_active is_bound =
    if require_active then some invalid_token else none
refusal TokenStatus.active require_active is_bound =
    if is_bound then none else some token_device_bound
refusal TokenStatus.expired require_active is_bound = some token_expired
refusal TokenStatus.consumed require_active is_bound = some token_consumed
refusal TokenStatus.revoked require_active is_bound = some token_revoked

module _ (env : Env) (i : RedeemInput) (w : World) (mac : Text) (t : Token) (plan : Plan)
    (given : is_empty i.code ≡ false) (mac_ok : normalize_mac i.device_mac ≡ ok mac)
    (found : find_token env i w ≡ some t)
    (plan_found : Dict.get w.store.plans t.plan_id ≡ some plan)
    (plan_active : plan.active ≡ true) where
  to_found :
      (b : Bool)
      → redeem_unsafe env i b w
        ≡ redeem_found env (record i { device_mac = mac }) b (env.now w.clock) t (timed w)
  unfolding redeem_unsafe
  to_found b = ground arith

  not_expired :
      Unexpired t (env.now w.clock)
      → ensure_not_expired env t (env.now w.clock) (timed w) ≡ (ok tt, timed w)
  unfolding ensure_not_expired
  not_expired u = ground arith

  to_status :
      (b : Bool)
      → Unexpired t (env.now w.clock)
      → redeem_unsafe env i b w
        ≡ redeem_status env (record i { device_mac = mac }) b (env.now w.clock) plan t (timed w)
  unfolding redeem_found
  to_status b u = ground (arith, to_found b, not_expired u)

  -- A token whose time is not over is refused by its state, with the error of the table, and the
  -- refusal changes nothing: a resumption never activates a voucher, a bound voucher refuses other
  -- devices, and expired, consumed and revoked ones refuse everybody.
  pub redeem_unsafe-refused :
      (b : Bool) (e : Error)
      → Unexpired t (env.now w.clock)
      → refusal t.status b (bound_to t mac) ≡ some e
      → redeem_unsafe env i b w ≡ (err e, timed w)
  unfolding redeem_status reattach
  redeem_unsafe-refused b e u h = ground (arith, to_status b u)

  -- The first redemption of an unused voucher of an active plan, where its code, its plan and the
  -- device's address are found and the new session's id is free, activates it: the stored token is
  -- active, bound to the device under its normalised address, and ends the plan's minutes from now.
  -- One active session of the device, with empty counters, is stored under a fresh id, and the
  -- answer holds both and the plan's speeds, quota and device limit. Nothing else changes.
  pub redeem_token-unused :
      t.status ≡ TokenStatus.unused
      → t.expires_at ≡ none
      → Dict.get w.store.tokens t.id ≡ some t
      → Dict.get w.store.sessions (env.new_uuid w.uuids) ≡ none
      → let now = env.now w.clock in
        let t' : Token = record t {
          used_by_device_mac = some mac;
          activated_at = some now;
          expires_at = some (now +ℤ wrap (plan.duration_minutes *ℤ pos 60_000_000_000));
          status = TokenStatus.active;
          updated_at = now;
        } in
        let session : Session = record {
          id = env.new_uuid w.uuids;
          token_id = t.id;
          device_mac = mac;
          ip_address = i.ip;
          gateway_id = i.gateway_id;
          radius_session_id = i.radius_session_id;
          nas_ip = i.nas_ip;
          nas_identifier = i.nas_identifier;
          disconnect_pending = false;
          started_at = now;
          ended_at = none;
          bytes_up = pos 0;
          bytes_down = pos 0;
          status = SessionStatus.active;
          end_reason = [];
        } in
        redeem_token env i w ≡ (
          ok (record {
            token = t';
            session = session;
            policy = record {
              allow = true;
              session_timeout_sec = session_timeout plan t' now;
              data_quota_bytes = wrap (wrap (plan.data_limit_mb *ℤ pos 1024) *ℤ pos 1024);
              speed_down_kbps = plan.speed_down_kbps;
              speed_up_kbps = plan.speed_up_kbps;
              device_limit = plan.device_limit;
              mikrotik_rate_limit_vsa =
                  decimal plan.speed_down_kbps
                  ++ b'k' ∷ b'/' ∷ (decimal plan.speed_up_kbps ++ b'k' ∷ []);
            };
            resumed = false;
          }),
          record w {
            store = record w.store {
              tokens = Dict.put w.store.tokens t.id t';
              token_by_hash = Dict.put w.store.token_by_hash t.code_hash t.id;
              sessions = Dict.put w.store.sessions (env.new_uuid w.uuids) session;
            };
            clock = suc w.clock;
            uuids = suc w.uuids;
          },
        )
  unfolding redeem_token with_tx redeem_status activate policy_from_token minutes_long rate_limit
  redeem_token-unused unused fresh stored free = ground (arith, to_status false (inl fresh))

  to_expired :
      (b : Bool) (until : Time) (e : Error)
      → t.expires_at ≡ some until
      → until ≤ℤ env.now w.clock
      → (expire_token env t (env.now w.clock) (timed w)).0 ≡ err e
      → redeem_unsafe env i b w ≡ (err e, (expire_token env t (env.now w.clock) (timed w)).1)
  unfolding redeem_found ensure_not_expired
  to_expired b until e over late fails = ground (arith, to_found b)

  -- A voucher whose time is over is refused; it is stored as expired, with the rest of it as it was,
  -- and its running session is ended, whatever the gateway answers.
  pub redeem_unsafe-expired :
      (b : Bool) (until : Time) (s : Session)
      → t.expires_at ≡ some until
      → until ≤ℤ env.now w.clock
      → Dict.get w.store.tokens t.id ≡ some t
      → Dict.find (running t.id) w.store.sessions ≡ some s
      → Dict.get w.store.sessions s.id ≡ some s
      → ((e : Error) × ((redeem_unsafe env i b w).0 ≡ err e))
        × (Dict.get (redeem_unsafe env i b w).1.store.tokens t.id
            ≡ some (record t { status = TokenStatus.expired; updated_at = env.now w.clock }))
        × (status_at (redeem_unsafe env i b w).1.store s.id ≡ some SessionStatus.ended)
  redeem_unsafe-expired b until s over late stored runs kept =
      let now = env.now w.clock in
      let (e, fails) = expire_token-fails env t now (timed w) in
      let step = to_expired b until e over late fails in
      rw step (
        (e, refl),
        expire_token-stored env t now (timed w) stored,
        expire_token-ended env t now (timed w) s stored runs kept,
      )
