-- ===== src/Service/Session/Totals.antt =====
-- The totals that a gateway reports against the counters of the session.
use wi_fi_man.Common.{
  ℕ, suc, [], ◌-◌, ◌^◌, ◌≤◌, ◌<◌, max, ◌⊎◌, ◌≡◌, refl, ◌∙◌, ap, bytes, ◌==◌, ◌||◌, ltb, some, arith,
  inl, inr, Bool-cases, true, false, not, ◌&&◌,
}
use wi_fi_man.Common.Dict
use wi_fi_man.Common.Dict.{get-put_self}
use wi_fi_man.Common.Int.{pos, ◌+ℤ◌, ◌-ℤ◌, wrap}
use wi_fi_man.Common.Exec.{ok}
use wi_fi_man.Domain.{Plan, Token, Session, SessionStatus}
use wi_fi_man.Store.Memory.{get_session_by_radius, get_session_by_id, update_session}
use wi_fi_man.World.{Env, World}
use wi_fi_man.Service.Gateway.{is_ended}
use wi_fi_man.Service.Quota.{
  UsageUpdateInput, UsageUpdateResult, counted, over_limit, limited_session, limit_reason,
  apply_usage, stop_session,
}
use wi_fi_man.Service.Quota.Limit.{reported, apply_usage-under, apply_usage-limited}
use wi_fi_man.Service.Token.Redeem.{given_or}
use wi_fi_man.Service.Session.{
  RadiusAccountingInput, growth, unchanged, catch_up, stop_if_asked, stop_accounting, account,
  handle_radius_accounting,
}

growth_eq : (t c : ℕ) → t < 2 ^ 63 → c < 2 ^ 63 → growth (pos t) (pos c) ≡ pos (t - c)
unfolding growth ◌-ℤ◌ wrap
growth_eq t c h k = ground arith

grown_eq : (t c : ℕ) → t < 2 ^ 63 → c < 2 ^ 63 → wrap (pos c +ℤ pos (t - c)) ≡ pos (max t c)
unfolding ◌+ℤ◌ wrap
grown_eq t c h k = ground arith

module _ (env : Env) (in_acct : RadiusAccountingInput) (w : World) (s : Session) (a b m n : ℕ)
    (up : s.bytes_up ≡ pos a) (down : s.bytes_down ≡ pos b)
    (up_total : in_acct.bytes_up_total ≡ pos m) (down_total : in_acct.bytes_down_total ≡ pos n)
    (a_fits : a < 2 ^ 63) (b_fits : b < 2 ^ 63) (m_fits : m < 2 ^ 63) (n_fits : n < 2 ^ 63)
    (active : s.status ≡ SessionStatus.active) where
  up_growth : growth in_acct.bytes_up_total s.bytes_up ≡ pos (m - a)
  up_growth = rw (up, up_total) (growth_eq m a m_fits a_fits)

  down_growth : growth in_acct.bytes_down_total s.bytes_down ≡ pos (n - b)
  down_growth = rw (down, down_total) (growth_eq n b n_fits b_fits)

  catch_up-stale : m ≤ a → n ≤ b → catch_up env in_acct s w ≡ (ok (unchanged s), w)
  unfolding catch_up
  catch_up-stale h k = rw (catch_up, up_growth, down_growth) (ground arith)

  abbrev missing : UsageUpdateInput
  missing = record { session_id = s.id; bytes_up = pos (m - a); bytes_down = pos (n - b) }

  catch_up-ahead : (a < m) ⊎ (b < n) → catch_up env in_acct s w ≡ apply_usage env missing w
  unfolding catch_up
  catch_up-ahead h = rw (catch_up, up_growth, down_growth) (ground arith)

  -- A report that lies behind the counters changes nothing, unless it is a start or a stop.
  pub handle_radius_accounting-stale :
      Dict.find
          (λ t. t.radius_session_id == in_acct.radius_session_id && t.nas_ip == in_acct.nas_ip)
          w.store.sessions
        ≡ some s
      → in_acct.status_type == bytes "start" ≡ false
      → in_acct.status_type == bytes "stop" ≡ false
      → m ≤ a
      → n ≤ b
      → handle_radius_accounting env in_acct w ≡ (ok (unchanged s, s), w)
  unfolding handle_radius_accounting get_session_by_radius account stop_if_asked
  handle_radius_accounting-stale found not_start not_stop h k =
      let running : is_ended s ≡ false = ground arith in
      rw (
        handle_radius_accounting,
        get_session_by_radius,
        found,
        account,
        not_start,
        running,
        catch_up-stale h k,
        stop_if_asked,
        not_stop,
      )

  module _ (t : Token) (p : Plan) (stored : Dict.get w.store.sessions s.id ≡ some s)
      (token : Dict.get w.store.tokens s.token_id ≡ some t) (own_token : t.id ≡ s.token_id)
      (plan : Dict.get w.store.plans t.plan_id ≡ some p) where
    -- The session's counters are those of the report, or its own where these are greater.
    abbrev pub IsCaughtUp : Session → Type 0
    IsCaughtUp x = (x.bytes_up ≡ pos (max m a)) × (x.bytes_down ≡ pos (max n b))

    counted-IsCaughtUp : IsCaughtUp (counted s missing)
    counted-IsCaughtUp = rw (up, down) (grown_eq m a m_fits a_fits, grown_eq n b n_fits b_fits)

    catch_up-IsCaughtUp :
        (u : UsageUpdateResult) × (w' : World) × (catch_up env in_acct s w ≡ (ok u, w'))
        × (Dict.get w'.store.sessions u.session.id ≡ some u.session)
        × IsCaughtUp u.session
    catch_up-IsCaughtUp = elim (Bool-cases (ltb a m || ltb b n)) [
      | inr stale ↦
          let same : IsCaughtUp s = rw (up, down) (ap pos (ground arith), ap pos (ground arith)) in
          (unchanged s, w, catch_up-stale (ground arith) (ground arith), stored, same)
      | inl ahead ↦
          let step : catch_up env in_acct s w ≡ apply_usage env missing w =
            catch_up-ahead (ground arith) in
          elim (Bool-cases (over_limit p (counted s missing))) [
            | inr under ↦
                let done =
                  apply_usage-under env missing w s t p stored refl active token own_token plan
                    under in
                (
                  record {
                    session = counted s missing;
                    disconnect = false;
                    disconnect_reason = [];
                  },
                  reported env missing w s t p stored refl active token own_token plan,
                  step ∙ done,
                  get-put_self w.store.sessions s.id (counted s missing),
                  counted-IsCaughtUp,
                )
            | inl over ↦
                let done =
                  apply_usage-limited env missing w s t p stored refl active token own_token plan
                    over in
                (
                  record {
                    session = limited_session (counted s missing) (env.now w.clock);
                    disconnect = true;
                    disconnect_reason = limit_reason;
                  },
                  (apply_usage env missing w).1,
                  step ∙ ap (λ o. (o, (apply_usage env missing w).1)) done.0,
                  done.1,
                  counted-IsCaughtUp,
                )
          ]
    ]

    -- The stop of a session that is stored.
    stop_if_asked-ok :
        (u : UsageUpdateResult) (v : World)
        → Dict.get v.store.sessions u.session.id ≡ some u.session
        → IsCaughtUp u.session
        → (r : UsageUpdateResult) × (x : Session) × (v' : World) × (stop_if_asked env in_acct u v
            ≡ (ok (r, x), v'))
          × (Dict.get v'.store.sessions x.id ≡ some x)
          × IsCaughtUp x
    unfolding stop_if_asked stop_accounting stop_session get_session_by_id update_session
    stop_if_asked-ok u v kept c =
        elim (Bool-cases (in_acct.status_type == bytes "stop" && not (is_ended u.session))) [
          | inr e ↦ (u, u.session, v, rw (stop_if_asked, e), kept, c)
          | inl e ↦
              let running : is_ended u.session ≡ false = ground arith in
              let x : Session = record u.session {
                status = SessionStatus.ended;
                end_reason = given_or in_acct.stop_reason (bytes "radius_stop");
                ended_at = some (env.now v.clock);
                disconnect_pending = false;
              } in
              (
                record u { session = x },
                x,
                record v {
                  clock = suc v.clock;
                  store = record v.store { sessions = Dict.put v.store.sessions x.id x };
                },
                rw (
                  stop_if_asked, e, stop_accounting, stop_session, get_session_by_id, kept, running,
                  update_session, kept,
                ),
                get-put_self v.store.sessions x.id x,
                c,
              )
        ]

    -- An accounting packet, other than a start, that finds a session by its RADIUS id and the
    -- address of its NAS succeeds and leaves each counter at the greater of its value and the
    -- reported total, in the result and in the store: the session is active and stored under its
    -- id, its token and that token's plan are stored, and its counters and the reported totals are
    -- from 0 to 2 ^ 63 - 1.
    pub handle_radius_accounting-IsCaughtUp :
        Dict.find
            (λ x. x.radius_session_id == in_acct.radius_session_id && x.nas_ip == in_acct.nas_ip)
            w.store.sessions
          ≡ some s
        → in_acct.status_type == bytes "start" ≡ false
        → (u : UsageUpdateResult) × (x : Session) × (w' : World) × (handle_radius_accounting env
              in_acct w
            ≡ (ok (u, x), w'))
          × (Dict.get w'.store.sessions x.id ≡ some x)
          × IsCaughtUp x
    unfolding handle_radius_accounting get_session_by_radius account
    handle_radius_accounting-IsCaughtUp found not_start =
        let running : is_ended s ≡ false = ground arith in
        let (u, w', e, kept, c) = catch_up-IsCaughtUp in
        let (r, x, v, e', k0, k1) = stop_if_asked-ok u w' kept c in
        (
          r,
          x,
          v,
          rw (
            handle_radius_accounting, get_session_by_radius, found, account, not_start, running, e,
            e',
          ),
          k0,
          k1,
        )
