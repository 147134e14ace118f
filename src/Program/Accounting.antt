-- ===== src/Program/Accounting.antt =====
-- What accounting does to a voucher that lets a device in no more: quota_service.go, session_service.go
-- and radius_service.go of backend/internal/service.
use wi_fi_man.Common.{
  bytes, not, ◌==◌, ◌&&◌, ◌||◌, ◌≡◌, refl, sym, ap, ◌∙◌, inl, inr, some, Text, arith, Option-cases,
  Bool-cases,
}
use wi_fi_man.Common.Dict
use wi_fi_man.Common.Int.{pos, ltb_ℤ}
use wi_fi_man.Common.Exec.{Result, ok, Keeps, bind_at, bind-Keeps, ◌>>=◌}
use wi_fi_man.Domain.{Plan, Token, Session, Time, Error}
use wi_fi_man.Store.Memory.{
  MemoryStore, Op, update_session, create_usage_record, get_session_by_id, get_session_by_radius,
  get_active_session_by_token, create_session, update_token, get_token_by_id, get_plan,
}
use wi_fi_man.Store.Memory.Frame.{update_session-SameBut}
use wi_fi_man.World.{Env, World, db, now_utc}
use wi_fi_man.Service.Gateway.{is_ended, DisconnectInput, disconnect_session}
use wi_fi_man.Service.Gateway.Outcome.{disconnect_session-SameBut}
use wi_fi_man.Service.Quota.{
  UsageUpdateInput, UsageUpdateResult, consumed_token, over_limit, limited_session, counted,
  usage_record, enforce_limit, check_limit, apply_to, apply_usage, stop_session,
}
use wi_fi_man.Service.Session.{
  growth, refreshed, stop_accounting, AccountingStartInput, RadiusAccountingInput, start_accounting,
  catch_up, stop_if_asked, account, handle_radius_accounting,
}
use wi_fi_man.Service.Token.Redeem.Blocked.{
  is_spent, IsBlocked, SameBut-Blocks, same_tokens-Blocks, update_token-Blocks,
}

-- A store method that leaves tokens and index alone.
pub db-Keeps :
    {A : Type 0} (hash m : Text) (op : Op A)
    → ((store : MemoryStore)
        → ((op store).1.tokens ≡ store.tokens) × ((op store).1.token_by_hash ≡ store.token_by_hash))
    → Keeps (IsBlocked hash m) (db op)
db-Keeps hash m op same w v =
    same_tokens-Blocks hash m w.store _ (same w.store).0 (same w.store).1 v

pub update_session-Keeps :
    (hash m : Text) (s : Session) → Keeps (IsBlocked hash m) (db (update_session s))
unfolding update_session
update_session-Keeps hash m s =
    db-Keeps hash m (update_session s) λ store. (ground arith, ground arith)

pub create_session-Keeps :
    (hash m : Text) (s : Session) → Keeps (IsBlocked hash m) (db (create_session s))
unfolding create_session
create_session-Keeps hash m s =
    db-Keeps hash m (create_session s) λ store. (ground arith, ground arith)

module _ (env : Env) (hash m : Text) where
  pub disconnect_session-IsBlocked :
      (i : DisconnectInput) → Keeps (IsBlocked hash m) (disconnect_session env i)
  disconnect_session-IsBlocked i w =
      SameBut-Blocks hash m w.store _ (disconnect_session-SameBut env i w)

  consumed-Keeps :
      (t : Token) (now : Time) (w : World)
      → Dict.get w.store.tokens t.id ≡ some t
      → IsBlocked hash m w
      → IsBlocked hash m (db (update_token (consumed_token t now)) w).1
  unfolding is_spent
  consumed-Keeps t now w stored =
      update_token-Blocks hash m w.store t (consumed_token t now) stored refl refl (λ x. inr refl)

  still_stored :
      (t : Token) (s : Session) (w w' : World)
      → db (update_session s) w ≡ (ok tt, w')
      → Dict.get w.store.tokens t.id ≡ some t
      → Dict.get w'.store.tokens t.id ≡ some t
  still_stored t s w w' e stored =
      let same = update_session-SameBut s w.store in
      let after_update : (update_session s w.store).1 ≡ w'.store =
        ap (λ (x : Result Error (Unit {0}) × World). x.1.store) e in
      rw (sym after_update, same.tokens) stored

  enforce_limit-IsBlocked :
      (s : Session) (t : Token) (p : Plan) (now : Time) (w : World)
      → Dict.get w.store.tokens t.id ≡ some t
      → IsBlocked hash m w
      → IsBlocked hash m (enforce_limit env s t p now w).1
  unfolding enforce_limit
  enforce_limit-IsBlocked s t p now w stored v = elim (Bool-cases (over_limit p s)) [
    | inr under ↦ rw (enforce_limit, under) v
    | inl over ↦
        let session = limited_session s now in
        rw (enforce_limit, over)
          (bind_at (IsBlocked hash m) (db (update_session session)) _ w
            (update_session-Keeps hash m session w v)
            (λ u w' e v'.
              bind_at (IsBlocked hash m) (db (update_token (consumed_token t now))) _ w'
                (consumed-Keeps t now w' (still_stored t session w w' e stored) v')
                (λ u' w2 e' v2. v2)))
  ]

  check_limit-IsBlocked :
      (s : Session) (now : Time) → Keeps (IsBlocked hash m) (check_limit env s now)
  unfolding check_limit get_token_by_id get_plan
  check_limit-IsBlocked s now w v = elim (Option-cases (Dict.get w.store.tokens s.token_id)) [
    | inl n ↦ rw (check_limit, get_token_by_id, n) v
    | inr (t, e) ↦ elim (Option-cases (Dict.get w.store.plans t.plan_id)) [
      | inl n ↦ rw (check_limit, get_token_by_id, e, get_plan, n) v
      | inr (p, n) ↦
          let own : t.id ≡ s.token_id = v.0.own_id s.token_id t e in
          rw (check_limit, get_token_by_id, e, get_plan, n)
            (enforce_limit-IsBlocked s t p now w (ap (Dict.get w.store.tokens) own ∙ e) v)
    ]
  ]

  apply_to-IsBlocked :
      (i : UsageUpdateInput) (s : Session) → Keeps (IsBlocked hash m) (apply_to env i s)
  unfolding apply_to create_usage_record
  apply_to-IsBlocked i s w v = elim (Bool-cases (is_ended s)) [
    | inl over ↦ rw (apply_to, over) v
    | inr running ↦
        let session = counted s i in
        let record_usage =
          λ (now : Time). db (create_usage_record (usage_record env i session now)) in
        let rest =
          λ (now : Time). record_usage now >>= λ (u : Unit {0}). check_limit env session now in
        rw (apply_to, running)
          (bind-Keeps (IsBlocked hash m) (db (update_session session))
            (λ (u : Unit {0}). now_utc env >>= rest) (update_session-Keeps hash m session)
            (λ u.
              bind-Keeps (IsBlocked hash m) (now_utc env) rest (λ w' v'. v')
                (λ now.
                  bind-Keeps (IsBlocked hash m) (record_usage now)
                    (λ (u' : Unit {0}). check_limit env session now)
                    (db-Keeps hash m (create_usage_record (usage_record env i session now))
                      λ store. (ground arith, ground arith))
                    (λ u'. check_limit-IsBlocked session now)))
            w v)
  ]

  pub apply_usage-IsBlocked : (i : UsageUpdateInput) → Keeps (IsBlocked hash m) (apply_usage env i)
  unfolding apply_usage get_session_by_id
  apply_usage-IsBlocked i w v = elim (Option-cases (Dict.get w.store.sessions i.session_id)) [
    | inl n ↦ rw (apply_usage, get_session_by_id, n) v
    | inr (s, n) ↦ rw (apply_usage, get_session_by_id, n) (apply_to-IsBlocked i s w v)
  ]

  pub stop_session-IsBlocked :
      (id reason : Text) → Keeps (IsBlocked hash m) (stop_session env id reason)
  unfolding stop_session get_session_by_id update_session
  stop_session-IsBlocked id reason w v =
      same_tokens-Blocks hash m w.store _ (ground arith) (ground arith) v

  pub start_accounting-IsBlocked :
      (i : AccountingStartInput) → Keeps (IsBlocked hash m) (start_accounting env i)
  unfolding start_accounting get_active_session_by_token update_session create_session
  start_accounting-IsBlocked i w v =
      same_tokens-Blocks hash m w.store _ (ground arith) (ground arith) v

  catch_up-IsBlocked :
      (i : RadiusAccountingInput) (s : Session) → Keeps (IsBlocked hash m) (catch_up env i s)
  unfolding catch_up
  catch_up-IsBlocked i s w v =
      elim (Bool-cases (
        ltb_ℤ (pos 0) (growth i.bytes_up_total s.bytes_up)
        || ltb_ℤ (pos 0) (growth i.bytes_down_total s.bytes_down))) [
          | inr none_new ↦ rw (catch_up, none_new) v
          | inl new ↦ rw (catch_up, new) (apply_usage-IsBlocked _ w v)
        ]

  stop_if_asked-IsBlocked :
      (i : RadiusAccountingInput) (u : UsageUpdateResult)
      → Keeps (IsBlocked hash m) (stop_if_asked env i u)
  unfolding stop_if_asked stop_accounting
  stop_if_asked-IsBlocked i u w v =
      elim (Bool-cases (i.status_type == bytes "stop" && not (is_ended u.session))) [
        | inr goes_on ↦ rw (stop_if_asked, goes_on) v
        | inl asked ↦
            rw (stop_if_asked, asked)
              (bind-Keeps (IsBlocked hash m) (stop_accounting env u.session.id _) _
                (stop_session-IsBlocked u.session.id _) (λ s w' v'. v') w v)
      ]

  account-IsBlocked :
      (i : RadiusAccountingInput) (s : Session) → Keeps (IsBlocked hash m) (account env i s)
  unfolding account
  account-IsBlocked i s w v = elim (Bool-cases (i.status_type == bytes "start")) [
    | inl starts ↦
        rw (account, starts)
          (bind-Keeps (IsBlocked hash m) (db (update_session (refreshed s i))) _
            (update_session-Keeps hash m (refreshed s i)) (λ u w' v'. v') w v)
    | inr other ↦ elim (Bool-cases (is_ended s)) [
      | inl over ↦ rw (account, other, over) v
      | inr running ↦
          rw (account, other, running)
            (bind-Keeps (IsBlocked hash m) (catch_up env i s) _ (catch_up-IsBlocked i s)
              (λ u. stop_if_asked-IsBlocked i u) w v)
    ]
  ]

  pub handle_radius_accounting-IsBlocked :
      (i : RadiusAccountingInput) → Keeps (IsBlocked hash m) (handle_radius_accounting env i)
  unfolding handle_radius_accounting get_session_by_radius
  handle_radius_accounting-IsBlocked i w v =
      elim (Option-cases (
        Dict.find (λ s. s.radius_session_id == i.radius_session_id && s.nas_ip == i.nas_ip)
          w.store.sessions)) [
            | inl n ↦ rw (handle_radius_accounting, get_session_by_radius, n) v
            | inr (s, n) ↦
                rw (handle_radius_accounting, get_session_by_radius, n) (account-IsBlocked i s w v)
          ]
