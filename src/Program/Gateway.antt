-- ===== src/Program/Gateway.antt =====
-- What the packets of the gateway do to a voucher that lets a device in no more: radius_service.go and
-- radius_server.go of backend/internal/service.
use wi_fi_man.Common.{inl, inr, true, false, not, ◌&&◌, Text, Bool-cases, nat_eq, is_empty}
use wi_fi_man.Common.Exec.{Result, ok, err, Keeps, bind-Keeps, Result-cases}
use wi_fi_man.Domain.{Session, Error}
use wi_fi_man.Store.Memory.{with_tx}
use wi_fi_man.World.{Env, World}
use wi_fi_man.Util.Mac.{normalize_mac}
use wi_fi_man.Service.Gateway.{disconnect_session}
use wi_fi_man.Service.Quota.{UsageUpdateResult}
use wi_fi_man.Service.Session.{handle_radius_accounting}
use wi_fi_man.Service.Token.Redeem.{RedeemInput, redeem_token, resume_token}
use wi_fi_man.Service.Token.Redeem.Blocked.{IsBlocked, redeem_unsafe-IsBlocked}
use wi_fi_man.Service.Radius.{
  RadiusAuthInput, RadiusAccountingEvent, redeem_input, is_invalid_token, is_session_not_found,
  accounting_input, resume_or_redeem, authenticate, enforce_accounting, handle_accounting,
}
use wi_fi_man.Service.Radius.Packet.{RadiusPacket, parse_packet, validate_request}
use wi_fi_man.Service.Radius.Server.{
  auth_input, accounting_event, answer_auth, handle_auth_packet, answer_accounting,
  handle_accounting_packet, accounted,
}
use wi_fi_man.Program.Accounting.{disconnect_session-IsBlocked, handle_radius_accounting-IsBlocked}

module _ (env : Env) (hash m : Text) where
  pub redeem_token-IsBlocked : (i : RedeemInput) → Keeps (IsBlocked hash m) (redeem_token env i)
  unfolding redeem_token with_tx
  redeem_token-IsBlocked i = redeem_unsafe-IsBlocked env hash m i false

  pub resume_token-IsBlocked : (i : RedeemInput) → Keeps (IsBlocked hash m) (resume_token env i)
  unfolding resume_token with_tx
  resume_token-IsBlocked i = redeem_unsafe-IsBlocked env hash m i true

  resume_or_redeem-IsBlocked : (i : RedeemInput) → Keeps (IsBlocked hash m) (resume_or_redeem env i)
  unfolding resume_or_redeem
  resume_or_redeem-IsBlocked i w v =
      let kept = resume_token-IsBlocked i w v in
      elim (Result-cases (resume_token env i w).0) [
        | inl (r, e) ↦ rw (resume_or_redeem, e) kept
        | inr (x, e) ↦ elim (Bool-cases (is_invalid_token x)) [
          | inl again ↦
              rw (resume_or_redeem, e, again)
                (redeem_token-IsBlocked i (resume_token env i w).1 kept)
          | inr over ↦ rw (resume_or_redeem, e, over) kept
        ]
      ]

  pub authenticate-IsBlocked :
      (i : RadiusAuthInput) (w : World)
      → IsBlocked hash m w
      → IsBlocked hash m (authenticate env i w).1
  unfolding authenticate
  authenticate-IsBlocked i w v = elim (Result-cases (normalize_mac i.calling_station_id)) [
    | inr (x, e) ↦ rw (authenticate, e) v
    | inl (mac, e) ↦ rw (authenticate, e) (resume_or_redeem-IsBlocked (redeem_input i mac) w v)
  ]

  enforce_accounting-IsBlocked :
      (u : UsageUpdateResult) (s : Session) → Keeps (IsBlocked hash m) (enforce_accounting env u s)
  unfolding enforce_accounting
  enforce_accounting-IsBlocked u s w v = elim (Bool-cases (u.disconnect && env.has_gateway)) [
    | inr goes_on ↦ rw (enforce_accounting, goes_on) v
    | inl limited ↦
        rw (enforce_accounting, limited)
          (bind-Keeps (IsBlocked hash m) (disconnect_session env _) _
            (disconnect_session-IsBlocked env hash m _) (λ a w' v'. v') w v)
  ]

  pub handle_accounting-IsBlocked :
      (e : RadiusAccountingEvent) → Keeps (IsBlocked hash m) (handle_accounting env e)
  unfolding handle_accounting
  handle_accounting-IsBlocked i w v = elim (Bool-cases (is_empty i.status_type)) [
    | inl blank ↦ rw (handle_accounting, blank) v
    | inr given ↦
        let kept = handle_radius_accounting-IsBlocked env hash m (accounting_input i) w v in
        let w' = (handle_radius_accounting env (accounting_input i) w).1 in
        elim (Result-cases (handle_radius_accounting env (accounting_input i) w).0) [
          | inl ((u, s), e) ↦
              rw (handle_accounting, given, e) (enforce_accounting-IsBlocked u s w' kept)
          | inr (x, e) ↦ elim (Bool-cases (is_session_not_found x)) [
            | inl missing ↦ rw (handle_accounting, given, e, missing) kept
            | inr failed ↦ rw (handle_accounting, given, e, failed) kept
          ]
        ]
  ]

  module _ (md5 : Text → Text) (key : Text) where
    pub handle_auth_packet-IsBlocked :
        (raw remote : Text) → Keeps (IsBlocked hash m) (handle_auth_packet env md5 key raw remote)
    unfolding handle_auth_packet answer_auth
    handle_auth_packet-IsBlocked raw remote w v = elim (Result-cases (parse_packet raw)) [
      | inr (x, e) ↦ rw (handle_auth_packet, e) v
      | inl (p, e) ↦ elim (Bool-cases (not (nat_eq p.code 1))) [
        | inl other ↦ rw (handle_auth_packet, e, answer_auth, other) v
        | inr asks ↦
            rw (handle_auth_packet, e, answer_auth, asks)
              (authenticate-IsBlocked (auth_input p.attributes remote) w v)
      ]
    ]

    accounted-IsBlocked :
        (p : RadiusPacket) (x : Result Error (Unit {0}) × World)
        → IsBlocked hash m x.1
        → IsBlocked hash m (accounted env md5 key p x).1
    unfolding accounted
    accounted-IsBlocked p (ok u, w) v = v
    accounted-IsBlocked p (err e, w) v = v

    pub handle_accounting_packet-IsBlocked :
        (raw remote : Text)
        → Keeps (IsBlocked hash m) (handle_accounting_packet env md5 key raw remote)
    unfolding handle_accounting_packet answer_accounting
    handle_accounting_packet-IsBlocked raw remote w v = elim (Result-cases (parse_packet raw)) [
      | inr (x, e) ↦ rw (handle_accounting_packet, e) v
      | inl (p, e) ↦ elim (Bool-cases (not (nat_eq p.code 4))) [
        | inl other ↦ rw (handle_accounting_packet, e, answer_accounting, other) v
        | inr reports ↦ elim (Bool-cases (not (validate_request md5 raw key))) [
          | inl forged ↦ rw (handle_accounting_packet, e, answer_accounting, reports, forged) v
          | inr valid ↦
              let event = accounting_event p.attributes remote in
              let kept = handle_accounting-IsBlocked event w v in
              rw (handle_accounting_packet, e, answer_accounting, reports, valid)
                (accounted-IsBlocked p (handle_accounting env event w) kept)
        ]
      ]
    ]
