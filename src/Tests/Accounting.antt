-- ===== src/Tests/Accounting.antt =====
-- Usage reports, quota and the gateway's accounting, on the voucher of Tests/Redeem.antt.
use wi_fi_man.Common.{◌^◌, ◌≡◌, refl, true, [], ◌∷◌, ◌++◌, bytes, some, arith, ◌==◌, eq_iff}
use wi_fi_man.Common.Dict
use wi_fi_man.Common.Dict.{get, put, find}
use wi_fi_man.Common.Int.{pos, ◌+ℤ◌, ◌*ℤ◌, wrap}
use wi_fi_man.Common.Exec.{ok}
use wi_fi_man.Domain.{TokenStatus, Session, SessionStatus, UsageRecord}
use wi_fi_man.World.{World}
use wi_fi_man.Service.Quota.{UsageUpdateInput, UsageUpdateResult, apply_usage}
use wi_fi_man.Service.Quota.Limit.{apply_usage-over}
use wi_fi_man.Service.Quota.Ledger.{tally, IsBalanced, apply_usage-IsBalanced}
use wi_fi_man.Service.Session.{RadiusAccountingInput, handle_radius_accounting}
use wi_fi_man.Service.Session.Totals.{handle_radius_accounting-IsCaughtUp}
use wi_fi_man.Tests.Fixture.{env, hour}
use wi_fi_man.Tests.Redeem.{activation, started, redeemed}

abbrev little : UsageUpdateInput
little = record { session_id = 7 ∷ []; bytes_up = pos 100; bytes_down = pos 200 }

abbrev much : UsageUpdateInput
much = record { session_id = 7 ∷ []; bytes_up = pos (2 ^ 30); bytes_down = pos 0 }

session_found : Dict.get redeemed.store.sessions (7 ∷ []) ≡ some started
unfolding get put ◌==◌
session_found = refl

token_found : Dict.get redeemed.store.tokens (bytes "t1") ≡ some activation
unfolding get put ◌==◌ bytes
token_found = refl

plan_found : Dict.get redeemed.store.plans (bytes "hour") ≡ some hour
unfolding get ◌==◌ bytes
plan_found = refl

abbrev at_limit : Session
at_limit = record started {
  bytes_up = pos (2 ^ 30);
  status = SessionStatus.ended;
  end_reason = bytes "data_limit_reached";
  ended_at = some (pos 2_000_000_000);
  disconnect_pending = true;
}

abbrev last_report : UsageRecord
last_report = record {
  id = (7 ∷ []) ++ env.format_time (pos 2_000_000_000);
  session_id = 7 ∷ [];
  token_id = bytes "t1";
  bytes_up = pos (2 ^ 30);
  bytes_down = pos 0;
  created_at = pos 2_000_000_000;
}

apply_usage-over_example :
    ((apply_usage env much redeemed).0
      ≡ ok (record {
        session = at_limit;
        disconnect = true;
        disconnect_reason = bytes "data_limit_reached";
      }))
    × (Dict.get (apply_usage env much redeemed).1.store.sessions (7 ∷ []) ≡ some at_limit)
    × (Dict.get (apply_usage env much redeemed).1.store.tokens (bytes "t1")
        ≡ some
            (record activation { status = TokenStatus.consumed; updated_at = pos 2_000_000_000 }))
    × ((apply_usage env much redeemed).1.store.usage ≡ [] ++ last_report ∷ [])
unfolding get put ◌==◌ bytes wrap ◌+ℤ◌ ◌*ℤ◌
apply_usage-over_example =
    apply_usage-over env much redeemed started activation hour refl refl refl refl refl refl
      (omega arith) (omega arith)

redeemed-IsBalanced : IsBalanced redeemed.store
unfolding get put tally
redeemed-IsBalanced id up down h = ground (arith, eq_iff (7 ∷ []) id)

apply_usage-IsBalanced_example : IsBalanced (apply_usage env much redeemed).1.store
unfolding get put ◌==◌
apply_usage-IsBalanced_example =
    apply_usage-IsBalanced env much redeemed (λ s h. ground (arith)) redeemed-IsBalanced

abbrev interim : RadiusAccountingInput
interim = record {
  status_type = bytes "interim";
  radius_session_id = bytes "acct-1";
  nas_ip = bytes "10.0.0.1";
  nas_identifier = [];
  ip_address = [];
  device_mac = [];
  bytes_up_total = pos 500;
  bytes_down_total = pos 0;
  stop_reason = [];
}

handle_radius_accounting-IsCaughtUp_example :
    (u : UsageUpdateResult) × (x : Session) × (w' : World) × (handle_radius_accounting env interim
        redeemed
      ≡ (ok (u, x), w'))
    × (Dict.get w'.store.sessions x.id ≡ some x)
    × ((x.bytes_up ≡ pos 500) × (x.bytes_down ≡ pos 0))
unfolding get put find ◌==◌ bytes
handle_radius_accounting-IsCaughtUp_example =
    handle_radius_accounting-IsCaughtUp env interim redeemed started 0 0 500 0 refl refl refl refl
      (omega arith) (omega arith) (omega arith) (omega arith) refl activation hour refl refl refl
      refl refl refl

abbrev late_interim : RadiusAccountingInput
late_interim = record interim { bytes_up_total = pos 0 }
