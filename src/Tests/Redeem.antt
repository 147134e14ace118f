-- ===== src/Tests/Redeem.antt =====
-- Redemption and its timeouts.
use wi_fi_man.Common.{
  ◌+◌, ◌*◌, ◌^◌, ◌≡◌, ◌≢◌, refl, [], ◌∷◌, Text, bytes, some, inl, arith, eq_refl, false, true, ◌==◌,
  eq_iff,
}
use wi_fi_man.Common.Dict
use wi_fi_man.Common.Dict.{Dict, get, put, find}
use wi_fi_man.Common.Int.{pos, ◌+ℤ◌, ◌*ℤ◌, wrap}
use wi_fi_man.Common.Exec.{ok, err}
use wi_fi_man.Domain.{Token, TokenStatus, Session, SessionStatus, Error, invalid_token}
use wi_fi_man.Util.Ascii.{to_upper, is_space, trim_left, trim_right, trim_space}
use wi_fi_man.Util.Mac.{is_hex, write_pairs, normalize_mac}
use wi_fi_man.Util.TokenCode.{normalize_token_code, hash_token_code}
use wi_fi_man.Store.Memory.{with_tx}
use wi_fi_man.Store.Memory.Index.{IsIndexed}
use wi_fi_man.Store.Memory.Sessions.{status_at}
use wi_fi_man.World.{World}
use wi_fi_man.Service.Token.Policy.{
  seconds_of, whole_seconds, session_timeout, minutes_long, policy_from_token, rate_limit,
}
use wi_fi_man.Common.Decimal.{decimal}
use wi_fi_man.Common.Float.{nearest, top_bit, doubled, half_even}
use wi_fi_man.Service.Token.Policy.Timeout.{session_timeout_exact, session_timeout-activated}
use wi_fi_man.Service.Token.Redeem.{
  RedeemResult, activated, new_session, redeem_unsafe, redeem_token,
}
use wi_fi_man.Service.Token.Redeem.Cases.{find_token, timed, Unexpired}
use wi_fi_man.Service.Token.Redeem.Binding.{IsGranted, redeem_unsafe-IsGranted}
use wi_fi_man.Service.Token.Redeem.Index.{redeem_unsafe-IsIndexed}
use wi_fi_man.Service.Token.Redeem.Device.{one_device}
use wi_fi_man.Service.Token.Redeem.Branches.{
  redeem_unsafe-refused, redeem_token-unused, redeem_unsafe-expired,
}
use wi_fi_man.Tests.Fixture.{env, hour, voucher, store, world, request, other_request}

abbrev pub mac : Text
mac = bytes "AA:BB:CC:DD:EE:01"

abbrev pub other_mac : Text
other_mac = bytes "AA:BB:CC:DD:EE:02"

pub mac_ok : normalize_mac request.device_mac ≡ ok mac
unfolding normalize_mac trim_space trim_left trim_right is_space is_hex write_pairs to_upper bytes
mac_ok = refl

pub other_mac_ok : normalize_mac other_request.device_mac ≡ ok other_mac
unfolding normalize_mac trim_space trim_left trim_right is_space is_hex write_pairs to_upper bytes
other_mac_ok = refl

voucher_found : find_token env request world ≡ some voucher
unfolding hash_token_code normalize_token_code trim_space trim_left trim_right is_space to_upper
    bytes get ◌==◌
voucher_found = refl

abbrev pub activation : Token
activation = activated voucher hour mac (pos 1_000_000_000)

abbrev pub started : Session
started = new_session (7 ∷ []) voucher (record request { device_mac = mac }) (pos 1_000_000_000)

abbrev pub granted : RedeemResult
granted = record {
  token = activation;
  session = started;
  policy = policy_from_token hour activation (pos 1_000_000_000);
  resumed = false;
}

-- The installation after the voucher's first redemption.
abbrev pub redeemed : World
redeemed = record world {
  store = record store {
    tokens = put store.tokens voucher.id activation;
    token_by_hash = put store.token_by_hash voucher.code_hash voucher.id;
    sessions = put [] started.id started;
  };
  clock = 2;
  uuids = 8;
}

redeem_token-unused_example : redeem_token env request world ≡ (ok granted, redeemed)
unfolding get ◌==◌ bytes minutes_long wrap policy_from_token rate_limit decimal
redeem_token-unused_example =
    redeem_token-unused env request world mac voucher hour refl mac_ok voucher_found refl refl refl
      refl refl refl

redeem_unsafe-eq : redeem_unsafe env request false world ≡ (ok granted, redeemed)
unfolding redeem_token with_tx get ◌==◌ bytes minutes_long wrap policy_from_token rate_limit decimal
redeem_unsafe-eq =
    redeem_token-unused env request world mac voucher hour refl mac_ok voucher_found refl refl refl
      refl refl refl

pub store-IsIndexed : IsIndexed store
unfolding get
store-IsIndexed = record {
  own_id = λ id t h. ground (arith, eq_iff (bytes "t1") id);
  to_index = λ id t h. ground (arith, eq_iff (bytes "t1") id, eq_refl (bytes "AB-2"));
  from_index = λ k id h. (
    voucher,
    ground (arith, eq_iff (bytes "AB-2") k, eq_refl (bytes "t1")),
    ground (arith, eq_iff (bytes "AB-2") k),
  );
}

redeem_unsafe-IsIndexed_example : IsIndexed (redeem_unsafe env request false world).1.store
redeem_unsafe-IsIndexed_example = redeem_unsafe-IsIndexed env request false world store-IsIndexed

redeem_unsafe-IsGranted_example :
    (m : Text) × (normalize_mac request.device_mac ≡ ok m)
    × IsGranted m granted redeemed
    × (voucher.code_hash ≡ hash_token_code env.sha256_hex request.code)
    × (t : Token) × (find_token env request world ≡ some t)
    × (voucher.id ≡ t.id)
    × Unexpired t (pos 1_000_000_000)
redeem_unsafe-IsGranted_example =
    redeem_unsafe-IsGranted env request false world granted redeemed store-IsIndexed
      redeem_unsafe-eq

macs_differ : normalize_mac request.device_mac ≢ ok other_mac
unfolding bytes ◌==◌
macs_differ e = ground (arith, mac_ok, eq_iff mac other_mac)

one_device_example : redeem_unsafe env other_request true redeemed ≢ (ok granted, redeemed)
one_device_example =
    one_device env request other_request false true world other_mac granted granted redeemed
      redeemed store-IsIndexed redeem_unsafe-eq refl other_mac_ok macs_differ

-- A resumption does not activate the voucher.
redeem_unsafe-refused_example :
    redeem_unsafe env request true world ≡ (err invalid_token, timed world)
unfolding get ◌==◌ bytes
redeem_unsafe-refused_example =
    redeem_unsafe-refused env request world mac voucher hour refl mac_ok voucher_found refl refl
      true invalid_token (inl refl) refl

-- An hour and some minutes later.
abbrev late : World
late = record redeemed { clock = 4000 }

activation_found : find_token env request late ≡ some activation
unfolding hash_token_code normalize_token_code trim_space trim_left trim_right is_space to_upper
    bytes get put ◌==◌
activation_found = refl

redeem_unsafe-expired_example :
    ((e : Error) × ((redeem_unsafe env request false late).0 ≡ err e))
    × (Dict.get (redeem_unsafe env request false late).1.store.tokens (bytes "t1")
        ≡ some (record activation {
          status = TokenStatus.expired;
          updated_at = pos 4_000_000_000_000;
        }))
    × (status_at (redeem_unsafe env request false late).1.store (7 ∷ []) ≡ some SessionStatus.ended)
unfolding get put find ◌==◌ bytes minutes_long ◌*ℤ◌ ◌+ℤ◌ wrap
redeem_unsafe-expired_example =
    redeem_unsafe-expired env request late mac activation hour refl mac_ok activation_found refl
      refl false (pos 3_601_000_000_000) started refl (omega arith) refl refl refl

session_timeout_exact_example :
    session_timeout hour
      (record voucher { expires_at = some (pos 5 +ℤ pos 90_000_000_000) })
      (pos 5)
    ≡ pos 90
session_timeout_exact_example =
    session_timeout_exact hour (record voucher { expires_at = some (pos 5 +ℤ pos 90_000_000_000) })
      (pos 5) 60 90_000_000_000 refl (omega arith) (omega arith) refl (omega arith)

session_timeout-activated_example :
    session_timeout hour (activated voucher hour mac (pos 5)) (pos 5) ≡ pos 3600
session_timeout-activated_example =
    session_timeout-activated hour voucher (pos 5) mac 60 refl (omega arith) (omega arith)

-- Past 2 ^ 23 seconds the rounding of `Seconds` can reach the next second.
rounds_up : whole_seconds (pos (2 ^ 24 * 1_000_000_000 + 999_999_999)) ≡ pos (2 ^ 24 + 1)
unfolding whole_seconds seconds_of nearest top_bit doubled half_even
rounds_up = refl
