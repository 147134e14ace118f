-- ===== src/Tests/Vouchers.antt =====
-- Revocation, the sweep and the generation of vouchers.
use wi_fi_man.Common.{
  ℕ, zero, suc, ◌≡◌, refl, false, List, [], ◌∷◌, Text, bytes, some, none, inl, arith, length, All,
  ◌==◌, eq_iff,
}
use wi_fi_man.Common.Dict
use wi_fi_man.Common.Dict.{get, put, find, values}
use wi_fi_man.Common.Int.{pos, ◌+ℤ◌, ◌*ℤ◌, wrap}
use wi_fi_man.Common.Exec.{ok}
use wi_fi_man.Domain.{TokenStatus, SessionStatus}
use wi_fi_man.Util.Ascii.{to_upper, is_space, trim_left, trim_right, trim_space}
use wi_fi_man.Util.TokenCode.{
  token_alphabet, random_part, generate_token_code, normalize_token_code, hash_token_code,
}
use wi_fi_man.Store.Memory.{list_tokens}
use wi_fi_man.Store.Memory.Sessions.{status_at}
use wi_fi_man.World.{Env, World}
use wi_fi_man.Service.Token.Policy.{minutes_long}
use wi_fi_man.Service.Token.Revoke.{revoke_token, is_overdue, sweep, sweep_expired_tokens}
use wi_fi_man.Service.Token.Revoke.Effect.{revoke_token-stored, revoke_token-ended}
use wi_fi_man.Service.Token.Revoke.Sweep.{HasOwnIds, sweep_expired_tokens-rests}
use wi_fi_man.Service.Token.Generate.{GenerateTokensInput, GeneratedToken, generate_loop}
use wi_fi_man.Service.Token.Generate.Sold.{IsSold}
use wi_fi_man.Service.Token.Generate.Fresh.{
  IsFresh, IsRefused, generate_loop-returns, generate_loop-endless,
}
use wi_fi_man.Tests.Fixture.{env, deaf_env, voucher, world}
use wi_fi_man.Tests.Redeem.{activation, started, redeemed}

token_found : Dict.get redeemed.store.tokens (bytes "t1") ≡ some activation
unfolding get put ◌==◌ bytes
token_found = refl

revoke_token-stored_example :
    Dict.get
      (revoke_token deaf_env (bytes "t1") (bytes "ann") [] redeemed).1.store.tokens
      (bytes "t1")
    ≡ some (record activation {
      status = TokenStatus.revoked;
      revoked_reason = bytes "revoked by admin";
      updated_at = pos 2_000_000_000;
    })
unfolding bytes
revoke_token-stored_example =
    revoke_token-stored deaf_env (bytes "t1") (bytes "ann") [] redeemed activation token_found refl

revoke_token-ended_example :
    status_at (revoke_token deaf_env (bytes "t1") (bytes "ann") [] redeemed).1.store (7 ∷ [])
    ≡ some SessionStatus.ended
unfolding get put find ◌==◌ bytes
revoke_token-ended_example =
    revoke_token-ended deaf_env (bytes "t1") (bytes "ann") [] redeemed activation token_found refl
      started refl refl

redeemed-HasOwnIds : HasOwnIds redeemed.store.tokens
unfolding get put
redeemed-HasOwnIds id t h = ground (arith, eq_iff (bytes "t1") id)

abbrev after_sweep : World
after_sweep = (sweep_expired_tokens env redeemed).1

swept : sweep_expired_tokens env redeemed ≡ (ok 0, after_sweep)
unfolding sweep_expired_tokens sweep list_tokens values put is_overdue minutes_long wrap ◌*ℤ◌ ◌+ℤ◌
    ◌==◌ bytes
swept = refl

swept_token : Dict.get after_sweep.store.tokens (bytes "t1") ≡ some activation
unfolding sweep_expired_tokens sweep list_tokens values get put is_overdue minutes_long wrap ◌*ℤ◌
    ◌+ℤ◌ ◌==◌ bytes
swept_token = refl

sweep_expired_tokens-rests_example : is_overdue (pos 2_000_000_000) activation ≡ false
sweep_expired_tokens-rests_example =
    sweep_expired_tokens-rests env 0 redeemed after_sweep redeemed-HasOwnIds swept (bytes "t1")
      activation swept_token

abbrev batch : GenerateTokensInput
batch = record { plan_id = bytes "hour"; count = pos 1; created_by = []; notes = [] }

-- The first code of the fixture's random bytes.
abbrev first_code : ℕ → Text
first_code k = bytes "AAAA-BBBB-CCCC"

world-IsFresh : IsFresh env batch (pos 0) first_code 1 world
unfolding generate_token_code random_part token_alphabet bytes hash_token_code normalize_token_code
    trim_space trim_left trim_right is_space to_upper get ◌==◌
world-IsFresh zero lt = (refl, refl, refl, λ j less. absurd (omega arith))
world-IsFresh (suc k) lt = absurd (omega arith)

generate_loop-returns_example :
    (ts : List GeneratedToken) × (w' : World) × (generate_loop env 1 batch (pos 0) 1 world
      ≡ some (ok ts, w'))
    × (length ts ≡ 1)
    × All (IsSold env batch (pos 0) w'.store) ts
generate_loop-returns_example =
    generate_loop-returns env batch (pos 0) first_code 1 1 world (omega arith) world-IsFresh

-- A source of identifiers and of random bytes that repeats itself.
abbrev stuck_env : Env
stuck_env = record env { new_uuid = λ n. bytes "t1"; rand_read = λ n k. some (0 ∷ 0 ∷ 0 ∷ 0 ∷ []) }

abbrev stuck_code : ℕ → Text
stuck_code k = bytes "AAAA-AAAA-AAAA"

stuck_world-IsRefused : IsRefused stuck_env batch (pos 0) stuck_code 100 world
unfolding generate_token_code random_part token_alphabet get ◌==◌ bytes
stuck_world-IsRefused k lt = (refl, inl (voucher, refl))

generate_loop-endless_example : generate_loop stuck_env 100 batch (pos 0) 1 world ≡ none
generate_loop-endless_example =
    generate_loop-endless stuck_env batch (pos 0) stuck_code 0 100 world stuck_world-IsRefused
