-- ===== src/Service/Token/Generate.antt =====
-- `GenerateTokens`. A code whose token cannot be stored is drawn again, as often as it takes, so the
-- loop runs on fuel: one unit for each code drawn.
pub mod Sold
pub mod Found
pub mod Fresh
pub mod Index
use wi_fi_man.Common.{
  ℕ, zero, suc, Bool, true, false, not, ◌||◌, List, [], ◌∷◌, ◌++◌, Option, none, some, Text, bytes,
  is_empty, if◌then◌else◌,
}
use wi_fi_man.Common.Int.{ℤ, pos, pos_part, ltb_ℤ, leb_ℤ}
use wi_fi_man.Common.Decimal.{decimal}
use wi_fi_man.Common.Exec.{Result, Exec, ok, err, after, ◌>>=◌, ◌>>◌, return, fail, ignore_error}
use wi_fi_man.Domain.{Token, TokenStatus, Time, Error, message, not_found, plan_inactive}
use wi_fi_man.Util.TokenCode.{generate_token_code, hash_token_code}
use wi_fi_man.Store.Memory.{get_plan, create_token}
use wi_fi_man.World.{Env, World, M, db, now_utc, new_uuid, rand_read}
use wi_fi_man.Service.Audit.{log_audit}

pub record GenerateTokensInput : Type 0 where
  pub plan_id : Text
  pub count : ℤ
  pub created_by : Text
  pub notes : Text

pub record GeneratedToken : Type 0 where
  pub token_id : Text
  pub code : Text

abbrev pub unused_token : Text → Text → GenerateTokensInput → Time → Token
unused_token id code_hash in_gen now = record {
  id = id;
  plan_id = in_gen.plan_id;
  code_hash = code_hash;
  status = TokenStatus.unused;
  created_at = now;
  updated_at = now;
  activated_at = none;
  expires_at = none;
  used_by_device_mac = none;
  payment_id = none;
  notes = in_gen.notes;
  sold_by_agent_id = none;
  revoked_reason = [];
}

unfoldable pub is_bad_count : ℤ → Bool
is_bad_count n = leb_ℤ n (pos 0) || ltb_ℤ (pos 1000) n

-- `append`, seen from the pass that made the voucher.
abbrev pub prepend :
    GeneratedToken
    → Option (Result Error (List GeneratedToken) × World)
    → Option (Result Error (List GeneratedToken) × World)
prepend t none = none
prepend t (some (ok ts, w)) = some (ok (t ∷ ts), w)
prepend t (some (err e, w)) = some (err e, w)

module _ (env : Env) where
  -- The three reads of four bytes, then the code.
  unfoldable pub draw_code : M Text
  draw_code = do
    r0 ← rand_read env 4
    r1 ← rand_read env 4
    r2 ← rand_read env 4
    elim (generate_token_code r0 r1 r2) [ ok code ↦ return code | err e ↦ fail (message e) ]

  -- One pass of the loop: the voucher, or nothing where the store refused it.
  unfoldable pub draw : GenerateTokensInput → Time → M (Option GeneratedToken)
  unfolding draw_code create_token
  draw in_gen now = do
    code ← draw_code
    id ← new_uuid env
    let token = unused_token id (hash_token_code env.sha256_hex code) in_gen now
    λ w. elim (db (create_token token) w).0 [
      | ok _ ↦ (ok (some (record { token_id = id; code = code })), (db (create_token token) w).1)
      | err _ ↦ (ok none, (db (create_token token) w).1)
    ]

  -- `none` stands for fuel that ran out, with the loop still running.
  unfoldable pub generate_loop :
      ℕ
      → GenerateTokensInput
      → Time
      → ℕ
      → World
      → Option (Result Error (List GeneratedToken) × World)
  unfolding draw
  generate_loop fuel in_gen now zero w = some (ok [], w)
  generate_loop zero in_gen now (suc n) w = none
  generate_loop (suc fuel) in_gen now (suc n) w =
      let (drawn, w') = draw in_gen now w in
      elim drawn [
        | err e ↦ some (err e, w')
        | ok none ↦ generate_loop fuel in_gen now (suc n) w'
        | ok (some t) ↦ prepend t (generate_loop fuel in_gen now n w')
      ]

  unfoldable pub audit_generation : GenerateTokensInput → M (Unit {0})
  unfolding log_audit decimal
  audit_generation in_gen =
      if is_empty in_gen.created_by
      then return tt
      else ignore_error (
          log_audit env in_gen.created_by (bytes "token.generate") (bytes "plan") in_gen.plan_id
            (bytes "count=" ++ decimal in_gen.count))

  abbrev pub audited :
      GenerateTokensInput
      → Result Error (List GeneratedToken) × World
      → Result Error (List GeneratedToken) × World
  audited in_gen (err e, w) = (err e, w)
  audited in_gen (ok out, w) = (ok out, (audit_generation in_gen w).1)

  -- From the loop on.
  unfoldable pub generate_for :
      ℕ → GenerateTokensInput → World → Option (Result Error (List GeneratedToken) × World)
  unfolding generate_loop audit_generation
  generate_for fuel in_gen w =
      elim (generate_loop fuel in_gen (env.now w.clock) (pos_part in_gen.count) (now_utc env w).1) [
        | none ↦ none
        | some r ↦ some (audited in_gen r)
      ]

  unfoldable pub generate_tokens :
      ℕ → GenerateTokensInput → World → Option (Result Error (List GeneratedToken) × World)
  unfolding get_plan generate_for
  generate_tokens fuel in_gen w =
      if is_bad_count in_gen.count
      then some (err (message (bytes "invalid count")), w)
      else elim (get_plan in_gen.plan_id w.store).0 [
        | err e ↦ some (err e, w)
        | ok none ↦ some (err not_found, w)
        | ok (some plan) ↦
            if not plan.active then some (err plan_inactive, w) else generate_for fuel in_gen w
      ]
