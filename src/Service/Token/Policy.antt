-- ===== src/Service/Token/Policy.antt =====
-- `policyFromToken`, and the durations that it and the activation compute.
pub mod Seconds
pub mod Timeout
use wi_fi_man.Common.{
  ℕ, ◌+◌, ◌-◌, ◌*◌, ◌/◌, ◌%◌, ◌^◌, Bool, true, ◌++◌, ◌∷◌, [], Option, none, some, Text, bytes,
  if◌then◌else◌,
}
use wi_fi_man.Common.Int.{ℤ, pos, negsuc, ◌-ℤ◌, ◌*ℤ◌, sub_ℕ, pos_part, neg_part, ltb_ℤ, wrap}
use wi_fi_man.Common.Float.{nearest}
use wi_fi_man.Common.Decimal.{decimal}
use wi_fi_man.Domain.{Plan, Token, Time, GatewayPolicy}

abbrev pub nanoseconds : ℕ
nanoseconds = 1_000_000_000

-- `time.Duration(minutes) * time.Minute`.
unfoldable pub minutes_long : ℤ → ℤ
minutes_long minutes = wrap (minutes *ℤ pos 60_000_000_000)

-- `t.Sub(u)`, which stops at the ends of `time.Duration`.
unfoldable pub time_sub : Time → Time → ℤ
time_sub t u =
    let d = t -ℤ u in
    if ltb_ℤ (pos (2 ^ 63 - 1)) d
    then pos (2 ^ 63 - 1)
    else if ltb_ℤ d (negsuc (2 ^ 63 - 1))
    then negsuc (2 ^ 63 - 1)
    else d

-- `int(d.Seconds())` of `n` nanoseconds. `Seconds` adds two `float64`s, the whole seconds and the rest
-- divided by 1e9, each rounded; they are multiples of 2 ^ -82, and stand here for that many of them.
unfoldable pub seconds_of : ℕ → ℕ
unfolding nearest
seconds_of n =
    let whole = n / nanoseconds * 2 ^ 82 in
    let rest = nearest (n % nanoseconds * 2 ^ 82) nanoseconds in nearest (whole + rest) 1 / 2 ^ 82

-- `int(d.Seconds())`, which rounds as a `float64` does and then towards zero.
unfoldable pub whole_seconds : ℤ → ℤ
unfolding seconds_of
whole_seconds d = sub_ℕ (seconds_of (pos_part d)) (seconds_of (neg_part d))

-- `%dk/%dk`.
unfoldable pub rate_limit : ℤ → ℤ → Text
rate_limit down up = decimal down ++ b'k' ∷ b'/' ∷ (decimal up ++ b'k' ∷ [])

unfoldable pub session_timeout : Plan → Token → Time → ℤ
unfolding time_sub
session_timeout plan token now =
    let timeout_sec = wrap (plan.duration_minutes *ℤ pos 60) in
    elim token.expires_at [
      | none ↦ timeout_sec
      | some expires_at ↦
          let seconds = whole_seconds (time_sub expires_at now) in
          let remaining = if ltb_ℤ seconds (pos 1) then pos 1 else seconds in
          if ltb_ℤ remaining timeout_sec then remaining else timeout_sec
    ]

unfoldable pub policy_from_token : Plan → Token → Time → GatewayPolicy
policy_from_token plan token now = record {
  allow = true;
  session_timeout_sec = session_timeout plan token now;
  data_quota_bytes = wrap (wrap (plan.data_limit_mb *ℤ pos 1024) *ℤ pos 1024);
  speed_down_kbps = plan.speed_down_kbps;
  speed_up_kbps = plan.speed_up_kbps;
  device_limit = plan.device_limit;
  mikrotik_rate_limit_vsa = rate_limit plan.speed_down_kbps plan.speed_up_kbps;
}
