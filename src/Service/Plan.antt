-- ===== src/Service/Plan.antt =====
-- backend/internal/service/plan_service.go, and `activePlans` of
-- backend/internal/http/handlers/portal_handler.go.
pub mod Checks
use wi_fi_man.Common.{
  ℕ, ◌*◌, ◌^◌, ◌+◌, Bool, true, false, ◌||◌, not, List, [], ◌∷◌, Option, none, some, Text, bytes,
  is_empty, filter, if◌then◌else◌,
}
use wi_fi_man.Common.Int.{ℤ, pos, leb_ℤ}
use wi_fi_man.Common.Exec.{Exec, ok, after, ◌>>=◌, ◌>>◌, return, fail}
use wi_fi_man.Domain.{Plan, Time, Float64, is_negative, not_found, invalid_input}
use wi_fi_man.Store.Memory.{list_plans, get_plan, create_plan}
use wi_fi_man.World.{Env, M, db, now_utc, new_uuid}

pub record CreatePlanInput : Type 0 where
  pub name : Text
  pub duration_minutes : ℤ
  pub data_limit_mb : ℤ
  pub speed_down_kbps : ℤ
  pub speed_up_kbps : ℤ
  pub device_limit : ℤ
  pub price : Float64
  pub active : Bool

-- The bit patterns of 0.5 and 2.5.
abbrev pub half : Float64
half = 0x3fe * 2 ^ 52

abbrev pub two_and_a_half : Float64
two_and_a_half = 0x400 * 2 ^ 52 + 2 ^ 50

abbrev pub plan_of : CreatePlanInput → Text → Time → Plan
plan_of in_plan id now = record {
  id = id;
  name = in_plan.name;
  duration_minutes = in_plan.duration_minutes;
  data_limit_mb = in_plan.data_limit_mb;
  speed_down_kbps = in_plan.speed_down_kbps;
  speed_up_kbps = in_plan.speed_up_kbps;
  device_limit = in_plan.device_limit;
  price = in_plan.price;
  active = in_plan.active;
  created_at = now;
  updated_at = now;
}

abbrev pub basic_plan : Text → Time → Plan
basic_plan id now = record {
  id = id;
  name = bytes "1 Hour Basic";
  duration_minutes = pos 60;
  data_limit_mb = pos 1024;
  speed_down_kbps = pos 3000;
  speed_up_kbps = pos 1000;
  device_limit = pos 1;
  price = half;
  active = true;
  created_at = now;
  updated_at = now;
}

abbrev pub premium_plan : Text → Time → Plan
premium_plan id now = record {
  id = id;
  name = bytes "24 Hour Premium";
  duration_minutes = pos (24 * 60);
  data_limit_mb = pos (5 * 1024);
  speed_down_kbps = pos 10000;
  speed_up_kbps = pos 3000;
  device_limit = pos 1;
  price = two_and_a_half;
  active = true;
  created_at = now;
  updated_at = now;
}

unfoldable pub is_rejected : CreatePlanInput → Bool
is_rejected in_plan =
    is_empty in_plan.name
    || leb_ℤ in_plan.duration_minutes (pos 0)
    || leb_ℤ in_plan.device_limit (pos 0)
    || is_negative in_plan.price

unfoldable pub active_plans : List Plan → List Plan
active_plans plans = filter (λ p. p.active) plans

module _ (env : Env) where
  unfoldable pub seed_new : M (Unit {0})
  unfolding create_plan
  seed_new = do
    now ← now_utc env
    basic_id ← new_uuid env
    premium_id ← new_uuid env
    db (create_plan (basic_plan basic_id now))
    db (create_plan (premium_plan premium_id now))

  unfoldable pub seed_defaults : M (Unit {0})
  unfolding list_plans seed_new
  seed_defaults = do plans ← db list_plans; elim plans [ [] ↦ seed_new | p ∷ ps ↦ return tt ]

  unfoldable pub create_checked_plan : CreatePlanInput → M Plan
  unfolding create_plan is_rejected
  create_checked_plan in_plan = if is_rejected in_plan then fail invalid_input else do
    now ← now_utc env
    id ← new_uuid env
    db (create_plan (plan_of in_plan id now))
    return (plan_of in_plan id now)

unfoldable pub plan_by_id : Text → M Plan
unfolding get_plan
plan_by_id id = do
  found ← db (get_plan id)
  elim found [ none ↦ fail not_found | some plan ↦ return plan ]
