-- ===== src/Service/Plan/Checks.antt =====
-- What `CreatePlan` lets in, and the seed of a new installation.
use wi_fi_man.Common.{◌≡◌, ◌↔◌, true, false, none, some, is_empty, arith}
use wi_fi_man.Common.Dict
use wi_fi_man.Common.Dict.{get-put, get-put_self}
use wi_fi_man.Common.Int.{pos, ◌<ℤ◌}
use wi_fi_man.Common.Exec.{ok, err}
use wi_fi_man.Domain.{is_negative, invalid_input}
use wi_fi_man.Store.Memory.{create_plan}
use wi_fi_man.World.{Env, World}
use wi_fi_man.Service.Plan.{CreatePlanInput, plan_of, is_rejected, create_checked_plan}

-- A plan is sold only with a name, a positive duration, a positive number of devices and a price that
-- is not below zero.
abbrev pub IsSellable : CreatePlanInput → Type 0
IsSellable i =
    (is_empty i.name ≡ false)
    × (pos 0 <ℤ i.duration_minutes)
    × (pos 0 <ℤ i.device_limit)
    × (is_negative i.price ≡ false)

is_rejected_iff : (i : CreatePlanInput) → (is_rejected i ≡ false) ↔ IsSellable i
unfolding is_rejected
is_rejected_iff i = ground arith

module _ (env : Env) where
  -- Where the new identifier is free, a plan is stored, under that identifier and with the fields asked
  -- for, exactly when it may be sold; any other request is refused and changes nothing.
  pub create_checked_plan_iff :
      (i : CreatePlanInput) (w : World)
      → Dict.get w.store.plans (env.new_uuid w.uuids) ≡ none
      → (((create_checked_plan env i w).0 ≡ ok (plan_of i (env.new_uuid w.uuids) (env.now w.clock)))
          ↔ IsSellable i)
        × (((create_checked_plan env i w) ≡ (err invalid_input, w)) ↔ (is_rejected i ≡ true))
        × (IsSellable i ↔ (
            Dict.get (create_checked_plan env i w).1.store.plans (env.new_uuid w.uuids)
            ≡ some (plan_of i (env.new_uuid w.uuids) (env.now w.clock))))
  unfolding create_checked_plan create_plan
  create_checked_plan_iff i w free =
      let put =
        get-put_self w.store.plans (env.new_uuid w.uuids)
          (plan_of i (env.new_uuid w.uuids) (env.now w.clock)) in
      ground (arith, is_rejected_iff i, put)
