-- ===== src/Store/Postgres/Plans.antt =====
-- The plans of backend/internal/repository/postgres.go: the columns that the statements name, the
-- arguments that they bind, the scan that reads a row back, and the methods.
use wi_fi_man.Common.{false, List, [], ◌∷◌, Option, Text, bytes}
use wi_fi_man.Common.Dict.{Dict}
use wi_fi_man.Common.Exec.{Exec, ◌>>=◌, return}
use wi_fi_man.Domain.{Plan, Error}
use wi_fi_man.Store.Sql.{
  Value, text, int, float, boolean, timestamp, insert, unordered, ascending, Driver, Select,
}
use wi_fi_man.Store.Postgres.{Ctx, Conn, exec, query}
use wi_fi_man.Store.Postgres.Scan.{
  Scan, scan_text, scan_int, scan_float, scan_boolean, scan_time, first_row, all_rows,
}

abbrev pub plan_columns : List Text
plan_columns =
    bytes "id"
    ∷ bytes "name"
    ∷ bytes "duration_minutes"
    ∷ bytes "data_limit_mb"
    ∷ bytes "speed_down_kbps"
    ∷ bytes "speed_up_kbps"
    ∷ bytes "device_limit"
    ∷ bytes "price"
    ∷ bytes "active"
    ∷ bytes "created_at"
    ∷ bytes "updated_at"
    ∷ []

abbrev pub plan_arguments : Plan → Dict Value
plan_arguments p =
    (bytes "id", text p.id)
    ∷ (bytes "name", text p.name)
    ∷ (bytes "duration_minutes", int p.duration_minutes)
    ∷ (bytes "data_limit_mb", int p.data_limit_mb)
    ∷ (bytes "speed_down_kbps", int p.speed_down_kbps)
    ∷ (bytes "speed_up_kbps", int p.speed_up_kbps)
    ∷ (bytes "device_limit", int p.device_limit)
    ∷ (bytes "price", float p.price)
    ∷ (bytes "active", boolean p.active)
    ∷ (bytes "created_at", timestamp p.created_at)
    ∷ (bytes "updated_at", timestamp p.updated_at)
    ∷ []

unfoldable pub scan_plan : Scan Plan
unfolding scan_text scan_int scan_float scan_boolean scan_time
scan_plan = do
  id ← scan_text
  name ← scan_text
  duration_minutes ← scan_int
  data_limit_mb ← scan_int
  speed_down_kbps ← scan_int
  speed_up_kbps ← scan_int
  device_limit ← scan_int
  price ← scan_float
  is_on ← scan_boolean
  created_at ← scan_time
  updated_at ← scan_time
  return (record {
    id = id;
    name = name;
    duration_minutes = duration_minutes;
    data_limit_mb = data_limit_mb;
    speed_down_kbps = speed_down_kbps;
    speed_up_kbps = speed_up_kbps;
    device_limit = device_limit;
    price = price;
    active = is_on;
    created_at = created_at;
    updated_at = updated_at;
  })

abbrev pub plan_query : Select
plan_query = record {
  columns = plan_columns;
  table = bytes "plans";
  conditions = [];
  order = unordered;
  first_only = false;
  for_update = false;
}

module _ {Db : Type 0} (d : Driver Db) where
  unfoldable pub create_plan : Ctx → Plan → Exec (Conn Db) Error (Unit {0})
  unfolding exec
  create_plan ctx plan = exec d ctx (insert (bytes "plans") (plan_arguments plan))

  unfoldable pub get_plan : Ctx → Text → Exec (Conn Db) Error (Option Plan)
  unfolding query first_row scan_plan
  get_plan ctx id = do
    rows ← query d ctx (record plan_query { conditions = (bytes "id", text id) ∷ [] })
    first_row scan_plan rows

  unfoldable pub list_plans : Ctx → Exec (Conn Db) Error (List Plan)
  unfolding query all_rows scan_plan
  list_plans ctx = do
    rows ← query d ctx (record plan_query { order = ascending (bytes "created_at") })
    all_rows scan_plan rows
