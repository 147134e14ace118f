-- ===== src/Store/Postgres/Tokens.antt =====
-- The vouchers of backend/internal/repository/postgres.go: the columns that the statements name, the
-- arguments that they bind, the scan that reads a row back, and the methods.
use wi_fi_man.Common.{Bool, true, false, List, [], ◌∷◌, Option, Text, bytes}
use wi_fi_man.Common.Dict.{Dict}
use wi_fi_man.Common.Exec.{Exec, ◌>>=◌, return}
use wi_fi_man.Domain.{Token, Error}
use wi_fi_man.Store.Sql.{
  Value, text, timestamp, insert, update, unordered, ascending, Driver, Select,
}
use wi_fi_man.Store.Postgres.{Ctx, Conn, exec, query}
use wi_fi_man.Store.Postgres.Scan.{
  Scan, scan_text, scan_time, scan_text_ptr, scan_time_ptr, scan_text_or_empty, scan_status,
  token_status_of, token_status_text, text_ptr, time_ptr, first_row, all_rows,
}

abbrev pub token_columns : List Text
token_columns =
    bytes "id"
    ∷ bytes "plan_id"
    ∷ bytes "code_hash"
    ∷ bytes "status"
    ∷ bytes "created_at"
    ∷ bytes "updated_at"
    ∷ bytes "activated_at"
    ∷ bytes "expires_at"
    ∷ bytes "used_by_device_mac"
    ∷ bytes "payment_id"
    ∷ bytes "notes"
    ∷ bytes "sold_by_agent_id"
    ∷ bytes "revoked_reason"
    ∷ []

abbrev pub token_arguments : Token → Dict Value
token_arguments t =
    (bytes "id", text t.id)
    ∷ (bytes "plan_id", text t.plan_id)
    ∷ (bytes "code_hash", text t.code_hash)
    ∷ (bytes "status", text (token_status_text t.status))
    ∷ (bytes "created_at", timestamp t.created_at)
    ∷ (bytes "updated_at", timestamp t.updated_at)
    ∷ (bytes "activated_at", time_ptr t.activated_at)
    ∷ (bytes "expires_at", time_ptr t.expires_at)
    ∷ (bytes "used_by_device_mac", text_ptr t.used_by_device_mac)
    ∷ (bytes "payment_id", text_ptr t.payment_id)
    ∷ (bytes "notes", text t.notes)
    ∷ (bytes "sold_by_agent_id", text_ptr t.sold_by_agent_id)
    ∷ (bytes "revoked_reason", text t.revoked_reason)
    ∷ []

-- The columns that `UpdateToken` sets: not the id, and not the time of creation.
abbrev pub token_changes : Token → Dict Value
token_changes t =
    (bytes "plan_id", text t.plan_id)
    ∷ (bytes "code_hash", text t.code_hash)
    ∷ (bytes "status", text (token_status_text t.status))
    ∷ (bytes "updated_at", timestamp t.updated_at)
    ∷ (bytes "activated_at", time_ptr t.activated_at)
    ∷ (bytes "expires_at", time_ptr t.expires_at)
    ∷ (bytes "used_by_device_mac", text_ptr t.used_by_device_mac)
    ∷ (bytes "payment_id", text_ptr t.payment_id)
    ∷ (bytes "notes", text t.notes)
    ∷ (bytes "sold_by_agent_id", text_ptr t.sold_by_agent_id)
    ∷ (bytes "revoked_reason", text t.revoked_reason)
    ∷ []

unfoldable pub scan_token : Scan Token
unfolding scan_text scan_time scan_text_ptr scan_time_ptr scan_text_or_empty scan_status
scan_token = do
  id ← scan_text
  plan_id ← scan_text
  code_hash ← scan_text
  status ← scan_status token_status_of
  created_at ← scan_time
  updated_at ← scan_time
  activated ← scan_time_ptr
  expires ← scan_time_ptr
  used_mac ← scan_text_ptr
  payment_id ← scan_text_ptr
  notes ← scan_text_or_empty
  sold_by ← scan_text_ptr
  revoked_reason ← scan_text_or_empty
  return (record {
    id = id;
    plan_id = plan_id;
    code_hash = code_hash;
    status = status;
    created_at = created_at;
    updated_at = updated_at;
    activated_at = activated;
    expires_at = expires;
    used_by_device_mac = used_mac;
    payment_id = payment_id;
    notes = notes;
    sold_by_agent_id = sold_by;
    revoked_reason = revoked_reason;
  })

-- The columns of a token under a condition.
abbrev pub token_query : Dict Value → Bool → Select
token_query conditions for_update = record {
  columns = token_columns;
  table = bytes "tokens";
  conditions = conditions;
  order = unordered;
  first_only = false;
  for_update = for_update;
}

module _ {Db : Type 0} (d : Driver Db) where
  unfoldable pub create_token : Ctx → Token → Exec (Conn Db) Error (Unit {0})
  unfolding exec
  create_token ctx token = exec d ctx (insert (bytes "tokens") (token_arguments token))

  unfoldable pub get_token_by_id : Ctx → Text → Exec (Conn Db) Error (Option Token)
  unfolding query first_row scan_token
  get_token_by_id ctx id = do
    rows ← query d ctx (token_query ((bytes "id", text id) ∷ []) false)
    first_row scan_token rows

  unfoldable pub get_token_by_code_hash : Ctx → Text → Exec (Conn Db) Error (Option Token)
  unfolding query first_row scan_token
  get_token_by_code_hash ctx code_hash = do
    rows ← query d ctx (token_query ((bytes "code_hash", text code_hash) ∷ []) false)
    first_row scan_token rows

  unfoldable pub get_token_by_code_hash_for_update :
      Ctx → Text → Exec (Conn Db) Error (Option Token)
  unfolding query first_row scan_token
  get_token_by_code_hash_for_update ctx code_hash = do
    rows ← query d ctx (token_query ((bytes "code_hash", text code_hash) ∷ []) true)
    first_row scan_token rows

  unfoldable pub update_token : Ctx → Token → Exec (Conn Db) Error (Unit {0})
  unfolding exec
  update_token ctx token =
      exec d ctx (update (bytes "tokens") (token_changes token) (bytes "id") (text token.id))

  unfoldable pub list_tokens : Ctx → Exec (Conn Db) Error (List Token)
  unfolding query all_rows scan_token
  list_tokens ctx = do
    rows ← query d ctx (record (token_query [] false) { order = ascending (bytes "created_at") })
    all_rows scan_token rows
