-- ===== src/Store/Postgres/Sessions.antt =====
-- The sessions and the usage records of backend/internal/repository/postgres.go: the columns that the statements name, the
-- arguments that they bind, the scan that reads a row back, and the methods.
use wi_fi_man.Common.{Bool, true, false, List, [], ◌∷◌, Option, Text, bytes}
use wi_fi_man.Common.Dict.{Dict}
use wi_fi_man.Common.Exec.{Exec, ◌>>=◌, return}
use wi_fi_man.Domain.{Session, UsageRecord, Error}
use wi_fi_man.Store.Sql.{
  Value, text, int, boolean, timestamp, insert, update, unordered, descending, Driver, Select,
  Order,
}
use wi_fi_man.Store.Postgres.{Ctx, Conn, exec, query}
use wi_fi_man.Store.Postgres.Scan.{
  Scan, scan_text, scan_int, scan_boolean, scan_time, scan_time_ptr, scan_text_or_empty,
  scan_status, session_status_of, session_status_text, time_ptr, first_row, all_rows,
}

abbrev pub session_columns : List Text
session_columns =
    bytes "id"
    ∷ bytes "token_id"
    ∷ bytes "device_mac"
    ∷ bytes "ip_address"
    ∷ bytes "gateway_id"
    ∷ bytes "radius_session_id"
    ∷ bytes "nas_ip"
    ∷ bytes "nas_identifier"
    ∷ bytes "disconnect_pending"
    ∷ bytes "started_at"
    ∷ bytes "ended_at"
    ∷ bytes "bytes_up"
    ∷ bytes "bytes_down"
    ∷ bytes "status"
    ∷ bytes "end_reason"
    ∷ []

abbrev pub session_arguments : Session → Dict Value
session_arguments s =
    (bytes "id", text s.id)
    ∷ (bytes "token_id", text s.token_id)
    ∷ (bytes "device_mac", text s.device_mac)
    ∷ (bytes "ip_address", text s.ip_address)
    ∷ (bytes "gateway_id", text s.gateway_id)
    ∷ (bytes "radius_session_id", text s.radius_session_id)
    ∷ (bytes "nas_ip", text s.nas_ip)
    ∷ (bytes "nas_identifier", text s.nas_identifier)
    ∷ (bytes "disconnect_pending", boolean s.disconnect_pending)
    ∷ (bytes "started_at", timestamp s.started_at)
    ∷ (bytes "ended_at", time_ptr s.ended_at)
    ∷ (bytes "bytes_up", int s.bytes_up)
    ∷ (bytes "bytes_down", int s.bytes_down)
    ∷ (bytes "status", text (session_status_text s.status))
    ∷ (bytes "end_reason", text s.end_reason)
    ∷ []

-- The columns that `UpdateSession` sets: all but the id.
abbrev pub session_changes : Session → Dict Value
session_changes s =
    (bytes "token_id", text s.token_id)
    ∷ (bytes "device_mac", text s.device_mac)
    ∷ (bytes "ip_address", text s.ip_address)
    ∷ (bytes "gateway_id", text s.gateway_id)
    ∷ (bytes "radius_session_id", text s.radius_session_id)
    ∷ (bytes "nas_ip", text s.nas_ip)
    ∷ (bytes "nas_identifier", text s.nas_identifier)
    ∷ (bytes "disconnect_pending", boolean s.disconnect_pending)
    ∷ (bytes "started_at", timestamp s.started_at)
    ∷ (bytes "ended_at", time_ptr s.ended_at)
    ∷ (bytes "bytes_up", int s.bytes_up)
    ∷ (bytes "bytes_down", int s.bytes_down)
    ∷ (bytes "status", text (session_status_text s.status))
    ∷ (bytes "end_reason", text s.end_reason)
    ∷ []

unfoldable pub scan_session : Scan Session
unfolding scan_text scan_int scan_boolean scan_time scan_time_ptr scan_text_or_empty scan_status
scan_session = do
  id ← scan_text
  token_id ← scan_text
  device_mac ← scan_text
  ip_address ← scan_text
  gateway_id ← scan_text
  radius_session_id ← scan_text_or_empty
  nas_ip ← scan_text_or_empty
  nas_identifier ← scan_text_or_empty
  disconnect_pending ← scan_boolean
  started_at ← scan_time
  ended_time ← scan_time_ptr
  bytes_up ← scan_int
  bytes_down ← scan_int
  status ← scan_status session_status_of
  end_reason ← scan_text_or_empty
  return (record {
    id = id;
    token_id = token_id;
    device_mac = device_mac;
    ip_address = ip_address;
    gateway_id = gateway_id;
    radius_session_id = radius_session_id;
    nas_ip = nas_ip;
    nas_identifier = nas_identifier;
    disconnect_pending = disconnect_pending;
    started_at = started_at;
    ended_at = ended_time;
    bytes_up = bytes_up;
    bytes_down = bytes_down;
    status = status;
    end_reason = end_reason;
  })

abbrev pub session_query : Dict Value → Order → Bool → Select
session_query conditions order first_only = record {
  columns = session_columns;
  table = bytes "sessions";
  conditions = conditions;
  order = order;
  first_only = first_only;
  for_update = false;
}

abbrev pub usage_arguments : UsageRecord → Dict Value
usage_arguments u =
    (bytes "id", text u.id)
    ∷ (bytes "session_id", text u.session_id)
    ∷ (bytes "token_id", text u.token_id)
    ∷ (bytes "bytes_up", int u.bytes_up)
    ∷ (bytes "bytes_down", int u.bytes_down)
    ∷ (bytes "created_at", timestamp u.created_at)
    ∷ []

module _ {Db : Type 0} (d : Driver Db) where
  unfoldable pub create_session : Ctx → Session → Exec (Conn Db) Error (Unit {0})
  unfolding exec
  create_session ctx session = exec d ctx (insert (bytes "sessions") (session_arguments session))

  unfoldable pub get_session_by_id : Ctx → Text → Exec (Conn Db) Error (Option Session)
  unfolding query first_row scan_session
  get_session_by_id ctx id = do
    rows ← query d ctx (session_query ((bytes "id", text id) ∷ []) unordered false)
    first_row scan_session rows

  unfoldable pub get_session_by_radius : Ctx → Text → Text → Exec (Conn Db) Error (Option Session)
  unfolding query first_row scan_session
  get_session_by_radius ctx radius_session_id nas_ip = do
    rows ← query d ctx (
        session_query
          ((bytes "radius_session_id", text radius_session_id) ∷ (bytes "nas_ip", text nas_ip) ∷ [])
          (descending (bytes "started_at")) true)
    first_row scan_session rows

  unfoldable pub get_active_session_by_token : Ctx → Text → Exec (Conn Db) Error (Option Session)
  unfolding query first_row scan_session
  get_active_session_by_token ctx token_id = do
    rows ← query d ctx (
        session_query
          ((bytes "token_id", text token_id) ∷ (bytes "status", text (bytes "active")) ∷ [])
          (descending (bytes "started_at")) true)
    first_row scan_session rows

  unfoldable pub update_session : Ctx → Session → Exec (Conn Db) Error (Unit {0})
  unfolding exec
  update_session ctx session =
      exec d ctx
        (update (bytes "sessions") (session_changes session) (bytes "id") (text session.id))

  unfoldable pub list_active_sessions : Ctx → Exec (Conn Db) Error (List Session)
  unfolding query all_rows scan_session
  list_active_sessions ctx = do
    rows ← query d ctx (
        session_query ((bytes "status", text (bytes "active")) ∷ [])
          (descending (bytes "started_at")) false)
    all_rows scan_session rows

  unfoldable pub create_usage_record : Ctx → UsageRecord → Exec (Conn Db) Error (Unit {0})
  unfolding exec
  create_usage_record ctx usage =
      exec d ctx (insert (bytes "usage_records") (usage_arguments usage))
