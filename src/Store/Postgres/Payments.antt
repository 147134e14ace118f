-- ===== src/Store/Postgres/Payments.antt =====
-- The payments and the audit log of backend/internal/repository/postgres.go: the columns that the statements name, the
-- arguments that they bind, the scan that reads a row back, and the methods.
use wi_fi_man.Common.{
  Bool, true, false, List, [], ◌∷◌, Option, none, some, Text, bytes, is_empty, if◌then◌else◌,
}
use wi_fi_man.Common.Dict.{Dict}
use wi_fi_man.Common.Exec.{Result, ok, err, Exec, ◌>>=◌, ◌>>◌, return, fail}
use wi_fi_man.Domain.{Payment, AuditLog, Error, Fields}
use wi_fi_man.Store.Sql.{
  Value, text, float, timestamp, jsonb, null, insert, unordered, descending, Driver, Select, Order,
}
use wi_fi_man.Store.Postgres.{Ctx, no_tx, in_tx, Conn, exec, query, commit, rollback}
use wi_fi_man.Store.Postgres.Scan.{
  Scan, scan_text, scan_float, scan_time, scan_bytes, scan_status, payment_status_of,
  payment_status_text, first_row, all_rows,
}

-- `json.Marshal` of a payment's metadata, and the map that `json.Unmarshal` leaves, its error dropped.
pub record Codec : Type 0 where
  pub marshal : Fields → Result Error Text
  pub unmarshal : Text → Option Fields

abbrev pub payment_columns : List Text
payment_columns =
    bytes "id"
    ∷ bytes "amount"
    ∷ bytes "currency"
    ∷ bytes "method"
    ∷ bytes "transaction_ref"
    ∷ bytes "status"
    ∷ bytes "metadata"
    ∷ bytes "created_at"
    ∷ bytes "updated_at"
    ∷ []

abbrev pub payment_arguments : Payment → Value → Dict Value
payment_arguments p metadata =
    (bytes "id", text p.id)
    ∷ (bytes "amount", float p.amount)
    ∷ (bytes "currency", text p.currency)
    ∷ (bytes "method", text p.method)
    ∷ (bytes "transaction_ref", text p.transaction_ref)
    ∷ (bytes "status", text (payment_status_text p.status))
    ∷ (bytes "metadata", metadata)
    ∷ (bytes "created_at", timestamp p.created_at)
    ∷ (bytes "updated_at", timestamp p.updated_at)
    ∷ []

-- No metadata is NULL.
unfoldable pub metadata_argument : Codec → Option Fields → Result Error Value
metadata_argument codec none = ok null
metadata_argument codec (some fields) = elim (codec.marshal fields) [
  | err e ↦ err e
  | ok t ↦ ok (jsonb t)
]

unfoldable pub scan_payment : Codec → Scan Payment
unfolding scan_text scan_float scan_time scan_bytes scan_status
scan_payment codec = do
  id ← scan_text
  amount ← scan_float
  currency ← scan_text
  method ← scan_text
  transaction_ref ← scan_text
  status ← scan_status payment_status_of
  metadata ← scan_bytes
  created_at ← scan_time
  updated_at ← scan_time
  return (record {
    id = id;
    amount = amount;
    currency = currency;
    method = method;
    transaction_ref = transaction_ref;
    status = status;
    metadata = if is_empty metadata then none else codec.unmarshal metadata;
    created_at = created_at;
    updated_at = updated_at;
  })

abbrev pub payment_query : Dict Value → Order → Select
payment_query conditions order = record {
  columns = payment_columns;
  table = bytes "payments";
  conditions = conditions;
  order = order;
  first_only = false;
  for_update = false;
}

abbrev pub audit_columns : List Text
audit_columns =
    bytes "id"
    ∷ bytes "admin_id"
    ∷ bytes "action"
    ∷ bytes "entity_type"
    ∷ bytes "entity_id"
    ∷ bytes "metadata"
    ∷ bytes "created_at"
    ∷ []

abbrev pub audit_arguments : AuditLog → Dict Value
audit_arguments l =
    (bytes "id", text l.id)
    ∷ (bytes "admin_id", text l.admin_id)
    ∷ (bytes "action", text l.action)
    ∷ (bytes "entity_type", text l.entity_type)
    ∷ (bytes "entity_id", text l.entity_id)
    ∷ (bytes "metadata", text l.metadata)
    ∷ (bytes "created_at", timestamp l.created_at)
    ∷ []

unfoldable pub scan_audit_log : Scan AuditLog
unfolding scan_text scan_time
scan_audit_log = do
  id ← scan_text
  admin_id ← scan_text
  action ← scan_text
  entity_type ← scan_text
  entity_id ← scan_text
  metadata ← scan_text
  created_at ← scan_time
  return (record {
    id = id;
    admin_id = admin_id;
    action = action;
    entity_type = entity_type;
    entity_id = entity_id;
    metadata = metadata;
    created_at = created_at;
  })

module _ {Db : Type 0} (d : Driver Db) (codec : Codec) where
  unfoldable pub get_payment_by_ref : Text → Exec (Conn Db) Error (Option Payment)
  unfolding query first_row scan_payment
  get_payment_by_ref reference = do
    rows ← query d in_tx (payment_query ((bytes "transaction_ref", text reference) ∷ []) unordered)
    first_row (scan_payment codec) rows

  unfoldable pub commit_if : Bool → Exec (Conn Db) Error (Unit {0})
  unfolding commit
  commit_if auto_commit = if auto_commit then commit d else return tt

  unfoldable pub insert_payment : Payment → Bool → Exec (Conn Db) Error (Payment × Bool)
  unfolding exec commit_if metadata_argument
  insert_payment payment auto_commit = elim (metadata_argument codec payment.metadata) [
    | err e ↦ fail e
    | ok metadata ↦ do
      exec d in_tx (insert (bytes "payments") (payment_arguments payment metadata))
      commit_if auto_commit
      return (payment, false)
  ]

  unfoldable pub create_payment_if_absent_tx :
      Payment → Bool → Exec (Conn Db) Error (Payment × Bool)
  unfolding get_payment_by_ref commit_if insert_payment
  create_payment_if_absent_tx payment auto_commit = do
    found ← get_payment_by_ref payment.transaction_ref
    elim found [
      | none ↦ insert_payment payment auto_commit
      | some existing ↦ do commit_if auto_commit; return (existing, true)
    ]

  -- In the caller's transaction, or in one of its own, whose `Rollback` is deferred.
  unfoldable pub create_payment_if_absent : Ctx → Payment → Exec (Conn Db) Error (Payment × Bool)
  unfolding create_payment_if_absent_tx
  create_payment_if_absent in_tx payment c = create_payment_if_absent_tx payment false c
  create_payment_if_absent no_tx payment c = elim (d.begin c.pool) [
    | err e ↦ (err e, c)
    | ok view ↦
        let (r, c') = create_payment_if_absent_tx payment true (record c { tx = some view }) in
        (r, rollback c')
  ]

  unfoldable pub list_payments : Ctx → Exec (Conn Db) Error (List Payment)
  unfolding query all_rows scan_payment
  list_payments ctx = do
    rows ← query d ctx (payment_query [] (descending (bytes "created_at")))
    all_rows (scan_payment codec) rows

module _ {Db : Type 0} (d : Driver Db) where
  unfoldable pub create_audit_log : Ctx → AuditLog → Exec (Conn Db) Error (Unit {0})
  unfolding exec
  create_audit_log ctx log = exec d ctx (insert (bytes "audit_logs") (audit_arguments log))

  unfoldable pub list_audit_logs : Ctx → Exec (Conn Db) Error (List AuditLog)
  unfolding query all_rows scan_audit_log
  list_audit_logs ctx = do
    rows ← query d ctx (record {
      columns = audit_columns;
      table = bytes "audit_logs";
      conditions = [];
      order = descending (bytes "created_at");
      first_only = false;
      for_update = false;
    })
    all_rows scan_audit_log rows
