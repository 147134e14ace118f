-- ===== src/Store/Postgres.antt =====
-- backend/internal/repository/postgres.go: the connection pool and its transactions. `txCtx` carries
-- the transaction that `WithTx` opens, and every statement runs in it, or else on the pool.
-- The children hold the columns of the tables, the methods, and their theorems.
pub mod Connection
pub mod Scan
pub mod Plans
pub mod Tokens
pub mod Sessions
pub mod Payments
pub mod RoundTrip
pub mod Held
pub mod Found
pub mod Atomic
pub mod Once
use wi_fi_man.Common.{List, [], ◌∷◌, Option, none, some, Text, bytes, is_empty, if◌then◌else◌}
use wi_fi_man.Common.Exec.{Result, ok, err, Exec}
use wi_fi_man.Domain.{Error, message}
use wi_fi_man.Store.Sql.{Value, Statement, Select, Driver}

-- What `txFromContext` finds in a context.
pub data Ctx : Type 0 where
  no_tx in_tx : Ctx

-- The database as the pool sees it, and as the open transaction sees it, if there is one.
pub record Conn (Db : Type 0) : Type 0 where
  pub pool : Db
  pub tx : Option Db

abbrev pub rollback : {Db : Type 0} → Conn Db → Conn Db
rollback c = record c { tx = none }

-- pgx's answer to the use of a transaction that has ended.
abbrev pub tx_closed : Error
tx_closed = message (bytes "tx is closed")

-- `NewPostgresStore`, over what `pgxpool.New` and `Ping` answer.
unfoldable pub new_postgres_store :
    {Db : Type 0} → (Text → Result Error Db) → (Db → Option Error) → Text → Result Error (Conn Db)
new_postgres_store connect ping dsn =
    if is_empty dsn then err (message (bytes "dsn is required")) else elim (connect dsn) [
      | err e ↦ err e
      | ok db ↦ elim (ping db) [ some e ↦ err e | none ↦ ok (record { pool = db; tx = none }) ]
    ]

module _ {Db : Type 0} (d : Driver Db) where
  -- A call that `exec`, `query` and `queryRow` send to the transaction of the context, or to the pool.
  unfoldable pub on_connection : {A : Type 0} → Ctx → Exec Db Error A → Exec (Conn Db) Error A
  on_connection no_tx call c = let (r, db) = call c.pool in (r, record c { pool = db })
  on_connection in_tx call c = elim c.tx [
    | none ↦ (err tx_closed, c)
    | some view ↦ let (r, db) = call view in (r, record c { tx = some db })
  ]

  unfoldable pub exec : Ctx → Statement → Exec (Conn Db) Error (Unit {0})
  unfolding on_connection
  exec ctx statement = on_connection ctx (d.exec statement)

  unfoldable pub query : Ctx → Select → Exec (Conn Db) Error (List (List Value))
  unfolding on_connection
  query ctx select = on_connection ctx (d.query select)

  -- `tx.Commit`, and the deferred `tx.Rollback`, which does nothing once the transaction has ended.
  unfoldable pub commit : Exec (Conn Db) Error (Unit {0})
  commit c = elim c.tx [
    | none ↦ (err tx_closed, c)
    | some view ↦ elim (d.commit c.pool view) [
      | err e ↦ (err e, record c { tx = none })
      | ok db ↦ (ok tt, record { pool = db; tx = none })
    ]
  ]

  module _ {V A : Type 0} where
    -- What follows the body of a transaction.
    unfoldable pub end_tx : Result Error A → Conn Db × V → Result Error A × (Conn Db × V)
    unfolding commit
    end_tx (err e) (c, v) = (err e, (rollback c, v))
    end_tx (ok a) (c, v) =
        let (r, c') = commit c in
        elim r [ err e ↦ (err e, (rollback c', v)) | ok _ ↦ (ok a, (rollback c', v)) ]

    -- `WithTx`. The body may change more than the database: `V` is the rest of the world.
    unfoldable pub with_tx : Ctx → (Ctx → Exec (Conn Db × V) Error A) → Exec (Conn Db × V) Error A
    unfolding end_tx
    with_tx in_tx body w = body in_tx w
    with_tx no_tx body (c, v) = elim (d.begin c.pool) [
      | err e ↦ (err e, (c, v))
      | ok view ↦ let (r, w) = body in_tx (record c { tx = some view }, v) in end_tx r w
    ]
