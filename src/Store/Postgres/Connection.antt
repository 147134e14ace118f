-- ===== src/Store/Postgres/Connection.antt =====
-- Statements on a connection: the transaction of the context sees them, or the pool, and no other.
use wi_fi_man.Common.{Option, some, ◌≡◌, refl, Option-cases, inl, inr, arith}
use wi_fi_man.Common.Exec.{Exec, ok}
use wi_fi_man.Domain.{Error}
use wi_fi_man.Store.Sql.{Driver}
use wi_fi_man.Store.Postgres.{Ctx, no_tx, in_tx, Conn, on_connection}

module _ {Db : Type 0} where
  -- The database that a context's statements see, and the connection after they changed it.
  abbrev pub seen : Ctx → Conn Db → Option Db
  seen no_tx c = some c.pool
  seen in_tx c = c.tx

  abbrev pub put_back : Ctx → Db → Conn Db → Conn Db
  put_back no_tx db c = record c { pool = db }
  put_back in_tx db c = record c { tx = some db }

  module _ (d : Driver Db) {A : Type 0} where
    pub on_connection-seen :
        (ctx : Ctx) (call : Exec Db Error A) (c : Conn Db) (db : Db)
        → seen ctx c ≡ some db
        → on_connection d ctx call c ≡ ((call db).0, put_back ctx (call db).1 c)
    unfolding on_connection
    on_connection-seen no_tx call c db h = ground arith
    on_connection-seen in_tx call c db h = rw h

    -- An answer without an error was the database's.
    pub on_connection-ok :
        (ctx : Ctx) (call : Exec Db Error A) (c c' : Conn Db) (a : A)
        → on_connection d ctx call c ≡ (ok a, c')
        → (db db' : Db) × (seen ctx c ≡ some db)
          × (call db ≡ (ok a, db'))
          × (seen ctx c' ≡ some db')
    unfolding on_connection
    on_connection-ok no_tx call c c' a h =
        (c.pool, (call c.pool).1, refl, ground arith, ground arith)
    on_connection-ok in_tx call c c' a h = elim (Option-cases c.tx) [
      | inl e ↦ absurd (ground arith)
      | inr (db, e) ↦ (db, (call db).1, e, ground arith, ground arith)
    ]

  -- Statements in a transaction do not touch the pool.
  pub on_connection-pool :
      {A : Type 0} (d : Driver Db) (call : Exec Db Error A) (c : Conn Db)
      → (on_connection d in_tx call c).1.pool ≡ c.pool
  unfolding on_connection
  on_connection-pool d call c = elim (Option-cases c.tx) [
    | inl e ↦ ground arith
    | inr (db, e) ↦ ground arith
  ]

  pub seen-put_back : (ctx : Ctx) (db : Db) (c : Conn Db) → seen ctx (put_back ctx db c) ≡ some db
  seen-put_back no_tx db c = refl
  seen-put_back in_tx db c = refl
