-- ===== src/Store/Sql.antt =====
-- The statements that backend/internal/repository/postgres.go sends, and what it asks of the driver
-- and of the server, which are not in the repository: a `Driver` answers statements, and `IsLawful`
-- lists the documented behaviour of PostgreSQL that the store relies on.
pub mod Answer
pub mod Lookup
use wi_fi_man.Common.{ℕ, Bool, true, false, ◌&&◌, List, [], ◌∷◌, Option, Text, ◌==◌, nat_eq}
use wi_fi_man.Common.Int.{ℤ, pos, negsuc}
use wi_fi_man.Common.Dict.{Dict}
use wi_fi_man.Common.Exec.{Result, Exec}
use wi_fi_man.Domain.{Time, Float64, Error}

-- An argument of a statement, and a column of a row.
pub data Value : Type 0 where
  null : Value
  text : Text → Value
  int : ℤ → Value
  float : Float64 → Value
  boolean : Bool → Value
  timestamp : Time → Value
  jsonb : Text → Value

unfoldable pub int_eq : ℤ → ℤ → Bool
int_eq (pos m) (pos n) = nat_eq m n
int_eq (negsuc m) (negsuc n) = nat_eq m n
int_eq _ _ = false

-- `a = b` in a WHERE clause: `NULL` equals nothing.
unfoldable pub value_eq : Value → Value → Bool
value_eq (text s) (text t) = s == t
value_eq (int a) (int b) = int_eq a b
value_eq _ _ = false

pub data Order : Type 0 where
  unordered : Order
  ascending : Text → Order
  descending : Text → Order

-- INSERT INTO table (columns) VALUES (arguments), and UPDATE table SET columns WHERE key = argument.
pub data Statement : Type 0 where
  insert : Text → Dict Value → Statement
  update : Text → Dict Value → Text → Value → Statement

-- SELECT columns FROM table WHERE conditions ORDER BY … LIMIT 1 FOR UPDATE.
pub record Select : Type 0 where
  pub columns : List Text
  pub table : Text
  pub conditions : Dict Value
  pub order : Order
  pub first_only : Bool
  pub for_update : Bool

-- pgx: a statement and a query on the database that a connection sees; a transaction's own view of
-- it; and the database after a commit of that view.
pub record Driver (Db : Type 0) : Type 0 where
  pub exec : Statement → Exec Db Error (Unit {0})
  pub query : Select → Exec Db Error (List (List Value))
  pub begin : Db → Result Error Db
  pub commit : Db → Db → Result Error Db
