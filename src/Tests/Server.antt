-- ===== src/Tests/Server.antt =====
-- A server for the tests of backend/internal/repository/postgres.go: tables as lists of rows, times
-- to the microsecond, no empty identifiers, and the unique columns of the migrations.
use wi_fi_man.Common.{
  ◌*◌, ◌/◌, Bool, false, ◌||◌, ◌&&◌, List, [], ◌∷◌, ◌++◌, Option, none, some, Text, bytes, ◌==◌,
  is_empty, ◌≡◌, refl, if◌then◌else◌, Option-cases, Bool-cases, inl, inr, arith, OneOf, eq_refl, ap,
  ◌∙◌,
}
use wi_fi_man.Common.Int.{pos}
use wi_fi_man.Common.Dict.{Dict}
use wi_fi_man.Common.Exec.{Result, ok, err}
use wi_fi_man.Domain.{Error, message}
use wi_fi_man.Store.Sql.{
  Value, text, timestamp, value_eq, Statement, insert, update, Select, Driver,
}
use wi_fi_man.Store.Sql.Answer.{
  Row, column, meets, kept_row, update_rows, answer, IsUnique, IsLawful,
}
use wi_fi_man.Store.Postgres.{Conn}
use wi_fi_man.Store.Postgres.Scan.{unique_columns}
use mathlib.Core.List.Permᴰ

abbrev pub Tables : Type 0
Tables = Text → List Row

unfoldable pub keeps : Text → Text → Value → Option Value
keeps t c (timestamp (pos n)) = some (timestamp (pos (n / 1000 * 1000)))
keeps t c (text s) = if is_empty s && c == bytes "id" then none else some (text s)
keeps t c v = some v

unfoldable pub clashes : List Text → Row → Row → Bool
clashes [] r s = false
clashes (c ∷ cs) r s = let rest = clashes cs r s in value_eq (column s c) (column r c) || rest

unfoldable pub clashes_any : List Text → Row → List Row → Bool
clashes_any cs r [] = false
clashes_any cs r (s ∷ ss) = let rest = clashes_any cs r ss in clashes cs r s || rest

abbrev pub put_rows : Tables → Text → List Row → Tables
put_rows db t rs u = if u == t then rs else db u

unfoldable pub run : Statement → Tables → Result Error (Unit {0}) × Tables
run (insert t cs) db = elim (kept_row (keeps t) cs) [
  | none ↦ (err (message (bytes "invalid input syntax")), db)
  | some r ↦
      if clashes_any (unique_columns t) r (db t)
      then (err (message (bytes "duplicate key")), db)
      else (ok tt, put_rows db t (db t ++ r ∷ []))
]
run (update t cs k v) db = elim (kept_row (keeps t) cs) [
  | none ↦ (err (message (bytes "invalid input syntax")), db)
  | some r ↦ elim (keeps t k v) [
    | none ↦ (err (message (bytes "invalid input syntax")), db)
    | some u ↦ (ok tt, put_rows db t (update_rows (meets ((k, u) ∷ [])) r (db t)))
  ]
]

unfoldable pub ask : Select → Tables → Result Error (List (List Value)) × Tables
ask s db = elim (kept_row (keeps s.table) s.conditions) [
  | none ↦ (err (message (bytes "invalid input syntax")), db)
  | some conditions ↦ (ok (answer (record s { conditions = conditions }) (db s.table)), db)
]

abbrev pub server : Driver Tables
server = record { exec = run; query = ask; begin = λ db. ok db; commit = λ db view. ok view }

abbrev pub empty_conn : Conn Tables
empty_conn = record { pool = λ t. []; tx = none }

clashes-false :
    (cs : List Text) (r s : Row) (c : Text)
    → clashes cs r s ≡ false
    → OneOf c cs
    → value_eq (column s c) (column r c) ≡ false
unfolding clashes
clashes-false [] r s c h m = absurd m
clashes-false (k ∷ cs) r s c h (inl e) = ground arith
clashes-false (k ∷ cs) r s c h (inr m) = ground (arith, clashes-false cs r s c)

clashes_any-false :
    (cs : List Text) (r : Row) (rs : List Row) → clashes_any cs r rs ≡ false → IsUnique cs r rs
unfolding clashes_any
clashes_any-false cs r [] h c s mc ms = absurd ms
clashes_any-false cs r (x ∷ rs) h c s mc (inl e) = rw e (clashes-false cs r x c (ground arith) mc)
clashes_any-false cs r (x ∷ rs) h c s mc (inr ms) =
    clashes_any-false cs r rs (ground arith) c s mc ms

put_rows-same : (db : Tables) (t : Text) (rs : List Row) → put_rows db t rs t ≡ rs
put_rows-same db t rs = rw (eq_refl t)

pub inserted :
    (t : Text) (cs : Row) (db db' : Tables)
    → run (insert t cs) db ≡ (ok tt, db')
    → (r : Row) × (kept_row (keeps t) cs ≡ some r)
      × (db' t ≡ db t ++ r ∷ [])
      × IsUnique (unique_columns t) r (db t)
unfolding run
inserted t cs db db' h = elim (Option-cases (kept_row (keeps t) cs)) [
  | inl e ↦ absurd (ground arith)
  | inr (r, e) ↦ elim (Bool-cases (clashes_any (unique_columns t) r (db t))) [
    | inl n ↦ absurd (ground arith)
    | inr n ↦
        let now : db' ≡ put_rows db t (db t ++ r ∷ []) = ground arith in
        (
          r,
          e,
          ap (λ (f : Tables). f t) now ∙ put_rows-same db t (db t ++ r ∷ []),
          clashes_any-false (unique_columns t) r (db t) n,
        )
  ]
]

pub updated :
    (t : Text) (cs : Row) (k : Text) (v : Value) (db db' : Tables)
    → run (update t cs k v) db ≡ (ok tt, db')
    → (r : Row) × (u : Value) × (kept_row (keeps t) cs ≡ some r)
      × (keeps t k v ≡ some u)
      × (db' t ≡ update_rows (meets ((k, u) ∷ [])) r (db t))
unfolding run
updated t cs k v db db' h = elim (Option-cases (kept_row (keeps t) cs)) [
  | inl e ↦ absurd (ground arith)
  | inr (r, e) ↦ elim (Option-cases (keeps t k v)) [
    | inl n ↦ absurd (ground arith)
    | inr (u, n) ↦
        let rows = update_rows (meets ((k, u) ∷ [])) r (db t) in
        let now : db' ≡ put_rows db t rows = ground arith in
        (r, u, e, n, ap (λ (f : Tables). f t) now ∙ put_rows-same db t rows)
  ]
]

pub asked :
    (s : Select) (db : Tables) (conditions : Dict Value)
    → kept_row (keeps s.table) s.conditions ≡ some conditions
    → ask s db ≡ (ok (answer (record s { conditions = conditions }) (db s.table)), db)
unfolding ask
asked s db conditions h = ground arith

abbrev pub answered : Tables → Result Error Tables
answered db = ok db

pub seen_in : (a b : Tables) → answered a ≡ answered b → b ≡ a
seen_in a b h = ground arith

abbrev pub law : IsLawful server unique_columns
law = record {
  rows = λ db t. db t;
  keeps = keeps;
  insert-rows = inserted;
  update-rows = updated;
  query-rows = λ s db conditions h.
      (db s.table, db, Permᴰ.refl (db s.table), asked s db conditions h, λ t. refl);
  begin-sees = λ db view h. seen_in db view h;
  commit-puts = λ db view db' h. seen_in view db' h;
}
