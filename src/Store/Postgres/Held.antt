-- ===== src/Store/Postgres/Held.antt =====
-- A row that an INSERT or an UPDATE of backend/internal/repository/postgres.go has written, and the
-- lookups by a column whose values do not repeat.
use wi_fi_man.Common.{
  Bool, true, false, List, [], ◌∷◌, ◌++◌, Option, some, ◌≡◌, refl, ◌∙◌, ap, Text, OneOf, inl, inr,
  filter, arith,
}
use wi_fi_man.Common.Exec.{Result, ok, ◌>>=◌}
use wi_fi_man.Domain.{Error}
use wi_fi_man.Store.Sql.{Value, value_eq, Driver, Select, insert, update}
use wi_fi_man.Store.Sql.Answer.{
  Row, column, overwrite, update_rows, meets, kept_row, project, IsLawful,
}
use wi_fi_man.Store.Sql.Lookup.{filter-one_perm, filter-last, answer-one}
use wi_fi_man.Store.Postgres.{Ctx, Conn, exec, query}
use wi_fi_man.Store.Postgres.Connection.{seen, on_connection-ok, on_connection-seen}
use wi_fi_man.Store.Postgres.Scan.{Scan, unique_columns, first_row, scan_row}

-- The columns keep these values as they are.
abbrev pub IsKept : (Text → Value → Option Value) → Row → Type 0
IsKept keeps [] = Unit
IsKept keeps ((c, v) ∷ cs) = (keeps c v ≡ some v) × IsKept keeps cs

pub kept_row-kept :
    (keeps : Text → Value → Option Value) (r : Row) → IsKept keeps r → kept_row keeps r ≡ some r
unfolding kept_row
kept_row-kept keeps [] h = refl
kept_row-kept keeps ((c, v) ∷ cs) h = rw (kept_row, h.0, kept_row-kept keeps cs h.1)

-- Only the last row is changed, where no other meets the condition.
pub update_rows-last :
    (p : Row → Bool) (changes : Row) (before : List Row) (r : Row)
    → ((x : Row) → OneOf x before → p x ≡ false)
    → p r ≡ true
    → update_rows p changes (before ++ r ∷ []) ≡ before ++ overwrite r changes ∷ []
unfolding update_rows
update_rows-last p changes [] r h pr = rw pr
update_rows-last p changes (x ∷ xs) r h pr =
    rw (h x (inl refl), update_rows-last p changes xs r (λ y m. h y (inr m)) pr)

module _ {Db : Type 0} (d : Driver Db) (law : IsLawful d unique_columns) where
  -- The context sees a table that ends in this row, and no other row has its value of the column.
  abbrev pub Holds : Ctx → Conn Db → Text → Text → Row → Type 0
  Holds ctx c t col r =
      (db : Db) × (before : List Row) × (seen ctx c ≡ some db)
      × (law.rows db t ≡ before ++ r ∷ [])
      × ((x : Row) → OneOf x before → value_eq (column x col) (column r col) ≡ false)

  pub insert-Holds :
      (ctx : Ctx) (t : Text) (r : Row) (col : Text) (c c' : Conn Db)
      → IsKept (law.keeps t) r
      → exec d ctx (insert t r) c ≡ (ok tt, c')
      → OneOf col (unique_columns t)
      → Holds ctx c' t col r
  unfolding exec
  insert-Holds ctx t r col c c' kept done unique =
      let (db, db', saw, ran, sees) = on_connection-ok d ctx (d.exec (insert t r)) c c' tt done in
      let (r', kr, rows', fresh) = law.insert-rows t r db db' ran in
      let is_r : r' ≡ r = ground (arith, kept_row-kept (law.keeps t) r kept) in
      (db', law.rows db t, sees, rw (rows', is_r), λ x m. ground (arith, fresh col x unique m))

  -- An UPDATE by the column changes this row and no other.
  pub update-Holds :
      (ctx : Ctx) (t : Text) (r changes : Row) (col : Text) (c c' : Conn Db)
      → Holds ctx c t col r
      → IsKept (law.keeps t) changes
      → law.keeps t col (column r col) ≡ some (column r col)
      → value_eq (column r col) (column r col) ≡ true
      → column (overwrite r changes) col ≡ column r col
      → exec d ctx (update t changes col (column r col)) c ≡ (ok tt, c')
      → Holds ctx c' t col (overwrite r changes)
  unfolding exec meets
  update-Holds ctx t r changes col c c' (db, before, saw, held, alone) kept keeps same still done =
      let (db0, db', saw0, ran, sees) =
        on_connection-ok d ctx (d.exec (update t changes col (column r col))) c c' tt done in
      let (r', u, kr, ku, rows') = law.update-rows t changes col (column r col) db0 db' ran in
      let is_r : r' ≡ changes = ground (arith, kept_row-kept (law.keeps t) changes kept) in
      let is_u : u ≡ column r col = ground arith in
      let is_db : db0 ≡ db = ground arith in
      (
        db',
        before,
        sees,
        rows'
            ∙ ap (λ (v : Value). update_rows (meets ((col, v) ∷ [])) r' (law.rows db0 t)) is_u
            ∙ ap (λ (w : Row). update_rows (meets ((col, column r col) ∷ [])) w (law.rows db0 t))
                is_r
            ∙ ap (λ (b : Db). update_rows (meets ((col, column r col) ∷ [])) changes (law.rows b t))
                is_db
            ∙ rw held (
                update_rows-last (meets ((col, column r col) ∷ [])) changes before r
                  (λ x m. rw (alone x m)) (rw same)),
        λ x m. rw still (alone x m),
      )

  -- The query by the value of such a column finds it.
  abbrev pub by : Select → Row → Text → Select
  by s r col = record s { conditions = (col, column r col) ∷ [] }

  pub query-Holds :
      (ctx : Ctx) (s : Select) (r : Row) (col : Text) (c : Conn Db)
      → Holds ctx c s.table col r
      → value_eq (column r col) (column r col) ≡ true
      → law.keeps s.table col (column r col) ≡ some (column r col)
      → (query d ctx (by s r col) c).0 ≡ ok (project s.columns r ∷ [])
  unfolding query meets
  query-Holds ctx s r col c (db, before, sees, held, alone) same keeps =
      let (visited, db', perm, answered, rest) =
        law.query-rows (by s r col) db (by s r col).conditions
          (kept_row-kept (law.keeps s.table) (by s r col).conditions (keeps, tt)) in
      let one : filter (meets (by s r col).conditions) (law.rows db s.table) ≡ r ∷ [] =
        rw held (
          filter-last (meets (by s r col).conditions) before r (λ x m. rw (alone x m)) (rw same)) in
      ap (λ (x : Result Error (List (List Value)) × Conn Db). x.0)
        (on_connection-seen d ctx (d.query (by s r col)) c db sees)
      ∙ ap (λ (x : Result Error (List (List Value)) × Db). x.0) answered
      ∙ ap (λ (x : List (List Value)). ok x)
          (answer-one (by s r col) visited r
            (filter-one_perm (meets (by s r col).conditions) r perm one))

  -- The same for a method that reads the first row of the answer.
  pub first_row-Holds :
      {A : Type 0} (scan : Scan A) (a : A)
      → (ctx : Ctx) (s : Select) (r : Row) (col : Text) (c : Conn Db) → Holds ctx c s.table col r
      → value_eq (column r col) (column r col) ≡ true
      → law.keeps s.table col (column r col) ≡ some (column r col)
      → scan_row scan (project s.columns r) ≡ ok a
      → ((query d ctx (by s r col) >>= first_row scan) c).0 ≡ ok (some a)
  unfolding first_row
  first_row-Holds scan a ctx s r col c holds same keeps reads =
      let q = query-Holds ctx s r col c holds same keeps in ground arith
