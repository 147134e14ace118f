-- ===== src/Store/Sql/Answer.antt =====
-- What the documentation of SQL says of the statements that backend/internal/repository/postgres.go
-- sends, over rows as maps from a column's name to its value.
use wi_fi_man.Common.{
  Bool, true, false, ◌&&◌, List, [], ◌∷◌, ◌++◌, map, Option, none, some, Text, filter, take,
  if◌then◌else◌, ◌≡◌, OneOf,
}
use wi_fi_man.Common.Int.{ltb_ℤ}
use wi_fi_man.Common.Dict
use wi_fi_man.Common.Dict.{Dict}
use wi_fi_man.Common.Exec.{ok}
use wi_fi_man.Store.Sql.{
  Value, null, timestamp, value_eq, Order, unordered, ascending, descending, insert, update, Select,
  Driver,
}
use mathlib.Core.List.{Permᴰ}

abbrev pub Row : Type 0
Row = Dict Value

abbrev pub column : Row → Text → Value
column r c = elim (Dict.get r c) [ none ↦ null | some v ↦ v ]

unfoldable pub meets : Dict Value → Row → Bool
meets [] r = true
meets ((c, v) ∷ cs) r = value_eq (column r c) v && meets cs r

-- Whether a time stands before another; only times are ordered by the store's queries.
unfoldable pub earlier : Value → Value → Bool
earlier (timestamp a) (timestamp b) = ltb_ℤ a b
earlier _ _ = false

unfoldable pub comes_before : Order → Row → Row → Bool
comes_before unordered r s = false
comes_before (ascending c) r s = earlier (column r c) (column s c)
comes_before (descending c) r s = earlier (column s c) (column r c)

unfoldable pub insert_row : Order → Row → List Row → List Row
insert_row o r [] = r ∷ []
insert_row o r (s ∷ ss) = if comes_before o s r then s ∷ insert_row o r ss else r ∷ s ∷ ss

unfoldable pub order_rows : Order → List Row → List Row
order_rows o [] = []
order_rows o (r ∷ rs) = insert_row o r (order_rows o rs)

abbrev pub project : List Text → Row → List Value
project cs r = map (column r) cs

-- The answer to a query, over the rows of its table in the order in which the server visits them.
unfoldable pub answer : Select → List Row → List (List Value)
answer s rs =
    let found = order_rows s.order (filter (meets s.conditions) rs) in
    map (project s.columns) (if s.first_only then take 1 found else found)

-- The columns of `changes` replaced.
unfoldable pub overwrite : Row → Row → Row
overwrite r [] = r
overwrite r ((c, v) ∷ cs) = Dict.put (overwrite r cs) c v

unfoldable pub update_rows : (Row → Bool) → Row → List Row → List Row
update_rows p changes [] = []
update_rows p changes (r ∷ rs) =
    let rest = update_rows p changes rs in if p r then overwrite r changes ∷ rest else r ∷ rest

-- The values as the columns keep them: a cast may refuse one, a type may round it.
unfoldable pub kept_row : (Text → Value → Option Value) → Row → Option Row
kept_row keeps [] = some []
kept_row keeps ((c, v) ∷ cs) = elim (keeps c v) [
  | none ↦ none
  | some u ↦ elim (kept_row keeps cs) [ none ↦ none | some r ↦ some ((c, u) ∷ r) ]
]

-- No row of the list has the value of `r` in one of these columns.
abbrev pub IsUnique : List Text → Row → List Row → Type 0
IsUnique cs r rs =
    (c : Text) (s : Row) → OneOf c cs → OneOf s rs → value_eq (column s c) (column r c) ≡ false

-- The documented behaviour of a server that answers its queries, on the statements that succeed. `rows` are the rows of a
-- table, `keeps` says what a column keeps of a value, `unique` are a table's columns without repetition.
pub record IsLawful {Db : Type 0} (d : Driver Db) (unique : Text → List Text) : Type 0 where
  pub rows : Db → Text → List Row
  pub keeps : Text → Text → Value → Option Value
  pub insert-rows :
      (t : Text) (cs : Row) (db db' : Db)
      → d.exec (insert t cs) db ≡ (ok tt, db')
      → (r : Row) × (kept_row (keeps t) cs ≡ some r)
        × (rows db' t ≡ rows db t ++ r ∷ [])
        × IsUnique (unique t) r (rows db t)
  pub update-rows :
      (t : Text) (cs : Row) (k : Text) (v : Value) (db db' : Db)
      → d.exec (update t cs k v) db ≡ (ok tt, db')
      → (r : Row) × (u : Value) × (kept_row (keeps t) cs ≡ some r)
        × (keeps t k v ≡ some u)
        × (rows db' t ≡ update_rows (meets ((k, u) ∷ [])) r (rows db t))
  pub query-rows :
      (s : Select) (db : Db) (conditions : Dict Value)
      → kept_row (keeps s.table) s.conditions ≡ some conditions
      → (visited : List Row) × (db' : Db) × Permᴰ (rows db s.table) visited
        × (d.query s db ≡ (ok (answer (record s { conditions = conditions }) visited), db'))
        × ((t : Text) → rows db' t ≡ rows db t)
  pub begin-sees : (db view : Db) → d.begin db ≡ ok view → view ≡ db
  pub commit-puts : (db view db' : Db) → d.commit db view ≡ ok db' → db' ≡ view
