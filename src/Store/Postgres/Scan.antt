-- ===== src/Store/Postgres/Scan.antt =====
-- How backend/internal/repository/postgres.go reads the columns of a row: what `Scan` does with its
-- destinations, `pgTextPtr`, `pgTimePtr`, and the statuses of the enum types of backend/migrations.
use wi_fi_man.Common.{Bool, List, [], ◌∷◌, Option, none, some, Text, bytes, ◌==◌, if◌then◌else◌}
use wi_fi_man.Common.Int.{ℤ}
use wi_fi_man.Common.Exec.{Result, ok, err, Exec, ◌>>=◌, return, fail}
use wi_fi_man.Domain.{Time, Float64, TokenStatus, SessionStatus, PaymentStatus, Error, message}
use wi_fi_man.Store.Sql.{Value, null, text, int, float, boolean, timestamp, jsonb}

-- PRIMARY KEY and UNIQUE of the migrations.
unfoldable pub unique_columns : Text → List Text
unique_columns table =
    if table == bytes "tokens"
    then bytes "id" ∷ bytes "code_hash" ∷ []
    else if table == bytes "payments"
    then bytes "id" ∷ bytes "transaction_ref" ∷ []
    else bytes "id" ∷ []

-- `string(status)` and the conversion back. A status that is none of these is not in the enum type.
unfoldable pub token_status_text : TokenStatus → Text
token_status_text TokenStatus.created = bytes "created"
token_status_text TokenStatus.unused = bytes "unused"
token_status_text TokenStatus.active = bytes "active"
token_status_text TokenStatus.expired = bytes "expired"
token_status_text TokenStatus.consumed = bytes "consumed"
token_status_text TokenStatus.revoked = bytes "revoked"

unfoldable pub session_status_text : SessionStatus → Text
session_status_text SessionStatus.active = bytes "active"
session_status_text SessionStatus.ended = bytes "ended"

unfoldable pub payment_status_text : PaymentStatus → Text
payment_status_text PaymentStatus.pending = bytes "pending"
payment_status_text PaymentStatus.paid = bytes "paid"
payment_status_text PaymentStatus.failed = bytes "failed"

abbrev pub scan_error : Error
scan_error = message (bytes "can't scan into dest")

-- `row.Scan` takes the columns one by one.
abbrev pub Scan : Type 0 → Type 0
Scan A = Exec (List Value) Error A

unfoldable pub scan_text : Scan Text
scan_text (text t ∷ vs) = (ok t, vs)
scan_text vs = (err scan_error, vs)

unfoldable pub scan_int : Scan ℤ
scan_int (int z ∷ vs) = (ok z, vs)
scan_int vs = (err scan_error, vs)

unfoldable pub scan_float : Scan Float64
scan_float (float x ∷ vs) = (ok x, vs)
scan_float vs = (err scan_error, vs)

unfoldable pub scan_boolean : Scan Bool
scan_boolean (boolean b ∷ vs) = (ok b, vs)
scan_boolean vs = (err scan_error, vs)

unfoldable pub scan_time : Scan Time
scan_time (timestamp t ∷ vs) = (ok t, vs)
scan_time vs = (err scan_error, vs)

-- `pgtype.Text` and `pgTextPtr`.
unfoldable pub scan_text_ptr : Scan (Option Text)
scan_text_ptr (null ∷ vs) = (ok none, vs)
scan_text_ptr (text t ∷ vs) = (ok (some t), vs)
scan_text_ptr vs = (err scan_error, vs)

-- `pgtype.Timestamptz` and `pgTimePtr`.
unfoldable pub scan_time_ptr : Scan (Option Time)
scan_time_ptr (null ∷ vs) = (ok none, vs)
scan_time_ptr (timestamp t ∷ vs) = (ok (some t), vs)
scan_time_ptr vs = (err scan_error, vs)

-- `if v.Valid { out = v.String }`.
unfoldable pub scan_text_or_empty : Scan Text
scan_text_or_empty (null ∷ vs) = (ok [], vs)
scan_text_or_empty (text t ∷ vs) = (ok t, vs)
scan_text_or_empty vs = (err scan_error, vs)

unfoldable pub scan_bytes : Scan Text
scan_bytes (null ∷ vs) = (ok [], vs)
scan_bytes (jsonb t ∷ vs) = (ok t, vs)
scan_bytes vs = (err scan_error, vs)

unfoldable pub token_status_of : Text → Option TokenStatus
token_status_of s =
    if s == bytes "created"
    then some TokenStatus.created
    else if s == bytes "unused"
    then some TokenStatus.unused
    else if s == bytes "active"
    then some TokenStatus.active
    else if s == bytes "expired"
    then some TokenStatus.expired
    else if s == bytes "consumed"
    then some TokenStatus.consumed
    else if s == bytes "revoked"
    then some TokenStatus.revoked
    else none

unfoldable pub session_status_of : Text → Option SessionStatus
session_status_of s =
    if s == bytes "active"
    then some SessionStatus.active
    else if s == bytes "ended"
    then some SessionStatus.ended
    else none

unfoldable pub payment_status_of : Text → Option PaymentStatus
payment_status_of s =
    if s == bytes "pending"
    then some PaymentStatus.pending
    else if s == bytes "paid"
    then some PaymentStatus.paid
    else if s == bytes "failed"
    then some PaymentStatus.failed
    else none

unfoldable pub scan_status : {A : Type 0} → (Text → Option A) → Scan A
unfolding scan_text
scan_status status_of = do
  s ← scan_text
  elim (status_of s) [ none ↦ fail scan_error | some a ↦ return a ]

abbrev all_read : {A : Type 0} → Result Error A × List Value → Result Error A
all_read (err e, rest) = err e
all_read (ok a, []) = ok a
all_read (ok a, v ∷ rest) = err scan_error

-- `Scan` with its destinations: no column may be left.
unfoldable pub scan_row : {A : Type 0} → Scan A → List Value → Result Error A
scan_row scan vs = all_read (scan vs)

-- An argument that is a pointer: `nil` is NULL.
abbrev pub text_ptr : Option Text → Value
text_ptr none = null
text_ptr (some t) = text t

abbrev pub time_ptr : Option Time → Value
time_ptr none = null
time_ptr (some t) = timestamp t

-- `queryRow(…).Scan(…)`: the first row, or `pgx.ErrNoRows`, which the callers turn into `false`.
unfoldable pub first_row : {W A : Type 0} → Scan A → List (List Value) → Exec W Error (Option A)
unfolding scan_row
first_row scan [] w = (ok none, w)
first_row scan (r ∷ rs) w = elim (scan_row scan r) [ ok a ↦ (ok (some a), w) | err e ↦ (err e, w) ]

unfoldable pub scan_rows : {A : Type 0} → Scan A → List (List Value) → Result Error (List A)
unfolding scan_row
scan_rows scan [] = ok []
scan_rows scan (r ∷ rs) =
    let rest = scan_rows scan rs in
    elim (scan_row scan r) [
      | err e ↦ err e
      | ok a ↦ elim rest [ err e ↦ err e | ok as_read ↦ ok (a ∷ as_read) ]
    ]

-- `for rows.Next()`: every row, until one cannot be read.
unfoldable pub all_rows : {W A : Type 0} → Scan A → List (List Value) → Exec W Error (List A)
unfolding scan_rows
all_rows scan rs w = (scan_rows scan rs, w)
