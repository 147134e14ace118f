-- ===== src/Tests/Postgres.antt =====
-- The PostgreSQL store of backend/internal/repository/postgres.go against the server of Tests/Server.
use wi_fi_man.Common.{
  Bool, true, false, none, some, Text, bytes, if◌then◌else◌, arith, ◌≡◌, refl, ◌==◌,
}
use wi_fi_man.Common.Int.{pos}
use wi_fi_man.Common.Dict
use wi_fi_man.Common.Exec.{Result, ok, err, Exec}
use wi_fi_man.Domain.{
  Token, TokenStatus, Payment, PaymentStatus, Error, Fields, end, field, message, token_expired,
}
use wi_fi_man.Store.Sql.{value_eq, update, text, jsonb}
use wi_fi_man.Store.Postgres.Connection.{on_connection-pool}
use wi_fi_man.Store.Sql.Answer.{kept_row, update_rows, overwrite, meets, answer, order_rows}
use wi_fi_man.Store.Postgres.{Ctx, no_tx, Conn, with_tx, end_tx, commit, exec, query, on_connection}
use wi_fi_man.Store.Postgres.Scan.{
  unique_columns, token_status_text, payment_status_text, first_row,
}
use wi_fi_man.Store.Postgres.Tokens.{
  create_token, update_token, token_changes, get_token_by_id, get_token_by_code_hash,
}
use wi_fi_man.Store.Postgres.Payments.{
  Codec, metadata_argument, get_payment_by_ref, commit_if, insert_payment,
  create_payment_if_absent_tx, create_payment_if_absent,
}
use wi_fi_man.Store.Postgres.Once.{create_payment_once}
use wi_fi_man.Store.Postgres.RoundTrip.{IsInverse}
use wi_fi_man.Store.Postgres.Found.{create_token-get, update_token-get}
use wi_fi_man.Store.Postgres.Atomic.{IsAtomic, with_tx-IsAtomic}
use wi_fi_man.Tests.Fixture.{voucher}
use wi_fi_man.Tests.Server.{Tables, server, empty_conn, law, keeps, clashes_any, run, ask}

abbrev with_voucher : Conn Tables
unfolding create_token exec on_connection run kept_row keeps clashes_any unique_columns ◌==◌ bytes
with_voucher = (create_token server no_tx voucher empty_conn).1

create_token-get_example :
    ((get_token_by_id server no_tx voucher.id with_voucher).0 ≡ ok (some voucher))
    × ((get_token_by_code_hash server no_tx voucher.code_hash with_voucher).0 ≡ ok (some voucher))
unfolding create_token exec on_connection run kept_row keeps clashes_any unique_columns
    token_status_text ◌==◌ bytes
create_token-get_example =
    create_token-get server law no_tx voucher empty_conn with_voucher
      (
        refl,
        (
          refl,
          (
            refl,
            (refl, (refl, (refl, (refl, (refl, (refl, (refl, (refl, (refl, (refl, tt)))))))))),
          ),
        ),
      )
      refl

-- The voucher redeemed: its times are whole microseconds.
abbrev redeemed : Token
redeemed = record voucher {
  status = TokenStatus.active;
  created_at = pos 7000;
  updated_at = pos 5000;
  activated_at = some (pos 5000);
  used_by_device_mac = some (bytes "AA:BB");
}

abbrev after_update : Conn Tables
unfolding with_voucher update_token exec on_connection run kept_row keeps update_rows overwrite
    meets value_eq Dict.get Dict.put ◌==◌ bytes
after_update = (update_token server no_tx redeemed with_voucher).1

update_token-get_example :
    (get_token_by_id server no_tx voucher.id after_update).0
    ≡ ok (some (record redeemed { created_at = pos 0 }))
unfolding create_token update_token exec on_connection run kept_row keeps clashes_any unique_columns
    token_status_text ◌==◌ bytes after_update
update_token-get_example =
    update_token-get server law no_tx voucher redeemed empty_conn with_voucher after_update
      (
        refl,
        (
          refl,
          (
            refl,
            (refl, (refl, (refl, (refl, (refl, (refl, (refl, (refl, (refl, (refl, tt)))))))))),
          ),
        ),
      )
      (
        refl,
        (
          refl,
          (
            refl,
            (refl, (refl, (refl, (refl, (refl, (refl, (refl, (refl, (refl, (refl, tt)))))))))),
          ),
        ),
      )
      refl refl refl

-- A redemption that finds its voucher expired: the change is written, and the error returned.
abbrev expire : Ctx → Exec (Conn Tables × Bool) Error (Unit {0})
unfolding update_token
expire ctx (c, v) =
    let (r, c') = update_token server ctx (record voucher { status = TokenStatus.expired }) c in
    (err token_expired, (c', true))

with_tx-IsAtomic_example : IsAtomic expire with_voucher false (err token_expired) with_voucher true
unfolding create_token update_token exec on_connection run kept_row keeps clashes_any unique_columns
    token_status_text ◌==◌ bytes with_tx end_tx
with_tx-IsAtomic_example =
    with_tx-IsAtomic server law expire with_voucher with_voucher false true (err token_expired)
      (λ w.
        on_connection-pool server
          (run (
            update (bytes "tokens")
              (token_changes (record voucher { status = TokenStatus.expired })) (bytes "id")
              (text voucher.id)))
          w.0)
      refl

abbrev paid_payment : Payment
paid_payment = record {
  id = bytes "p1";
  amount = 0;
  currency = bytes "USD";
  method = bytes "cash";
  transaction_ref = bytes "r1";
  status = PaymentStatus.paid;
  metadata = some end;
  created_at = pos 0;
  updated_at = pos 0;
}

-- A codec that knows the empty object only.
abbrev marshal : Fields → Result Error Text
marshal end = ok (bytes "{}")
marshal (field k v rest) = err (message (bytes "unsupported type"))

abbrev codec : Codec
codec = record { marshal = marshal; unmarshal = λ t. if t == bytes "{}" then some end else none }

codec-IsInverse : IsInverse codec
unfolding ◌==◌ bytes
codec-IsInverse end t h = ground arith
codec-IsInverse (field k v rest) t h = absurd (cc)

abbrev with_payment : Conn Tables
with_payment = (create_payment_if_absent server codec no_tx paid_payment empty_conn).1

create_payment_once_example :
    (create_payment_if_absent server codec no_tx
      (record paid_payment { id = bytes "p2" })
      with_payment).0
    ≡ ok (paid_payment, true)
unfolding create_payment_if_absent create_payment_if_absent_tx insert_payment commit_if commit
    get_payment_by_ref metadata_argument payment_status_text ask answer order_rows exec query
    on_connection run kept_row keeps clashes_any unique_columns first_row ◌==◌ bytes
create_payment_once_example =
    create_payment_once server law codec paid_payment (record paid_payment { id = bytes "p2" })
      paid_payment (jsonb (bytes "{}")) empty_conn with_payment
      ((λ db. (db, refl)), (λ db view. (view, refl))) codec-IsInverse refl
      (refl, (refl, (refl, (refl, (refl, (refl, (refl, (refl, (refl, tt))))))))) refl refl
