-- ===== src/Store/Postgres/Once.antt =====
-- `CreatePaymentIfAbsent` of backend/internal/repository/postgres.go in its own transaction: a
-- payment is stored once under its reference.
use wi_fi_man.Common.{
  Bool, true, false, Option, some, List, [], ◌∷◌, ◌≡◌, refl, sym, ◌∙◌, ap, Text, bytes, ◌==◌,
  Option-cases, inl, inr, arith, eq_refl,
}
use wi_fi_man.Common.Dict
use wi_fi_man.Common.Exec.{ok, Result-cases, outcome}
use wi_fi_man.Domain.{Payment}
use wi_fi_man.Store.Sql.{Driver, Value, text, value_eq, insert, unordered}
use wi_fi_man.Store.Sql.Answer.{IsLawful}
use wi_fi_man.Store.Postgres.{no_tx, in_tx, Conn, commit, rollback, exec, query, on_connection}
use wi_fi_man.Store.Postgres.Connection.{on_connection-ok}
use wi_fi_man.Store.Postgres.Scan.{Scan, unique_columns, first_row, scan_row}
use wi_fi_man.Store.Postgres.Payments.{
  Codec, metadata_argument, payment_arguments, payment_query, scan_payment, get_payment_by_ref,
  commit_if, insert_payment, create_payment_if_absent_tx, create_payment_if_absent,
}
use wi_fi_man.Store.Postgres.RoundTrip.{IsInverse, scan_payment-project}
use wi_fi_man.Store.Postgres.Held.{IsKept, Holds, insert-Holds, first_row-Holds}
use wi_fi_man.Store.Postgres.Atomic.{commit-ok}

first_row-state :
    {W A : Type 0} (scan : Scan A) (rs : List (List Value)) (w : W) → (first_row scan rs w).1 ≡ w
unfolding first_row
first_row-state scan [] w = refl
first_row-state scan (r ∷ rs) w = elim (Result-cases (scan_row scan r)) [
  | inl (a, e) ↦ ground arith
  | inr (x, e) ↦ ground arith
]

module _ {Db : Type 0} (d : Driver Db) (codec : Codec) where
  insert_payment_ok :
      (p q : Payment) (b : Bool) (c c' : Conn Db)
      → insert_payment d codec p true c ≡ (ok (q, b), c')
      → (m : Value) × (c1 : Conn Db) × (metadata_argument codec p.metadata ≡ ok m)
        × (exec d in_tx (insert (bytes "payments") (payment_arguments p m)) c ≡ (ok tt, c1))
        × (commit d c1 ≡ (ok tt, c'))
        × (q ≡ p)
  unfolding insert_payment commit_if
  insert_payment_ok p q b c c' h = elim (Result-cases (metadata_argument codec p.metadata)) [
    | inr (x, e) ↦ absurd (ground arith)
    | inl (m, e) ↦
        elim (outcome (exec d in_tx (insert (bytes "payments") (payment_arguments p m)) c)) [
          | inr (x, c1, n) ↦ absurd (ground arith)
          | inl (u, c1, n) ↦ elim (outcome (commit d c1)) [
            | inr (x, c2, k) ↦ absurd (ground arith)
            | inl (w, c2, k) ↦ (m, c1, e, n, ground arith, ground arith)
          ]
        ]
  ]

  -- A transaction on the pool that ended well: what it saw of the database, and its commit.
  create_in_own :
      (p q : Payment) (b : Bool) (c c' : Conn Db)
      → create_payment_if_absent d codec no_tx p c ≡ (ok (q, b), c')
      → (view : Db) × (c1 : Conn Db) × (create_payment_if_absent_tx d codec p true
            (record c { tx = some view })
          ≡ (ok (q, b), c1))
        × (c' ≡ rollback c1)
  unfolding create_payment_if_absent
  create_in_own p q b c c' h = elim (Result-cases (d.begin c.pool)) [
    | inr (x, e) ↦ absurd (ground arith)
    | inl (view, e) ↦ (
      view,
      (create_payment_if_absent_tx d codec p true (record c { tx = some view })).1,
      ground arith,
      ground arith,
    )
  ]

  -- The new payment was not there, and was inserted.
  create_new :
      (p q : Payment) (c c' : Conn Db)
      → create_payment_if_absent_tx d codec p true c ≡ (ok (q, false), c')
      → (c1 : Conn Db) × (insert_payment d codec p true c1 ≡ (ok (q, false), c'))
  unfolding create_payment_if_absent_tx commit_if
  create_new p q c c' h = elim (outcome (get_payment_by_ref d codec p.transaction_ref c)) [
    | inr (x, c1, e) ↦ absurd (ground arith)
    | inl (found, c1, e) ↦ elim (Option-cases found) [
      | inl n ↦ (c1, ground arith)
      | inr (old, n) ↦ elim (outcome (commit d c1)) [
        | inl (u, c2, k) ↦ absurd (ground arith)
        | inr (x, c2, k) ↦ absurd (ground arith)
      ]
    ]
  ]

module _ {Db : Type 0} (d : Driver Db) (law : IsLawful d unique_columns) (codec : Codec) where
  -- After the commit the pool holds the payment under its reference.
  create-Holds :
      (p q : Payment) (m : Value) (c c' : Conn Db)
      → metadata_argument codec p.metadata ≡ ok m
      → IsKept (law.keeps (bytes "payments")) (payment_arguments p m)
      → create_payment_if_absent d codec no_tx p c ≡ (ok (q, false), c')
      → Holds d law no_tx c' (bytes "payments") (bytes "transaction_ref") (payment_arguments p m)
        × (q ≡ p)
  unfolding unique_columns ◌==◌ bytes
  create-Holds p q m c c' marshalled kept done =
      let (view, c1, created, ended) = create_in_own d codec p q false c c' done in
      let (c2, inserted) = create_new d codec p q (record c { tx = some view }) c1 created in
      let (m', c3, is_m', ran, put, same) = insert_payment_ok d codec p q false c2 c1 inserted in
      let is_m : m ≡ m' = ground arith in
      let (db, before, sees, rows, alone) =
        insert-Holds d law in_tx (bytes "payments") (payment_arguments p m)
          (bytes "transaction_ref") c2 c3 kept (rw is_m ran) (inr (inl refl)) in
      let committed = commit-ok d law c3 c1 put in
      (
        (db, before, ap (λ (k : Conn Db). some k.pool) ended ∙ sym committed.0 ∙ sees, rows, alone),
        same,
      )

  get_payment_by_ref-Holds :
      (p : Payment) (m : Value) (c : Conn Db)
      → IsInverse codec
      → metadata_argument codec p.metadata ≡ ok m
      → IsKept (law.keeps (bytes "payments")) (payment_arguments p m)
      → Holds d law in_tx c (bytes "payments") (bytes "transaction_ref") (payment_arguments p m)
      → (get_payment_by_ref d codec p.transaction_ref c).0 ≡ ok (some p)
  unfolding get_payment_by_ref value_eq Dict.get ◌==◌ bytes
  get_payment_by_ref-Holds p m c inverse marshalled kept holds =
      first_row-Holds d law (scan_payment codec) p in_tx (payment_query [] unordered)
        (payment_arguments p m) (bytes "transaction_ref") c holds (eq_refl p.transaction_ref)
        kept.1.1.1.1.0 (scan_payment-project codec p m inverse marshalled)

  -- The transaction is open after its query.
  get_payment_by_ref-open :
      (reference : Text) (o : Option Payment) (c c1 : Conn Db)
      → get_payment_by_ref d codec reference c ≡ (ok o, c1)
      → (db : Db) × (c1.tx ≡ some db)
  unfolding get_payment_by_ref query
  get_payment_by_ref-open reference o c c1 h =
      let select = record (payment_query [] unordered) {
        conditions = (bytes "transaction_ref", text reference) ∷ [];
      } in
      elim (outcome (on_connection d in_tx (d.query select) c)) [
        | inr (x, c2, e) ↦ absurd (ground arith)
        | inl (rs, c2, e) ↦
            let (db, db', saw, ran, sees) = on_connection-ok d in_tx (d.query select) c c2 rs e in
            let still = first_row-state (scan_payment codec) rs c2 in (db', ground arith)
      ]

  -- The server begins and commits what it is asked to.
  abbrev pub IsAvailable : Type 0
  IsAvailable =
      ((db : Db) → (view : Db) × (d.begin db ≡ ok view))
      × ((db view : Db) → (db' : Db) × (d.commit db view ≡ ok db'))

  commit-open : (c : Conn Db) (db : Db) → IsAvailable → c.tx ≡ some db → (commit d c).0 ≡ ok tt
  unfolding commit
  commit-open c db available opened = let (db', e) = available.1 c.pool db in ground arith

  found_again :
      (p p2 : Payment) (c : Conn Db)
      → IsAvailable
      → (get_payment_by_ref d codec p2.transaction_ref c).0 ≡ ok (some p)
      → (create_payment_if_absent_tx d codec p2 true c).0 ≡ ok (p, true)
  unfolding create_payment_if_absent_tx commit_if
  found_again p p2 c available found =
      let c1 = (get_payment_by_ref d codec p2.transaction_ref c).1 in
      let (db, opened) = get_payment_by_ref-open p2.transaction_ref (some p) c c1 (ground arith) in
      let committed = commit-open c1 db available opened in ground arith

  -- On a driver that keeps its promises and takes every statement, with metadata that reads back as
  -- written and values that the columns keep: once a payment has been inserted as new, another one
  -- with its reference returns it unchanged, marked as known.
  pub create_payment_once :
      (p p2 q : Payment) (m : Value) (c c' : Conn Db)
      → IsAvailable
      → IsInverse codec
      → metadata_argument codec p.metadata ≡ ok m
      → IsKept (law.keeps (bytes "payments")) (payment_arguments p m)
      → p2.transaction_ref ≡ p.transaction_ref
      → create_payment_if_absent d codec no_tx p c ≡ (ok (q, false), c')
      → (create_payment_if_absent d codec no_tx p2 c').0 ≡ ok (p, true)
  unfolding create_payment_if_absent
  create_payment_once p p2 q m c c' available inverse marshalled kept same done =
      let ((db, before, sees, rows, alone), is_p) = create-Holds p q m c c' marshalled kept done in
      let (view, e) = available.0 c'.pool in
      let saw = law.begin-sees c'.pool view e in
      let found =
        get_payment_by_ref-Holds p m (record c' { tx = some view }) inverse marshalled kept
          (db, before, ap (λ (b : Db). some b) saw ∙ sees, rows, alone) in
      let again = found_again p p2 (record c' { tx = some view }) available (rw same found) in
      ground arith
