-- ===== src/Tests/Stores.antt =====
-- The memory store against the specification of vouchers.
use wi_fi_man.Common.{◌≡◌, refl, [], ◌∷◌, bytes, ◌==◌, some, none, Option, sym, ap}
use wi_fi_man.Common.Dict.{get}
use wi_fi_man.Domain.{Token}
use wi_fi_man.Store.Memory.{create_token, get_token_by_code_hash}
use wi_fi_man.Store.Memory.Index.{IsIndexed}
use wi_fi_man.Store.Memory.Refines.{vouchers, serve, serve_all, serve_all-Steps, serve_all-only}
use wi_fi_man.Store.Spec.{
  create, by_id, by_code_hash, update, refused, found, id_taken, has_hash, Steps, stop, step,
}
use wi_fi_man.Tests.Fixture.{voucher, store}
use wi_fi_man.Tests.Redeem.{store-IsIndexed, activation}

-- The voucher is there: it is not created again, it is found by its code and changed.
serve_all-Steps_example :
    Steps
      (vouchers store)
      (serve_all
        (create voucher ∷ by_code_hash (bytes "AB-2") ∷ update activation ∷ by_id (bytes "t1") ∷ [])
        store).0
      (vouchers
        (serve_all
          (create voucher
            ∷ by_code_hash (bytes "AB-2")
            ∷ update activation
            ∷ by_id (bytes "t1")
            ∷ [])
          store).1)
    × IsIndexed
        (serve_all
          (create voucher
            ∷ by_code_hash (bytes "AB-2")
            ∷ update activation
            ∷ by_id (bytes "t1")
            ∷ [])
          store).1
unfolding serve create_token get_token_by_code_hash get ◌==◌ bytes
serve_all-Steps_example =
    serve_all-Steps
      (create voucher ∷ by_code_hash (bytes "AB-2") ∷ update activation ∷ by_id (bytes "t1") ∷ [])
      store store-IsIndexed
      (
        tt,
        (
          tt,
          (
            (λ s e.
                ap (λ (o : Option Token). elim o [ none ↦ bytes "AB-2" | some t ↦ t.code_hash ])
                  (sym e)),
            (tt, tt),
          ),
        ),
      )

serve_all-only_example :
    ((serve_all (create voucher ∷ by_code_hash (bytes "AB-2") ∷ []) store).0
      ≡ (create voucher, refused) ∷ (by_code_hash (bytes "AB-2"), found (some voucher)) ∷ [])
    × (vouchers (serve_all (create voucher ∷ by_code_hash (bytes "AB-2") ∷ []) store).1
        ≡ vouchers store)
unfolding get ◌==◌ bytes
serve_all-only_example =
    serve_all-only
      ((create voucher, refused) ∷ (by_code_hash (bytes "AB-2"), found (some voucher)) ∷ []) store
      (vouchers store) store-IsIndexed (tt, (tt, tt))
      (step (id_taken refl) (step (has_hash refl refl) stop))
