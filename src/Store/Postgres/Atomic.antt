-- ===== src/Store/Postgres/Atomic.antt =====
-- `WithTx` of backend/internal/repository/postgres.go: all of a transaction or nothing of it.
use wi_fi_man.Common.{none, some, ◌≡◌, sym, ◌∙◌, ap, Option-cases, inl, inr, arith}
use wi_fi_man.Common.Exec.{Result, ok, err, Exec, Result-cases, outcome}
use wi_fi_man.Domain.{Error}
use wi_fi_man.Store.Sql.{Driver}
use wi_fi_man.Store.Sql.Answer.{IsLawful}
use wi_fi_man.Store.Postgres.{Ctx, no_tx, in_tx, Conn, with_tx, end_tx, commit}
use wi_fi_man.Store.Postgres.Scan.{unique_columns}

module _ {Db V A : Type 0} where
  -- The body of a transaction writes through its own context only: the pool sees none of it.
  abbrev pub KeepsPool : (Ctx → Exec (Conn Db × V) Error A) → Type 0
  KeepsPool body = (w : Conn Db × V) → (body in_tx w).1.0.pool ≡ w.0.pool

  -- What a transaction leaves of the connection `c`: on an error the database as it was, on success
  -- the one that the body saw at its end.
  abbrev pub IsAtomic :
      (Ctx → Exec (Conn Db × V) Error A) → Conn Db → V → Result Error A → Conn Db → V → Type 0
  IsAtomic body c v (err e) c' v' = c'.pool ≡ c.pool
  IsAtomic body c v (ok a) c' v' =
      (body in_tx (record c { tx = some c.pool }, v)
        ≡ (ok a, (record { pool = c.pool; tx = some c'.pool }, v')))
      × (c'.tx ≡ none)

rebuilt :
    {Db V A : Type 0} (x : Result Error A × (Conn Db × V)) (p q : Db) (v : V) (a : A)
    → x.0 ≡ ok a
    → x.1.0.pool ≡ p
    → x.1.0.tx ≡ some q
    → x.1.1 ≡ v
    → x ≡ (ok a, (record { pool = p; tx = some q }, v))
rebuilt (r, (c, v')) p q v a hr hp ht hv = rw (sym hr, sym hp, sym ht, sym hv)

module _ {Db : Type 0} (d : Driver Db) (law : IsLawful d unique_columns) where
  pub commit-ok :
      (c c' : Conn Db) → commit d c ≡ (ok tt, c') → (c.tx ≡ some c'.pool) × (c'.tx ≡ none)
  unfolding commit
  commit-ok c c' h = elim (Option-cases c.tx) [
    | inl e ↦ absurd (ground arith)
    | inr (view, e) ↦ elim (Result-cases (d.commit c.pool view)) [
      | inl (db, e') ↦ let put = law.commit-puts c.pool view db e' in (ground arith, ground arith)
      | inr (x, e') ↦ absurd (ground arith)
    ]
  ]

  pub commit-err : (c c' : Conn Db) (e : Error) → commit d c ≡ (err e, c') → c'.pool ≡ c.pool
  unfolding commit
  commit-err c c' e h = elim (Option-cases c.tx) [
    | inl n ↦ ground arith
    | inr (view, n) ↦ elim (Result-cases (d.commit c.pool view)) [
      | inl (db, e') ↦ absurd (ground arith)
      | inr (x, e') ↦ ground arith
    ]
  ]

  module _ {V A : Type 0} where
    end_tx-ok :
        (r : Result Error A) (c c' : Conn Db) (v v' : V) (a : A)
        → end_tx d r (c, v) ≡ (ok a, (c', v'))
        → (r ≡ ok a) × (c.tx ≡ some c'.pool) × (c'.tx ≡ none) × (v ≡ v')
    unfolding end_tx
    end_tx-ok (err e) c c' v v' a h = absurd (cc)
    end_tx-ok (ok b) c c' v v' a h = elim (outcome (commit d c)) [
      | inl (u, c1, e) ↦
          let put = commit-ok c c1 e in (ground arith, ground arith, ground arith, ground arith)
      | inr (x, c1, e) ↦ absurd (ground arith)
    ]

    end_tx-err :
        (r : Result Error A) (c c' : Conn Db) (v v' : V) (e : Error)
        → end_tx d r (c, v) ≡ (err e, (c', v'))
        → c'.pool ≡ c.pool
    unfolding end_tx
    end_tx-err (err x) c c' v v' e h = ground arith
    end_tx-err (ok b) c c' v v' e h = elim (outcome (commit d c)) [
      | inl (u, c1, n) ↦ absurd (ground arith)
      | inr (x, c1, n) ↦ let kept = commit-err c c1 x n in ground arith
    ]

    -- On a driver that keeps its promises, a transaction whose body writes through its own context
    -- only is all or nothing: where it returns an error, the pool is as it was; where it succeeds,
    -- the body ran to its end on a view of the pool, and the pool is what it left there, with no
    -- transaction open.
    pub with_tx-IsAtomic :
        (body : Ctx → Exec (Conn Db × V) Error A) (c c' : Conn Db) (v v' : V) (r : Result Error A)
        → KeepsPool body
        → with_tx d no_tx body (c, v) ≡ (r, (c', v'))
        → IsAtomic body c v r c' v'
    unfolding with_tx
    with_tx-IsAtomic body c c' v v' (err e) keeps h = elim (Result-cases (d.begin c.pool)) [
      | inr (x, n) ↦ ground arith
      | inl (view, n) ↦
          let (r1, (c1, v1)) = body in_tx (record c { tx = some view }, v) in
          let kept = keeps (record c { tx = some view }, v) in
          let ended = end_tx-err r1 c1 c' v1 v' e (ground arith) in ground arith
    ]
    with_tx-IsAtomic body c c' v v' (ok a) keeps h = elim (Result-cases (d.begin c.pool)) [
      | inr (x, n) ↦ absurd (ground arith)
      | inl (view, n) ↦
          let saw = law.begin-sees c.pool view n in
          let (r1, (c1, v1)) = body in_tx (record c { tx = some view }, v) in
          let kept = keeps (record c { tx = some view }, v) in
          let ended = end_tx-ok r1 c1 c' v1 v' a (ground arith) in
          (
            ap (λ (db : Db). body in_tx (record c { tx = some db }, v)) (sym saw)
                ∙ rebuilt (body in_tx (record c { tx = some view }, v)) c.pool c'.pool v' a ended.0
                    kept ended.1 ended.3,
            ended.2,
          )
    ]
