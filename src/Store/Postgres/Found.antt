-- ===== src/Store/Postgres/Found.antt =====
-- CREATE and GET of backend/internal/repository/postgres.go: what was stored is found again.
use wi_fi_man.Common.{false, [], some, ◌≡◌, refl, sym, bytes, ◌==◌, inl, inr, eq_refl}
use wi_fi_man.Common.Dict
use wi_fi_man.Common.Exec.{ok}
use wi_fi_man.Domain.{Plan, Token, Session}
use wi_fi_man.Store.Sql.{Driver, value_eq, unordered}
use wi_fi_man.Store.Sql.Answer.{IsLawful, overwrite}
use wi_fi_man.Store.Postgres.{Ctx, Conn}
use wi_fi_man.Store.Postgres.Scan.{unique_columns}
use wi_fi_man.Store.Postgres.Plans.{plan_arguments, plan_query, scan_plan, create_plan, get_plan}
use wi_fi_man.Store.Postgres.Tokens.{
  token_arguments, token_query, scan_token, create_token, update_token, token_changes,
  get_token_by_id, get_token_by_code_hash,
}
use wi_fi_man.Store.Postgres.Sessions.{
  session_arguments, session_query, scan_session, create_session, get_session_by_id,
}
use wi_fi_man.Store.Postgres.RoundTrip.{
  scan_token-overwrite, scan_plan-project, scan_token-project, scan_session-project,
}
use wi_fi_man.Store.Postgres.Held.{IsKept, insert-Holds, update-Holds, first_row-Holds}

module _ {Db : Type 0} (d : Driver Db) (law : IsLawful d unique_columns) where
  -- On a driver that keeps its promises, a token that has been inserted, with values that its
  -- columns keep, is read back field by field by its id and by its code's hash.
  pub create_token-get :
      (ctx : Ctx) (t : Token) (c c' : Conn Db)
      → IsKept (law.keeps (bytes "tokens")) (token_arguments t)
      → create_token d ctx t c ≡ (ok tt, c')
      → ((get_token_by_id d ctx t.id c').0 ≡ ok (some t))
        × ((get_token_by_code_hash d ctx t.code_hash c').0 ≡ ok (some t))
  unfolding create_token get_token_by_id get_token_by_code_hash unique_columns value_eq Dict.get
      ◌==◌ bytes
  create_token-get ctx t c c' kept done =
      let row = token_arguments t in
      let reads = scan_token-project t in
      (
        first_row-Holds d law scan_token t ctx (token_query [] false) row (bytes "id") c'
            (insert-Holds d law ctx (bytes "tokens") row (bytes "id") c c' kept done (inl refl))
            (eq_refl t.id) kept.0 reads,
        first_row-Holds d law scan_token t ctx (token_query [] false) row (bytes "code_hash") c'
            (insert-Holds d law ctx (bytes "tokens") row (bytes "code_hash") c c' kept done
              (inr (inl refl)))
            (eq_refl t.code_hash) kept.1.1.0 reads,
      )

  -- On a driver that keeps its promises, after an insertion and an update of a token, with values
  -- that the columns keep, the token read back is the updated one, save for the time of its
  -- creation, which is the inserted one's.
  pub update_token-get :
      (ctx : Ctx) (t u : Token) (c c1 c2 : Conn Db)
      → IsKept (law.keeps (bytes "tokens")) (token_arguments t)
      → IsKept (law.keeps (bytes "tokens")) (token_arguments u)
      → u.id ≡ t.id
      → create_token d ctx t c ≡ (ok tt, c1)
      → update_token d ctx u c1 ≡ (ok tt, c2)
      → (get_token_by_id d ctx t.id c2).0 ≡ ok (some (record u { created_at = t.created_at }))
  unfolding create_token update_token get_token_by_id unique_columns value_eq Dict.get Dict.put
      overwrite ◌==◌ bytes
  update_token-get ctx t u c c1 c2 kept kept_u same done done_u =
      let row = token_arguments t in
      let (k0, (k1, (k2, (k3, (k4, k5))))) = kept_u in
      first_row-Holds d law scan_token (record u { created_at = t.created_at }) ctx
        (token_query [] false) (overwrite row (token_changes u)) (bytes "id") c2
        (update-Holds d law ctx (bytes "tokens") row (token_changes u) (bytes "id") c1 c2
          (insert-Holds d law ctx (bytes "tokens") row (bytes "id") c c1 kept done (inl refl))
          (k1, (k2, (k3, k5))) kept.0 (eq_refl t.id) refl (rw (sym same) done_u))
        (eq_refl t.id) kept.0 (scan_token-overwrite t u same)

  pub create_plan-get :
      (ctx : Ctx) (p : Plan) (c c' : Conn Db)
      → IsKept (law.keeps (bytes "plans")) (plan_arguments p)
      → create_plan d ctx p c ≡ (ok tt, c')
      → (get_plan d ctx p.id c').0 ≡ ok (some p)
  unfolding create_plan get_plan unique_columns value_eq Dict.get ◌==◌ bytes
  create_plan-get ctx p c c' kept done =
      first_row-Holds d law scan_plan p ctx plan_query (plan_arguments p) (bytes "id") c'
        (insert-Holds d law ctx (bytes "plans") (plan_arguments p) (bytes "id") c c' kept done
          (inl refl))
        (eq_refl p.id) kept.0 (scan_plan-project p)

  pub create_session-get :
      (ctx : Ctx) (s : Session) (c c' : Conn Db)
      → IsKept (law.keeps (bytes "sessions")) (session_arguments s)
      → create_session d ctx s c ≡ (ok tt, c')
      → (get_session_by_id d ctx s.id c').0 ≡ ok (some s)
  unfolding create_session get_session_by_id unique_columns value_eq Dict.get ◌==◌ bytes
  create_session-get ctx s c c' kept done =
      first_row-Holds d law scan_session s ctx (session_query [] unordered false)
        (session_arguments s) (bytes "id") c'
        (insert-Holds d law ctx (bytes "sessions") (session_arguments s) (bytes "id") c c' kept done
          (inl refl))
        (eq_refl s.id) kept.0 (scan_session-project s)
