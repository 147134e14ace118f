-- ===== src/Service/Quota/Ledger.antt =====
-- The usage records as a ledger of the sessions' counters.
use wi_fi_man.Common.{
  suc, ◌≡◌, refl, sym, ◌∙◌, List, [], ◌∷◌, ◌++◌, Text, ◌==◌, eq_iff, Option, none, some, arith, inl,
  inr, Option-cases, Bool-cases, if◌then◌else◌,
}
use wi_fi_man.Common.Dict
use wi_fi_man.Common.Dict.{Dict, get-put, get-put_self}
use wi_fi_man.Common.Int.{ℤ, pos, ◌+ℤ◌, wrap}
use wi_fi_man.Domain.{Plan, Token, Session, UsageRecord, Time}
use wi_fi_man.Store.Memory.{
  MemoryStore, get_session_by_id, get_token_by_id, get_plan, update_session, create_usage_record,
  update_token,
}
use wi_fi_man.World.{Env, World}
use wi_fi_man.Service.Gateway.{is_ended}
use wi_fi_man.Service.Quota.{
  UsageUpdateInput, counted, usage_record, over_limit, limited_session, enforce_limit, check_limit,
  apply_to, apply_usage,
}

-- The sum of the records of a session, over a field of theirs, from a start.
unfoldable pub tally : (UsageRecord → ℤ) → Text → List UsageRecord → ℤ → ℤ
tally f id [] acc = acc
tally f id (u ∷ us) acc = tally f id us (if u.session_id == id then wrap (acc +ℤ f u) else acc)

tally-append :
    (f : UsageRecord → ℤ) (id : Text) (us : List UsageRecord) (u : UsageRecord) (acc : ℤ)
    → tally f id (us ++ u ∷ []) acc
      ≡ (if u.session_id == id then wrap (tally f id us acc +ℤ f u) else tally f id us acc)
unfolding tally
tally-append f id [] u acc = refl
tally-append f id (v ∷ us) u acc = tally-append f id us u _

abbrev pub counts_of : Dict Session → Text → Option (ℤ × ℤ)
counts_of d id = elim (Dict.get d id) [ none ↦ none | some s ↦ some (s.bytes_up, s.bytes_down) ]

-- The counters of a session are the sums of its usage records.
abbrev pub IsBalanced : MemoryStore → Type 0
IsBalanced m =
    (id : Text) (up down : ℤ)
    → counts_of m.sessions id ≡ some (up, down)
    → (up ≡ tally (λ u. u.bytes_up) id m.usage (pos 0))
      × (down ≡ tally (λ u. u.bytes_down) id m.usage (pos 0))

-- Steps that leave the counters and the ledger alone.
abbrev pub SameCounts : MemoryStore → MemoryStore → Type 0
SameCounts m n =
    (n.usage ≡ m.usage) × ((id : Text) → counts_of n.sessions id ≡ counts_of m.sessions id)

pub SameCounts-IsBalanced : (m n : MemoryStore) → SameCounts m n → IsBalanced m → IsBalanced n
SameCounts-IsBalanced m n h b id up down c = rw h.0 (b id up down (sym (h.1 id) ∙ c))

counts_of-put :
    (d : Dict Session) (s : Session) (id : Text)
    → counts_of (Dict.put d s.id s) id
      ≡ (if s.id == id then some (s.bytes_up, s.bytes_down) else counts_of d id)
counts_of-put d s id = ground (arith, get-put d s.id id s)

module _ (env : Env) where
  enforce_limit-SameCounts :
      (s : Session) (t : Token) (p : Plan) (now : Time) (w : World)
      → Dict.get w.store.sessions s.id ≡ some s
      → SameCounts w.store (enforce_limit env s t p now w).1.store
  unfolding enforce_limit update_session update_token
  enforce_limit-SameCounts s t p now w h = elim (Bool-cases (over_limit p s)) [
    | inr e ↦ rw (enforce_limit, e) (refl, λ id. refl)
    | inl e ↦ elim (Option-cases (Dict.get w.store.tokens t.id)) [
      | inl n ↦
          rw (enforce_limit, e, update_session, h, update_token, n)
            (
              refl,
              λ id. grind (
                arith,
                h,
                counts_of-put w.store.sessions (limited_session s now) id,
                eq_iff s.id id,
              ),
            )
      | inr (o, n) ↦
          rw (enforce_limit, e, update_session, h, update_token, n)
            (
              refl,
              λ id. grind (
                arith,
                h,
                counts_of-put w.store.sessions (limited_session s now) id,
                eq_iff s.id id,
              ),
            )
    ]
  ]

  check_limit-SameCounts :
      (s : Session) (now : Time) (w : World)
      → Dict.get w.store.sessions s.id ≡ some s
      → SameCounts w.store (check_limit env s now w).1.store
  unfolding check_limit get_token_by_id get_plan
  check_limit-SameCounts s now w h = elim (Option-cases (Dict.get w.store.tokens s.token_id)) [
    | inl e ↦ rw (check_limit, get_token_by_id, e) (refl, λ id. refl)
    | inr (t, e) ↦ elim (Option-cases (Dict.get w.store.plans t.plan_id)) [
      | inl n ↦ rw (check_limit, get_token_by_id, e, get_plan, n) (refl, λ id. refl)
      | inr (p, n) ↦
          rw (check_limit, get_token_by_id, e, get_plan, n) (enforce_limit-SameCounts s t p now w h)
    ]
  ]

  report-IsBalanced :
      (i : UsageUpdateInput) (s : Session) (now : Time) (m : MemoryStore)
      → Dict.get m.sessions i.session_id ≡ some s
      → s.id ≡ i.session_id
      → IsBalanced m
      → IsBalanced (record m {
        sessions = Dict.put m.sessions s.id (counted s i);
        usage = m.usage ++ usage_record env i (counted s i) now ∷ [];
      })
  report-IsBalanced i s now m found own b id up down c =
      let put = counts_of-put m.sessions (counted s i) id in
      let u = usage_record env i (counted s i) now in
      let sum_up = tally-append (λ u. u.bytes_up) id m.usage u (pos 0) in
      let sum_down = tally-append (λ u. u.bytes_down) id m.usage u (pos 0) in
      elim (Bool-cases (s.id == id)) [
        | inl e ↦
            let same : s.id ≡ id = ground (arith, eq_iff s.id id) in
            let old = b id s.bytes_up s.bytes_down (ground arith) in
            ground (arith, put, sum_up, sum_down, old)
        | inr e ↦ ground (arith, put, sum_up, sum_down, b id up down)
      ]

  -- The world after the two writes of a report.
  abbrev recorded : UsageUpdateInput → Session → World → World
  recorded i s w = record w {
    clock = suc w.clock;
    store = record w.store {
      sessions = Dict.put w.store.sessions s.id (counted s i);
      usage = w.store.usage ++ usage_record env i (counted s i) (env.now w.clock) ∷ [];
    };
  }

  -- Every report, accepted or refused, keeps the ledger balanced: the counters of each session are the
  -- sums of its usage records.
  pub apply_usage-IsBalanced :
      (i : UsageUpdateInput) (w : World)
      → ((s : Session) → Dict.get w.store.sessions i.session_id ≡ some s → s.id ≡ i.session_id)
      → IsBalanced w.store
      → IsBalanced (apply_usage env i w).1.store
  unfolding apply_usage get_session_by_id apply_to update_session create_usage_record
  apply_usage-IsBalanced i w own b = elim (Option-cases (Dict.get w.store.sessions i.session_id)) [
    | inl e ↦ rw (apply_usage, get_session_by_id, e) b
    | inr (s, e) ↦
        let same = own s e in
        let kept : Dict.get w.store.sessions s.id ≡ some s = cc in
        elim (Bool-cases (is_ended s)) [
          | inl n ↦ rw (apply_usage, get_session_by_id, e, apply_to, n) b
          | inr n ↦
              rw
                (
                  apply_usage, get_session_by_id, e, apply_to, n, update_session, kept,
                  create_usage_record,
                )
                (SameCounts-IsBalanced (recorded i s w).store
                  (check_limit env (counted s i) (env.now w.clock) (recorded i s w)).1.store
                  (check_limit-SameCounts (counted s i) (env.now w.clock) (recorded i s w)
                    (get-put_self w.store.sessions s.id (counted s i)))
                  (report-IsBalanced i s (env.now w.clock) w.store e same b))
        ]
  ]
