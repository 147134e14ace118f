-- ===== src/Store/Memory.antt =====
-- backend/internal/repository/memory.go. Each method runs under the store's mutex, so a method is one
-- step; `with_tx` holds the mutex over its body and takes nothing back when the body fails.
pub mod Plans
pub mod Index
pub mod Sessions
pub mod Frame
pub mod Refines
use wi_fi_man.Common.{
  Bool, ◌&&◌, List, [], ◌∷◌, ◌++◌, Option, none, some, Text, bytes, ◌==◌, if◌then◌else◌,
}
use wi_fi_man.Common.Int.{ltb_ℤ}
use wi_fi_man.Common.Dict
use wi_fi_man.Common.Dict.{Dict}
use wi_fi_man.Common.Exec.{Result, ok, err, Exec, ◌>>=◌, ◌>>◌, return, fail, gets, modify}
use wi_fi_man.Domain.{
  Plan, Token, Session, SessionStatus, UsageRecord, Payment, AuditLog, Error, message,
}

pub record MemoryStore : Type 0 where
  pub plans : Dict Plan
  pub tokens : Dict Token
  pub token_by_hash : Dict Text
  pub sessions : Dict Session
  pub payments : Dict Payment
  pub audit_logs : List AuditLog
  pub usage : List UsageRecord

abbrev pub new_memory_store : MemoryStore
new_memory_store = record {
  plans = [];
  tokens = [];
  token_by_hash = [];
  sessions = [];
  payments = [];
  audit_logs = [];
  usage = [];
}

abbrev pub Op : Type 0 → Type 0
Op A = Exec MemoryStore Error A

-- The body may do more than touch the store: `W` is all that it can change.
unfoldable pub with_tx : {W A : Type 0} → Exec W Error A → Exec W Error A
with_tx body w = body w

unfoldable pub create_plan : Plan → Op (Unit {0})
create_plan plan m = elim (Dict.get m.plans plan.id) [
  | some _ ↦ (err (message (bytes "plan already exists")), m)
  | none ↦ (ok tt, record m { plans = Dict.put m.plans plan.id plan })
]

unfoldable pub get_plan : Text → Op (Option Plan)
get_plan id m = (ok (Dict.get m.plans id), m)

-- The comparison handed to `slices.SortFunc`, as an insertion into a sorted list.
unfoldable pub insert_plan : Plan → List Plan → List Plan
insert_plan p [] = p ∷ []
insert_plan p (q ∷ qs) =
    if ltb_ℤ q.created_at p.created_at then q ∷ insert_plan p qs else p ∷ q ∷ qs

unfoldable pub sort_plans : List Plan → List Plan
sort_plans [] = []
sort_plans (p ∷ ps) = insert_plan p (sort_plans ps)

unfoldable pub list_plans : Op (List Plan)
list_plans m = (ok (sort_plans (Dict.values m.plans)), m)

unfoldable pub create_token : Token → Op (Unit {0})
create_token token m = elim (Dict.get m.tokens token.id) [
  | some _ ↦ (err (message (bytes "token already exists")), m)
  | none ↦ elim (Dict.get m.token_by_hash token.code_hash) [
    | some _ ↦ (err (message (bytes "token hash already exists")), m)
    | none ↦ (
      ok tt,
      record m {
        tokens = Dict.put m.tokens token.id token;
        token_by_hash = Dict.put m.token_by_hash token.code_hash token.id;
      },
    )
  ]
]

unfoldable pub get_token_by_id : Text → Op (Option Token)
get_token_by_id id m = (ok (Dict.get m.tokens id), m)

unfoldable pub get_token_by_code_hash : Text → Op (Option Token)
get_token_by_code_hash code_hash m = elim (Dict.get m.token_by_hash code_hash) [
  | none ↦ (ok none, m)
  | some id ↦ (ok (Dict.get m.tokens id), m)
]

unfoldable pub get_token_by_code_hash_for_update : Text → Op (Option Token)
unfolding get_token_by_code_hash
get_token_by_code_hash_for_update code_hash = get_token_by_code_hash code_hash

unfoldable pub update_token : Token → Op (Unit {0})
update_token token m = elim (Dict.get m.tokens token.id) [
  | none ↦ (err (message (bytes "token not found")), m)
  | some _ ↦ (
    ok tt,
    record m {
      tokens = Dict.put m.tokens token.id token;
      token_by_hash = Dict.put m.token_by_hash token.code_hash token.id;
    },
  )
]

unfoldable pub list_tokens : Op (List Token)
list_tokens m = (ok (Dict.values m.tokens), m)

unfoldable pub create_session : Session → Op (Unit {0})
create_session session m = elim (Dict.get m.sessions session.id) [
  | some _ ↦ (err (message (bytes "session already exists")), m)
  | none ↦ (ok tt, record m { sessions = Dict.put m.sessions session.id session })
]

unfoldable pub get_session_by_id : Text → Op (Option Session)
get_session_by_id id m = (ok (Dict.get m.sessions id), m)

unfoldable pub get_session_by_radius : Text → Text → Op (Option Session)
get_session_by_radius radius_session_id nas_ip m = (
  ok (Dict.find (λ s. s.radius_session_id == radius_session_id && s.nas_ip == nas_ip) m.sessions),
  m,
)

abbrev pub is_active : Session → Bool
is_active s = elim s.status [ SessionStatus.active ↦ Bool.true | SessionStatus.ended ↦ Bool.false ]

-- The test by which the sessions are searched for a token's active one.
abbrev pub running : Text → Session → Bool
running token_id s = s.token_id == token_id && is_active s

unfoldable pub get_active_session_by_token : Text → Op (Option Session)
get_active_session_by_token token_id m = (ok (Dict.find (running token_id) m.sessions), m)

unfoldable pub update_session : Session → Op (Unit {0})
update_session session m = elim (Dict.get m.sessions session.id) [
  | none ↦ (err (message (bytes "session not found")), m)
  | some _ ↦ (ok tt, record m { sessions = Dict.put m.sessions session.id session })
]

unfoldable pub active_sessions : Dict Session → List Session
active_sessions [] = []
active_sessions ((id, s) ∷ rest) =
    if is_active s then s ∷ active_sessions rest else active_sessions rest

unfoldable pub list_active_sessions : Op (List Session)
list_active_sessions m = (ok (active_sessions m.sessions), m)

unfoldable pub create_usage_record : UsageRecord → Op (Unit {0})
create_usage_record usage m = (ok tt, record m { usage = m.usage ++ usage ∷ [] })

-- The stored payment, and whether it was there before.
unfoldable pub create_payment_if_absent : Payment → Op (Payment × Bool)
create_payment_if_absent payment m = elim (Dict.get m.payments payment.transaction_ref) [
  | some existing ↦ (ok (existing, Bool.true), m)
  | none ↦ (
    ok (payment, Bool.false),
    record m { payments = Dict.put m.payments payment.transaction_ref payment },
  )
]

unfoldable pub list_payments : Op (List Payment)
list_payments m = (ok (Dict.values m.payments), m)

unfoldable pub create_audit_log : AuditLog → Op (Unit {0})
create_audit_log log m = (ok tt, record m { audit_logs = m.audit_logs ++ log ∷ [] })

unfoldable pub list_audit_logs : Op (List AuditLog)
list_audit_logs m = (ok m.audit_logs, m)
