-- ===== src/Store/Memory/Frame.antt =====
-- Steps that leave all of the store alone but its sessions.
use wi_fi_man.Common.{◌≡◌, refl, ◌∙◌, arith}
use wi_fi_man.Store.Memory.{MemoryStore, create_session, update_session}
use wi_fi_man.Store.Memory.Index.{IsIndexed}
use wi_fi_man.Domain.{Session}

-- Nothing but sessions changes in the store.
pub record SameBut (m n : MemoryStore) : Type 0 where
  pub plans : n.plans ≡ m.plans
  pub tokens : n.tokens ≡ m.tokens
  pub token_by_hash : n.token_by_hash ≡ m.token_by_hash
  pub payments : n.payments ≡ m.payments
  pub usage : n.usage ≡ m.usage
  pub audit_logs : n.audit_logs ≡ m.audit_logs

pub SameBut-refl : (m : MemoryStore) → SameBut m m
SameBut-refl m = record {
  plans = refl;
  tokens = refl;
  token_by_hash = refl;
  payments = refl;
  usage = refl;
  audit_logs = refl;
}

pub SameBut-trans : (l m n : MemoryStore) → SameBut l m → SameBut m n → SameBut l n
SameBut-trans l m n h k = record {
  plans = k.plans ∙ h.plans;
  tokens = k.tokens ∙ h.tokens;
  token_by_hash = k.token_by_hash ∙ h.token_by_hash;
  payments = k.payments ∙ h.payments;
  usage = k.usage ∙ h.usage;
  audit_logs = k.audit_logs ∙ h.audit_logs;
}

pub update_session-SameBut : (s : Session) (m : MemoryStore) → SameBut m (update_session s m).1
unfolding update_session
update_session-SameBut s m = ground arith

pub create_session-SameBut : (s : Session) (m : MemoryStore) → SameBut m (create_session s m).1
unfolding create_session
create_session-SameBut s m = ground arith

-- The index of tokens depends on nothing else.
pub same_tokens-IsIndexed :
    (m n : MemoryStore)
    → n.tokens ≡ m.tokens
    → n.token_by_hash ≡ m.token_by_hash
    → IsIndexed m
    → IsIndexed n
same_tokens-IsIndexed m n t h v = record {
  own_id = λ id u. rw t (v.own_id id u);
  to_index = λ id u. rw (t, h) (v.to_index id u);
  from_index = λ k id. rw (t, h) (v.from_index k id);
}

pub SameBut-IsIndexed : (m n : MemoryStore) → SameBut m n → IsIndexed m → IsIndexed n
SameBut-IsIndexed m n h v = same_tokens-IsIndexed m n h.tokens h.token_by_hash v
