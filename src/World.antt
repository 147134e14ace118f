-- ===== src/World.antt =====
-- What the services of backend/internal/service share: the store, and the traffic with what the
-- program does not implement. The clock, the generators of identifiers and of random bytes, the digests,
-- the gateway's controller and the job queue are an `Env`; a `World` counts how often each was asked.
use wi_fi_man.Common.{ℕ, suc, Bool, List, [], ◌∷◌, Option, Text}
use wi_fi_man.Common.Exec.{Result, ok, Exec}
use wi_fi_man.Domain.{Time, Session, Error}
use wi_fi_man.Store.Memory.{MemoryStore, Op}

pub record Env : Type 0 where
  -- `time.Now().UTC()` at the n-th reading
  pub now : ℕ → Time
  -- `uuid.NewString()` at the n-th call
  pub new_uuid : ℕ → Text
  -- `rand.Read` of so many bytes at the n-th call; `none` is its error
  pub rand_read : ℕ → ℕ → Option Text
  -- hexadecimal digests: SHA-256 of a text, and HMAC-SHA-256 of a payload under a key
  pub sha256_hex : Text → Text
  pub hmac_sha256_hex : Text → Text → Text
  -- `t.Format(time.RFC3339Nano)`
  pub format_time : Time → Text
  -- `s.gateway != nil` in the services that hold a gateway
  pub has_gateway : Bool
  -- the n-th call of the gateway's controller, if there is one
  pub controller : Option (ℕ → Session → Text → Result Error (Unit {0}))
  -- whether the n-th task enters the retry queue, if there is one
  pub retry_queue : Option (ℕ → Bool)

pub record World : Type 0 where
  pub store : MemoryStore
  pub clock : ℕ
  pub uuids : ℕ
  pub reads : ℕ
  -- the controller calls, the oldest first
  pub sent : List (Session × Text)
  -- how many tasks were handed to the queue, and those that it took, the oldest first
  pub enqueued : ℕ
  pub queue : List (Text × Text)

abbrev pub M : Type 0 → Type 0
M A = Exec World Error A

-- A store method.
abbrev pub db : {A : Type 0} → Op A → M A
db op w = let (r, m) = op w.store in (r, record w { store = m })

abbrev pub count {ℓ} : {A : Type ℓ} → List A → ℕ
count [] = 0
count (x ∷ xs) = suc (count xs)

module _ (env : Env) where
  abbrev pub now_utc : M Time
  now_utc w = (ok (env.now w.clock), record w { clock = suc w.clock })

  abbrev pub new_uuid : M Text
  new_uuid w = (ok (env.new_uuid w.uuids), record w { uuids = suc w.uuids })

  abbrev pub rand_read : ℕ → M (Option Text)
  rand_read n w = (ok (env.rand_read w.reads n), record w { reads = suc w.reads })
