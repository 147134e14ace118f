-- ===== src/Store/Memory/Sessions.antt =====
-- The sessions of a token: which one a lookup finds.
use wi_fi_man.Common.{◌≡◌, Option, none, some, Text, ap}
use wi_fi_man.Common.Dict
use wi_fi_man.Common.Dict.{Dict}
use wi_fi_man.Common.Dict.Search.{UniqueKeys, AtMostOne, find_ext}
use wi_fi_man.Common.Exec.{ok}
use wi_fi_man.Domain.{Session, SessionStatus}
use wi_fi_man.Store.Memory.{MemoryStore, running, get_active_session_by_token}

-- A token has one active session at most.
abbrev pub OneActive : MemoryStore → Text → Type 0
OneActive m token_id = AtMostOne (running token_id) m.sessions

-- Where a token has one active session at most, the lookup of its session does not depend on the
-- order in which Go visits the map: two stores that hold the same sessions give the same answer.
pub get_active_session_by_token_order :
    (m n : MemoryStore) (token_id : Text)
    → UniqueKeys m.sessions
    → UniqueKeys n.sessions
    → ((id : Text) → Dict.get m.sessions id ≡ Dict.get n.sessions id)
    → OneActive m token_id
    → (get_active_session_by_token token_id m).0 ≡ (get_active_session_by_token token_id n).0
unfolding get_active_session_by_token
get_active_session_by_token_order m n token_id u w same one =
    ap (λ (o : Option Session). ok o)
      (find_ext (running token_id) m.sessions n.sessions u w same one)

-- The status of the session under an id, if there is one.
abbrev pub status_at : MemoryStore → Text → Option SessionStatus
status_at m id = elim (Dict.get m.sessions id) [ none ↦ none | some s ↦ some s.status ]
