-- ===== src/Http/Middleware.antt =====
-- backend/internal/http/middleware: the role check, the rate limit and the request id. What follows a
-- passed check is the rest of the chain; here only whether it runs.
use wi_fi_man.Common.{
  ℕ, Bool, false, ◌||◌, List, [], ◌∷◌, ◌++◌, Option, none, some, Text, bytes, is_empty, ◌==◌,
  if◌then◌else◌,
}
use wi_fi_man.Common.Int.{ℤ, pos, leb_ℤ, ltb_ℤ}

-- `RequireRole`: the role of the header is one of the allowed.
unfoldable pub is_allowed_role : List Text → Text → Bool
is_allowed_role [] role = false
is_allowed_role (r ∷ roles) role = let rest = is_allowed_role roles role in r == role || rest

pub data Verdict : Type 0 where
  pass : Verdict
  abort : ℕ → Text → Verdict

unfoldable pub require_role : List Text → Text → Verdict
unfolding is_allowed_role
require_role roles role = if is_allowed_role roles role then pass else abort 403 (bytes "forbidden")

-- `RateLimit`, over the counter that Redis returns, or `none` where the pipeline failed.
unfoldable pub rate_limited : ℤ → Option ℕ → Verdict
rate_limited max_requests answered = if leb_ℤ max_requests (pos 0) then pass else elim answered [
  | none ↦ pass
  | some n ↦ if ltb_ℤ max_requests (pos n) then abort 429 (bytes "too many requests") else pass
]

abbrev pub rate_key : Text → Text → Text
rate_key path ip = bytes "ratelimit:" ++ (path ++ b':' ∷ ip)

-- `RequestID`: the caller's, or a new one.
unfoldable pub request_id : Text → Text → Text
request_id given fresh = if is_empty given then fresh else given
