-- ===== src/Service/Token/Policy/Timeout.antt =====
-- How long the gateway is told to let a session run.
use wi_fi_man.Common.{ℕ, ◌*◌, ◌/◌, ◌^◌, ◌<◌, ◌≡◌, ap, ◌∙◌, Text, some, arith}
use wi_fi_man.Common.Int.{pos, sub_ℕ, ◌+ℤ◌, ◌-ℤ◌, ◌*ℤ◌, ◌≤ℤ◌, wrap, wrap_id, int_laws}
use Prim.Native.Nat.{min, max}
use wi_fi_man.Domain.{Plan, Token, Time}
use wi_fi_man.Service.Token.Policy.{
  minutes_long, time_sub, seconds_of, whole_seconds, session_timeout, nanoseconds,
}
use wi_fi_man.Service.Token.Policy.Seconds.{seconds_of_zero, seconds_of-whole, seconds_of-small}
use wi_fi_man.Service.Token.Redeem.{activated}

seconds_of_plan :
    (plan : Plan) (m : ℕ)
    → plan.duration_minutes ≡ pos m
    → m * 60 < 2 ^ 63
    → wrap (plan.duration_minutes *ℤ pos 60) ≡ pos (m * 60)
unfolding ◌*ℤ◌
seconds_of_plan plan m h small = rw h (ground (arith, wrap_id (pos (m * 60))))

-- For a plan of at least a minute whose seconds fit an `int`, the timeout is at least one second and
-- at most the plan's length, whatever the token's end.
pub session_timeout_bounds :
    (plan : Plan) (t : Token) (now : Time) (m : ℕ)
    → plan.duration_minutes ≡ pos m
    → 0 < m
    → m * 60 < 2 ^ 63
    → (pos 1 ≤ℤ session_timeout plan t now) × (session_timeout plan t now ≤ℤ pos (m * 60))
unfolding session_timeout
session_timeout_bounds plan t now m h some_minutes small =
    ground (arith, seconds_of_plan plan m h small)

time_left : (now : Time) (d : ℕ) → d < 2 ^ 63 → time_sub (now +ℤ pos d) now ≡ pos d
unfolding time_sub
time_left now d small =
    let back : now +ℤ pos d -ℤ now ≡ pos d = omega int_laws in rw back (ground arith)

whole_seconds-pos : (d : ℕ) → whole_seconds (pos d) ≡ pos (seconds_of d)
unfolding whole_seconds
whole_seconds-pos d = ap (λ x. sub_ℕ (seconds_of d) x) seconds_of_zero ∙ ground arith

-- Where `int(d.Seconds())` is known for the time that is left, the timeout is that, but one at least and
-- the plan's length at most.
timeout_left :
    (plan : Plan) (t : Token) (now : Time) (m d n : ℕ)
    → plan.duration_minutes ≡ pos m
    → 0 < m
    → m * 60 < 2 ^ 63
    → t.expires_at ≡ some (now +ℤ pos d)
    → d < 2 ^ 63
    → seconds_of d ≡ n
    → session_timeout plan t now ≡ pos (min (max 1 n) (m * 60))
unfolding session_timeout
timeout_left plan t now m d n h some_minutes small ends left secs =
    let whole : whole_seconds (time_sub (now +ℤ pos d) now) ≡ pos n =
      ap whole_seconds (time_left now d left) ∙ whole_seconds-pos d ∙ ap pos secs in
    ground (arith, seconds_of_plan plan m h small, whole)

-- For a plan of at least a minute whose seconds fit an int, a token that ends d nanoseconds from
-- now, less than 2 ^ 23 seconds, gives the whole seconds that are left, but one at least and the
-- plan's length at most: the rounding of Seconds to a float64 does not show.
pub session_timeout_exact :
    (plan : Plan) (t : Token) (now : Time) (m d : ℕ)
    → plan.duration_minutes ≡ pos m
    → 0 < m
    → m * 60 < 2 ^ 63
    → t.expires_at ≡ some (now +ℤ pos d)
    → d < 2 ^ 23 * nanoseconds
    → session_timeout plan t now ≡ pos (min (max 1 (d / nanoseconds)) (m * 60))
session_timeout_exact plan t now m d h some_minutes small ends left =
    timeout_left plan t now m d (d / nanoseconds) h some_minutes small ends (omega arith)
      (seconds_of-small d left)

-- A voucher that has just been activated, for a plan of at least a minute, gives the plan's full
-- time, if that fits a Go duration: whole seconds lose nothing in a float64.
pub session_timeout-activated :
    (plan : Plan) (t : Token) (now : Time) (mac : Text) (m : ℕ)
    → plan.duration_minutes ≡ pos m
    → 0 < m
    → m * 60_000_000_000 < 2 ^ 63
    → session_timeout plan (activated t plan mac now) now ≡ pos (m * 60)
unfolding minutes_long ◌*ℤ◌
session_timeout-activated plan t now mac m h some_minutes small =
    let long : minutes_long plan.duration_minutes ≡ pos (m * 60_000_000_000) =
      rw h (ground (arith, wrap_id (pos (m * 60_000_000_000)))) in
    let same : m * 60_000_000_000 ≡ m * 60 * nanoseconds = omega arith in
    timeout_left plan (activated t plan mac now) now m (m * 60_000_000_000) (m * 60) h some_minutes
      (omega arith) (rw long) small (ap seconds_of same ∙ seconds_of-whole (m * 60))
    ∙ ap pos (ground arith)
