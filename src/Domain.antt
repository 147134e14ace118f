-- ===== src/Domain.antt =====
-- backend/internal/domain/models.go and the sentinel errors of backend/internal/service/errors.go.
-- A time is a number of nanoseconds, an `int` or `int64` an integer, a `float64` its bit pattern.
use wi_fi_man.Common.{ℕ, ◌-◌, ◌*◌, ◌^◌, Bool, ◌&&◌, Option, Text, bytes, ltb, leb}
use wi_fi_man.Common.Int.{ℤ}

pub data TokenStatus : Type 0 where
  created unused active expired consumed revoked : TokenStatus

pub data SessionStatus : Type 0 where
  active ended : SessionStatus

pub data PaymentStatus : Type 0 where
  pending paid failed : PaymentStatus

abbrev pub Time : Type 0
Time = ℤ

abbrev pub Float64 : Type 0
Float64 = ℕ

-- `x < 0`: the sign bit is set, and the value is neither -0 nor a NaN.
unfoldable pub is_negative : Float64 → Bool
is_negative x = ltb (2 ^ 63) x && leb (x - 2 ^ 63) (0x7ff * 2 ^ 52)

-- A decoded JSON value, the `any` of a payment's metadata. A number is kept as it is spelled.
mutual
  pub data Json : Type 0 where
    null : Json
    boolean : Bool → Json
    number : Text → Json
    text : Text → Json
    array : Items → Json
    object : Fields → Json

  pub data Items : Type 0 where
    nil : Items
    cons : Json → Items → Items

  pub data Fields : Type 0 where
    end : Fields
    field : Text → Json → Fields → Fields

pub record Plan : Type 0 where
  pub id : Text
  pub name : Text
  pub duration_minutes : ℤ
  pub data_limit_mb : ℤ
  pub speed_down_kbps : ℤ
  pub speed_up_kbps : ℤ
  pub device_limit : ℤ
  pub price : Float64
  pub active : Bool
  pub created_at : Time
  pub updated_at : Time

pub record Token : Type 0 where
  pub id : Text
  pub plan_id : Text
  pub code_hash : Text
  pub status : TokenStatus
  pub created_at : Time
  pub updated_at : Time
  pub activated_at : Option Time
  pub expires_at : Option Time
  pub used_by_device_mac : Option Text
  pub payment_id : Option Text
  pub notes : Text
  pub sold_by_agent_id : Option Text
  pub revoked_reason : Text

pub record Session : Type 0 where
  pub id : Text
  pub token_id : Text
  pub device_mac : Text
  pub ip_address : Text
  pub gateway_id : Text
  pub radius_session_id : Text
  pub nas_ip : Text
  pub nas_identifier : Text
  pub disconnect_pending : Bool
  pub started_at : Time
  pub ended_at : Option Time
  pub bytes_up : ℤ
  pub bytes_down : ℤ
  pub status : SessionStatus
  pub end_reason : Text

pub record UsageRecord : Type 0 where
  pub id : Text
  pub session_id : Text
  pub token_id : Text
  pub bytes_up : ℤ
  pub bytes_down : ℤ
  pub created_at : Time

pub record Payment : Type 0 where
  pub id : Text
  pub amount : Float64
  pub currency : Text
  pub method : Text
  pub transaction_ref : Text
  pub status : PaymentStatus
  pub metadata : Option Fields
  pub created_at : Time
  pub updated_at : Time

pub record AuditLog : Type 0 where
  pub id : Text
  pub admin_id : Text
  pub action : Text
  pub entity_type : Text
  pub entity_id : Text
  pub metadata : Text
  pub created_at : Time

pub record GatewayPolicy : Type 0 where
  pub allow : Bool
  pub session_timeout_sec : ℤ
  pub data_quota_bytes : ℤ
  pub speed_down_kbps : ℤ
  pub speed_up_kbps : ℤ
  pub device_limit : ℤ
  pub mikrotik_rate_limit_vsa : Text

-- The sentinels, and `fmt.Errorf` with its text. `errors.Is` tells the sentinels apart.
pub data Error : Type 0 where
  invalid_input not_found invalid_token token_expired token_revoked : Error
  token_consumed token_device_bound plan_inactive invalid_signature : Error
  unauthorized_role session_not_found session_not_active : Error
  message : Text → Error

-- `err.Error()`.
unfoldable pub error_text : Error → Text
error_text invalid_input = bytes "invalid input"
error_text not_found = bytes "not found"
error_text invalid_token = bytes "invalid token"
error_text token_expired = bytes "token expired"
error_text token_revoked = bytes "token revoked"
error_text token_consumed = bytes "token consumed"
error_text token_device_bound = bytes "token bound to a different device"
error_text plan_inactive = bytes "plan inactive"
error_text invalid_signature = bytes "invalid signature"
error_text unauthorized_role = bytes "role unauthorized"
error_text session_not_found = bytes "session not found"
error_text session_not_active = bytes "session not active"
error_text (message t) = t
