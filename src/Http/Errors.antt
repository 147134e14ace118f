-- ===== src/Http/Errors.antt =====
-- `writeServiceError` of backend/internal/http/handlers/common.go.
use wi_fi_man.Common.{ℕ, Text}
use wi_fi_man.Domain.{
  Error, invalid_input, not_found, invalid_token, token_expired, token_revoked, token_consumed,
  token_device_bound, plan_inactive, invalid_signature, unauthorized_role, session_not_found,
  session_not_active, message, error_text,
}

unfoldable pub status_of : Error → ℕ
status_of invalid_input = 400
status_of not_found = 404
status_of invalid_token = 401
status_of token_expired = 403
status_of token_revoked = 403
status_of token_consumed = 403
status_of token_device_bound = 403
status_of plan_inactive = 400
status_of invalid_signature = 401
status_of unauthorized_role = 500
status_of session_not_found = 404
status_of session_not_active = 500
status_of (message t) = 500

-- The status and the `error` field that are written.
unfoldable pub write_service_error : Error → ℕ × Text
unfolding status_of error_text
write_service_error e = (status_of e, error_text e)
