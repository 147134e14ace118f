-- ===== src/Http/Context.antt =====
-- What the handlers read of a request: `resolveDeviceMAC`, `resolveGatewayID` and their like in
-- backend/internal/http/handlers/portal_handler.go. A missing value is the empty text.
use wi_fi_man.Common.{not, List, [], ◌∷◌, Text, bytes, is_empty, if◌then◌else◌}
use wi_fi_man.Common.Exec.{ok, err}
use wi_fi_man.Util.Ascii.{trim_space}
use wi_fi_man.Util.Mac.{normalize_mac}

pub record Context : Type 0 where
  pub query : Text → Text
  pub post_form : Text → Text
  pub header : Text → Text
  pub client_ip : Text

-- The first candidate that is a device address, normalised.
unfoldable pub first_mac : List Text → Text
first_mac [] = []
first_mac (v ∷ vs) = elim (normalize_mac v) [ ok clean ↦ clean | err _ ↦ first_mac vs ]

-- The first candidate that is not blank, trimmed.
unfoldable pub first_clean : List Text → Text
first_clean [] = []
first_clean (v ∷ vs) =
    let clean = trim_space v in if not (is_empty clean) then clean else first_clean vs

unfoldable pub resolve_device_mac : Context → Text
unfolding first_mac
resolve_device_mac c = first_mac (
    c.query (bytes "calling-station-id")
    ∷ c.query (bytes "mac")
    ∷ c.query (bytes "mac-address")
    ∷ c.query (bytes "client_mac")
    ∷ c.query (bytes "device_mac")
    ∷ c.post_form (bytes "device_mac")
    ∷ c.post_form (bytes "mac")
    ∷ c.post_form (bytes "mac-address")
    ∷ c.post_form (bytes "client_mac")
    ∷ c.post_form (bytes "calling-station-id")
    ∷ c.header (bytes "X-Device-MAC")
    ∷ c.header (bytes "X-Calling-Station-Id")
    ∷ c.header (bytes "Calling-Station-Id")
    ∷ c.header (bytes "X-Mikrotik-Mac")
    ∷ c.header (bytes "X-Mikrotik-Calling-Station-Id")
    ∷ [])

unfoldable pub resolve_gateway_id : Context → Text
unfolding first_clean
resolve_gateway_id c = first_clean (
    c.query (bytes "gateway_id")
    ∷ c.query (bytes "ap")
    ∷ c.post_form (bytes "gateway_id")
    ∷ c.header (bytes "X-Gateway-ID")
    ∷ [])

unfoldable pub resolve_link_login_only : Context → Text
unfolding first_clean
resolve_link_login_only c = first_clean (
    c.query (bytes "link-login-only")
    ∷ c.query (bytes "link_login_only")
    ∷ c.post_form (bytes "link_login_only")
    ∷ c.post_form (bytes "link-login-only")
    ∷ c.header (bytes "X-Link-Login-Only")
    ∷ [])

unfoldable pub resolve_dst : Context → Text
unfolding first_clean
resolve_dst c = first_clean (c.query (bytes "dst") ∷ c.post_form (bytes "dst") ∷ [])

unfoldable pub resolve_popup : Context → Text
unfolding first_clean
resolve_popup c = first_clean (c.query (bytes "popup") ∷ c.post_form (bytes "popup") ∷ [])
