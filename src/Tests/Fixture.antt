-- ===== src/Tests/Fixture.antt =====
-- A small installation: one plan of an hour, one unused voucher, a gateway that accepts every request.
use wi_fi_man.Common.{◌*◌, true, [], ◌∷◌, none, some, bytes}
use wi_fi_man.Common.Int.{pos}
use wi_fi_man.Common.Exec.{ok, err}
use wi_fi_man.Domain.{Plan, Token, TokenStatus, message}
use wi_fi_man.Store.Memory.{MemoryStore, new_memory_store}
use wi_fi_man.World.{Env, World}
use wi_fi_man.Service.Token.Redeem.{RedeemInput}

-- Time zero; a second passes with every reading of the clock.
abbrev pub env : Env
env = record {
  now = λ n. pos (n * 1_000_000_000);
  new_uuid = λ n. n ∷ [];
  rand_read = λ n k. some (n ∷ n ∷ n ∷ n ∷ []);
  sha256_hex = λ s. s;
  hmac_sha256_hex = λ payload key. key;
  format_time = λ t. [];
  has_gateway = true;
  controller = some (λ n s r. ok tt);
  retry_queue = some (λ n. true);
}

-- The same with a gateway that refuses every request.
abbrev pub deaf_env : Env
deaf_env = record env { controller = some (λ n s r. err (message (bytes "timeout"))) }

abbrev pub hour : Plan
hour = record {
  id = bytes "hour";
  name = bytes "1 Hour Basic";
  duration_minutes = pos 60;
  data_limit_mb = pos 1024;
  speed_down_kbps = pos 3000;
  speed_up_kbps = pos 1000;
  device_limit = pos 1;
  price = 0;
  active = true;
  created_at = pos 0;
  updated_at = pos 0;
}

abbrev pub voucher : Token
voucher = record {
  id = bytes "t1";
  plan_id = bytes "hour";
  code_hash = bytes "AB-2";
  status = TokenStatus.unused;
  created_at = pos 0;
  updated_at = pos 0;
  activated_at = none;
  expires_at = none;
  used_by_device_mac = none;
  payment_id = none;
  notes = [];
  sold_by_agent_id = none;
  revoked_reason = [];
}

abbrev pub store : MemoryStore
store = record new_memory_store {
  plans = (bytes "hour", hour) ∷ [];
  tokens = (bytes "t1", voucher) ∷ [];
  token_by_hash = (bytes "AB-2", bytes "t1") ∷ [];
}

abbrev pub world : World
world = record {
  store = store;
  clock = 1;
  uuids = 7;
  reads = 0;
  sent = [];
  enqueued = 0;
  queue = [];
}

-- A request with the code typed carelessly.
abbrev pub request : RedeemInput
request = record {
  code = bytes " ab-2 ";
  device_mac = bytes "aa-bb-cc-dd-ee-01";
  ip = bytes "10.0.0.5";
  gateway_id = bytes "gw";
  radius_session_id = bytes "acct-1";
  nas_ip = bytes "10.0.0.1";
  nas_identifier = [];
}

-- The same from another device.
abbrev pub other_request : RedeemInput
other_request = record request { device_mac = bytes "aa-bb-cc-dd-ee-02" }
