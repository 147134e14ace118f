-- ===== src/Program/OneDevice.antt =====
-- One voucher, one device, whatever the program does in between.
use wi_fi_man.Common.{◌≡◌, ◌≢◌, sym, inl, inr, Text, Bool-cases}
use mathlib.Core.Path.{subst}
use wi_fi_man.Common.Exec.{ok, Keeps, bind-Keeps, Result-cases}
use wi_fi_man.Domain.{Session, GatewayPolicy}
use wi_fi_man.World.{Env, World}
use wi_fi_man.Util.Mac.{normalize_mac}
use wi_fi_man.Util.TokenCode.{hash_token_code}
use wi_fi_man.Store.Memory.Index.{IsIndexed}
use wi_fi_man.Jobs.{PayloadCodec, Task, handle_gateway_disconnect}
use wi_fi_man.Service.Gateway.{disconnect_session}
use wi_fi_man.Service.Radius.{RadiusAuthInput, allow, reject, authenticate}
use wi_fi_man.Service.Radius.Device.{authenticate-IsBlocked, authenticate-blocked}
use wi_fi_man.Service.Token.Redeem.Blocked.{IsBlocked}
use wi_fi_man.Http.Router.Serve.{Setting}
use wi_fi_man.Program.{
  Step, requested, access_packet, accounting_packet, disconnect_task, Run, rest, then,
}
use wi_fi_man.Program.Accounting.{disconnect_session-IsBlocked}
use wi_fi_man.Program.Gateway.{handle_auth_packet-IsBlocked, handle_accounting_packet-IsBlocked}
use wi_fi_man.Program.Served.{serve-IsBlocked}

module _ (env : Env) (g : Setting) (md5 : Text → Text) (codec : PayloadCodec) (hash m : Text) where
  handle_gateway_disconnect-IsBlocked :
      (task : Task) → Keeps (IsBlocked hash m) (handle_gateway_disconnect env codec task)
  unfolding handle_gateway_disconnect
  handle_gateway_disconnect-IsBlocked task w v = elim (Bool-cases env.has_gateway) [
    | inr off ↦ rw (handle_gateway_disconnect, off) v
    | inl on ↦ elim (Result-cases (codec.unmarshal task.payload)) [
      | inr (x, e) ↦ rw (handle_gateway_disconnect, on, e) v
      | inl (p, e) ↦
          rw (handle_gateway_disconnect, on, e)
            (bind-Keeps (IsBlocked hash m) (disconnect_session env _) _
              (disconnect_session-IsBlocked env hash m _) (λ a w' v'. v') w v)
    ]
  ]

  Step-IsBlocked :
      {w w' : World} → Step env g md5 codec w w' → IsBlocked hash m w → IsBlocked hash m w'
  Step-IsBlocked {w} {w'} (requested q a e) v = serve-IsBlocked env g hash m q w w' a v e
  Step-IsBlocked {w} (access_packet raw remote e) v =
      subst (IsBlocked hash m) e
        (handle_auth_packet-IsBlocked env hash m md5 g.cfg.radius_key raw remote w v)
  Step-IsBlocked {w} (accounting_packet raw remote e) v =
      subst (IsBlocked hash m) e
        (handle_accounting_packet-IsBlocked env hash m md5 g.cfg.radius_key raw remote w v)
  Step-IsBlocked {w} (disconnect_task task e) v =
      subst (IsBlocked hash m) e (handle_gateway_disconnect-IsBlocked task w v)

  Run-IsBlocked :
      {w w' : World} → Run env g md5 codec w w' → IsBlocked hash m w → IsBlocked hash m w'
  Run-IsBlocked rest v = v
  Run-IsBlocked (then s r) v = Run-IsBlocked r (Step-IsBlocked s v)

module _ (env : Env) (g : Setting) (md5 : Text → Text) (codec : PayloadCodec) where
  -- Once an access request has been granted, in a store with an intact index of tokens, an access
  -- request of another device with the same code, in any spelling, is rejected, whatever HTTP
  -- requests, RADIUS packets and disconnect tasks the program handles in between, in any order.
  pub Run-one_device :
      (a b : RadiusAuthInput) (w w1 w2 : World) (s : Session) (p : GatewayPolicy) (n m : Text)
      → IsIndexed w.store
      → normalize_mac a.calling_station_id ≡ ok n
      → normalize_mac b.calling_station_id ≡ ok m
      → n ≢ m
      → hash_token_code env.sha256_hex b.user_name ≡ hash_token_code env.sha256_hex a.user_name
      → authenticate env a w ≡ (allow s p, w1)
      → Run env g md5 codec w1 w2
      → (reason : Text) × ((authenticate env b w2).0 ≡ reject reason)
  Run-one_device a b w w1 w2 s p n m v na nb ne hash h run =
      let h_of = hash_token_code env.sha256_hex in
      let shut = authenticate-IsBlocked env a w w1 s p n m v na ne h in
      let still = Run-IsBlocked env g md5 codec (h_of a.user_name) m run shut in
      authenticate-blocked env b w2 m nb (subst (λ (x : Text). IsBlocked x m w2) (sym hash) still)
