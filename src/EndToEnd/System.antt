-- ===== src/EndToEnd/System.antt =====
-- The whole system: a gateway starts and registers with a controller, a client of an account asks
-- the controller and knocks, and the gateway's firewall lets the client in.
use sdpgateway_verification.Prelude.{ℕ, ◌≡◌, true, Bool, List, [], ◌∷◌, ◌++◌, ℤ, pos, Bytes, done}
use mathlib.Core.List.{map}
use sdpgateway_verification.Map.{bytes_key}
use sdpgateway_verification.CommDef.{tcp_port_application}
use sdpgateway_verification.Messages.{AccessItem, Voucher, VoucherPacket}
use sdpgateway_verification.Env.{Env}
use sdpgateway_verification.Io.{got, wrote, datagram}
use sdpgateway_verification.Io.Write.{after_interrupts}
use sdpgateway_verification.Erpc.{SocketInfo, handle_rpc_request, handle_udp_request}
use sdpgateway_verification.Erpc.Services.{gateway_service, controller_service}
use sdpgateway_verification.Erpc.Reply.{answering}
use sdpgateway_verification.Iptables.{Shell}
use sdpgateway_verification.Iptables.Chain.{chain, lets_in}
use sdpgateway_verification.Gateway.{Gateway, new_gateway_config, sdp_app_gateway}
use sdpgateway_verification.Gateway.Admission.{admitted}
use sdpgateway_verification.Controller.Config.{Controller}
use sdpgateway_verification.Controller.Access.{app_of}
use sdpgateway_verification.Client.{Sending, get_accessible_app_list}
use sdpgateway_verification.Client.Knocks.{knock_of}
use sdpgateway_verification.EndToEnd.ClientRun.{controller_knock}
use sdpgateway_verification.EndToEnd.Registration.{https_item}

-- The gateway as it starts.
abbrev pub fresh_gateway : Shell → Gateway
fresh_gateway sh = sdp_app_gateway (new_gateway_config sh)

-- What a client of the account finds once the gateway at `gate` is registered: an entry of its list
-- for the application, the controller's answer, its own run with this answer, and what its knock
-- for the entry does to the gateway.
pub record IsServed {K : Type 0} (env : Env K) (sendings : ℕ → Sending) (stamp : ℕ → ℕ × ℕ)
    (gate client : SocketInfo) (c : Controller) (voucher : Voucher) (packet : VoucherPacket)
    (g : Gateway) (k n now : ℕ) (junk port : ℤ) (policy : Bool) : Type 0 where
  pub before : List AccessItem
  pub entry : AccessItem
  pub behind : List AccessItem
  pub sent : Bytes
  pub answer : Bytes
  pub for_application : app_of entry ≡ (gate.ip, https_item)
  pub answered :
      handle_rpc_request env
        (controller_service env stamp)
        true
        client
        (got sent)
        (after_interrupts k (wrote n ∷ []))
        c
      ≡ done (pos 0, answer, c)
  pub ran :
      get_accessible_app_list env sendings (λ ip port. answering k n answer) voucher []
      ≡ done (
        pos 0,
        before ++ entry ∷ behind,
        controller_knock env packet ∷ map (knock_of env) (before ++ entry ∷ behind),
      )
  pub handled :
      handle_udp_request env
        (gateway_service env now junk)
        (datagram (knock_of env entry).msg client.ip port)
        g
      ≡ done (pos 0, admitted entry.ticket_packet.sign_data client.ip g)
  pub passes :
      lets_in policy client.ip tcp_port_application
        (chain (admitted entry.ticket_packet.sign_data client.ip g).whitelist.iptool.executed)
      ≡ true
