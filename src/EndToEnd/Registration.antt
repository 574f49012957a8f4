-- ===== src/EndToEnd/Registration.antt =====
-- The registration at the end of SDPAppGateway() (modules/gateway/sdp_gateway.cpp) with the
-- controller's server at the other end, and the access list that it leads to.
use sdpgateway_verification.Prelude.{
  ℕ, ◌+◌, ◌≤◌, ◌≡◌, ◌∙◌, refl, true, [], ◌∷◌, arith, pos, Bytes, txt, bytes_eq_refl, length, Any,
  List, done,
}
use sdpgateway_verification.Map.{bytes_key}
use sdpgateway_verification.CommDef.{
  udp_port_appgateway, tcp_port_application, rsa_pub_key_controller, rsa_pri_key_controller,
  rsa_pub_key_gateway, rsa_pri_key_gateway,
}
use sdpgateway_verification.Messages.{RoundTrips, AppItem, AccessItem, GetAccessReq}
use sdpgateway_verification.Env.{Env}
use sdpgateway_verification.Packet.{new_packet}
use sdpgateway_verification.Io.{got, wrote, rd_buf_size}
use sdpgateway_verification.Io.Write.{after_interrupts}
use sdpgateway_verification.Spa.RoundTrip.{decrypt_ticket-encrypt_ticket}
use sdpgateway_verification.Erpc.{SocketInfo, handle_rpc_request, request_forward_with_cmd}
use sdpgateway_verification.Erpc.Services.{controller_service}
use sdpgateway_verification.Erpc.Client.{con_func_register_app_request}
use sdpgateway_verification.Erpc.Reply.{answering, func_request_remote}
use sdpgateway_verification.Gateway.{register_app_request}
use sdpgateway_verification.Controller.{con_func_get_access, con_func_register_app, destination}
use sdpgateway_verification.Controller.Config.{Controller}
use sdpgateway_verification.Controller.Access.{app_of}
use sdpgateway_verification.Controller.Register.{is_user, is_destination, con_func_register_app_lem}
use sdpgateway_verification.Controller.Registered.{MakesTickets, con_func_get_access_lists}
use sdpgateway_verification.Server.Starts.{gateway_registers}
use sdpgateway_verification.EndToEnd.{Keys}

abbrev pub https_item : AppItem
https_item = record {
  gate_udp_port = udp_port_appgateway;
  app_tcp_port = tcp_port_application;
  appname = txt "HTTPS";
  description = txt "HTTP over TLS";
}

-- The controller after the registration from the address.
abbrev pub registered : Bytes → Controller → Controller
registered ip c = (con_func_register_app ip register_app_request c).1

makes_tickets : {K : Type 0} (env : Env K) → Keys env → RoundTrips env.ticket → MakesTickets env
makes_tickets env keys ticket_codec ticket =
    let (packet, made, _) =
      decrypt_ticket-encrypt_ticket env.ssl keys.md5_works keys.gate_pub keys.gate_pri
        keys.encrypting rsa_pub_key_gateway rsa_pri_key_gateway keys.gate_pub_file
        keys.gate_pri_file keys.con_pub keys.con_pri keys.signing rsa_pub_key_controller
        rsa_pri_key_controller keys.con_pub_file keys.con_pri_file env.ticket ticket ticket_codec in
    (packet, made)

module _ {K : Type 0} (env : Env K) (keys : Keys env) (ticket_codec : RoundTrips env.ticket)
    (req_codec : RoundTrips env.register_app_req) (rsp_codec : RoundTrips env.empty_rsp) where
  -- With the keys in their files, codecs that round-trip and connections that take all that is
  -- written, packets of at most RD_BUF_SIZE bytes, and bring each in one piece: the controller's
  -- server answers the bytes by which a gateway registers its application, and right after the
  -- registration ConFuncGetAccess succeeds for each of the accounts that a registration authorises,
  -- whatever address asks, and its list has an entry for the application at the gateway's address.
  pub registration_lists_application :
      (stamp : ℕ → ℕ × ℕ) (info : SocketInfo) (k n : ℕ) (c : Controller) (req : GetAccessReq)
      (client_ip : Bytes)
      → 58 + length (env.empty_rsp.serialize (record {})) ≤ n
      → 4 + length (env.register_app_req.serialize register_app_request) ≤ n
      → n ≤ rd_buf_size
      → is_user req.account.acc ≡ true
      → ((sent answer : Bytes) × (gateway_registers env (λ ip port. answering k n answer)
            ≡ done sent)
          × (handle_rpc_request env
                (controller_service env stamp)
                true
                info
                (got sent)
                (after_interrupts k (wrote n ∷ []))
                c
              ≡ done (pos 0, answer, registered info.ip c)))
        × ((list : List AccessItem) × (con_func_get_access env stamp client_ip req
                (registered info.ip c)
              ≡ done (pos 0, list))
            × Any (λ (a : AccessItem). app_of a ≡ (info.ip, https_item)) list)
  unfolding gateway_registers con_func_register_app_request request_forward_with_cmd
      controller_service register_app_request is_destination
  registration_lists_application stamp info k n c req client_ip room room2 buffer user =
      let (sent, answer, served, called) =
        func_request_remote env (controller_service env stamp) env.register_app_req env.empty_rsp
          103 register_app_request (record {}) (record {}) new_packet.header info k n c
          (registered info.ip c) (omega arith) rsp_codec
          (ground (arith, req_codec.parse-serialize register_app_request)) room room2 buffer in
      let (ok, stored, permitted) =
        con_func_register_app_lem info.ip https_item [] c req.account.acc
          (destination info.ip https_item) info.ip in
      (
        (sent, answer, rw called refl, served),
        con_func_get_access_lists env stamp client_ip info.ip req https_item []
            (registered info.ip c) (makes_tickets env keys ticket_codec)
            (permitted ∙ ground (arith, user, bytes_eq_refl (destination info.ip https_item)))
            (stored ∙ ground (arith, bytes_eq_refl info.ip)),
      )
