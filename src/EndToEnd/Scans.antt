-- ===== src/EndToEnd/Scans.antt =====
-- The controller's scanning thread and the gateway's server together.
use sdpgateway_verification.Prelude.{
  ℕ, ◌+◌, ◌≤◌, ◌≡◌, ◌∙◌, refl, sym, ap, Bool, true, false, List, [], ◌∷◌, ◌++◌, arith, ℤ, pos,
  Bytes, bytes_eq, bytes_eq_refl, txt, length, done,
}
use sdpgateway_verification.CommDef.{
  tcp_port_application, ip_client_pb, ip_controller_pb, ip_application_pb,
}
use sdpgateway_verification.Env.{Env}
use sdpgateway_verification.Messages.{RoundTrips, BlackListOpReq}
use sdpgateway_verification.Packet.{new_packet, ret_msg_field}
use sdpgateway_verification.Io.{got, wrote, rd_buf_size}
use sdpgateway_verification.Io.Write.{after_interrupts}
use sdpgateway_verification.Iptables.{Shell, is_ip_in_white_list}
use sdpgateway_verification.Iptables.Rules.{occurrences}
use sdpgateway_verification.Iptables.Chain.{chain, lets_in}
use sdpgateway_verification.Gateway.{
  Gateway, Event, black_list, handle, run, gate_func_black_list_op, new_gateway_config,
  sdp_app_gateway, controller_black_list_is_in,
}
use sdpgateway_verification.Gateway.Replay.{run_append}
use sdpgateway_verification.Gateway.Firewall.{seeds, guarded, firewall_lets_in_white_list}
use sdpgateway_verification.Gateway.Perimeter.{closed_to}
use sdpgateway_verification.Gateway.Access.{access_of, Access_eq, black_list-access}
use sdpgateway_verification.Erpc.{SocketInfo, handle_rpc_request}
use sdpgateway_verification.Erpc.Services.{gateway_service}
use sdpgateway_verification.Erpc.Reply.{answering, gate_func_black_list_op_request_remote}
use sdpgateway_verification.Runners.{scanning, add_black, del_black}

-- The gateway after the two requests of a round.
abbrev pub scanned : Gateway → Gateway
scanned g = (gate_func_black_list_op del_black (gate_func_black_list_op add_black g).1).1

unseeded : occurrences ip_client_pb seeds ≡ 0
unfolding occurrences bytes_eq ip_client_pb ip_controller_pb ip_application_pb
unseeded = refl

module _ {K : Type 0} (env : Env K) (sh : Shell) (es : List Event) {g : Gateway}
    (history : run env es (sdp_app_gateway (new_gateway_config sh)) ≡ done g) where
  one_more :
      (req : BlackListOpReq)
      → run env (es ++ black_list req ∷ []) (sdp_app_gateway (new_gateway_config sh))
        ≡ done (gate_func_black_list_op req g).1
  unfolding run handle
  one_more req = run_append env es (black_list req ∷ []) _ {g' = g} history refl

module _ {K : Type 0} (env : Env K) (sh : Shell) (es : List Event) {g : Gateway}
    (history : run env es (sdp_app_gateway (new_gateway_config sh)) ≡ done g) where
  scanned_history :
      run env
        ((es ++ black_list add_black ∷ []) ++ black_list del_black ∷ [])
        (sdp_app_gateway (new_gateway_config sh))
      ≡ done (scanned g)
  scanned_history =
      one_more env sh (es ++ black_list add_black ∷ [])
        {g = (gate_func_black_list_op add_black g).1} (one_more env sh es {g = g} history add_black)
        del_black

  -- The client is off both lists.
  scanned_access : access_of ip_client_pb (scanned g) ≡ closed_to
  unfolding access_of
  scanned_access =
      let g1 = (gate_func_black_list_op add_black g).1 in
      let added =
        black_list-access ip_client_pb add_black g
          (guarded env sh es ip_client_pb {g = g} unseeded history) in
      let deleted = black_list-access ip_client_pb del_black g1 (
        guarded env sh (es ++ black_list add_black ∷ []) ip_client_pb {g = g1} unseeded
          (one_more env sh es {g = g} history add_black)) in
      deleted
      ∙ Access_eq (ground (arith, bytes_eq_refl ip_client_pb, ap (λ a. a.opened) added))
          (ground (arith, bytes_eq_refl ip_client_pb))

  scanned_port : (scanned g).app_tcp_port ≡ tcp_port_application
  scanned_port =
      (guarded env sh ((es ++ black_list add_black ∷ []) ++ black_list del_black ∷ []) ip_client_pb
        {g = scanned g} unseeded scanned_history).port

  scanned_is_dropped :
      (policy : Bool)
      → lets_in policy ip_client_pb tcp_port_application
          (chain (scanned g).whitelist.iptool.executed)
        ≡ false
  unfolding access_of
  scanned_is_dropped policy =
      firewall_lets_in_white_list env sh
        ((es ++ black_list add_black ∷ []) ++ black_list del_black ∷ []) ip_client_pb
        {g = scanned g} unseeded scanned_history policy
      ∙ ap (λ p. is_ip_in_white_list ip_client_pb p (scanned g).whitelist) (sym scanned_port)
      ∙ ap (λ a. a.opened) scanned_access

  scanned_is_lifted :
      controller_black_list_is_in ip_client_pb tcp_port_application (scanned g) ≡ false
  unfolding access_of
  scanned_is_lifted =
      ap (λ p. controller_black_list_is_in ip_client_pb p (scanned g)) (sym scanned_port)
      ∙ ap (λ a. a.banned) scanned_access

  -- A round of the controller's scanning thread and the gateway's server, after whatever events the
  -- gateway has handled since its start, on two connections that take all that is written,
  -- packets of at most RD_BUF_SIZE bytes, and bring each in one piece, with codecs that round-trip:
  -- the server answers both requests that the thread sends, and then the firewall drops the
  -- client's TCP packets to the application port, and the client is not on the black list, so that
  -- it may knock again.
  pub scan_round_shuts_out :
      (info : SocketInfo) (now k n : ℕ) (junk : ℤ) (policy : Bool)
      → RoundTrips env.black_list_op_req
      → RoundTrips env.empty_rsp
      → 58 + length (env.empty_rsp.serialize (record {})) ≤ n
      → 4 + length (env.black_list_op_req.serialize add_black) ≤ n
      → 4 + length (env.black_list_op_req.serialize del_black) ≤ n
      → n ≤ rd_buf_size
      → (sent answer sent2 answer2 : Bytes) × (g1 g2 : Gateway) × (scanning env
            (((λ ip port. answering k n answer), (λ ip port. answering k n answer2)) ∷ [])
          ≡ done (sent ∷ sent2 ∷ []))
        × (handle_rpc_request env
              (gateway_service env now junk)
              true
              info
              (got sent)
              (after_interrupts k (wrote n ∷ []))
              g
            ≡ done (pos 0, answer, g1))
        × (handle_rpc_request env
              (gateway_service env now junk)
              true
              info
              (got sent2)
              (after_interrupts k (wrote n ∷ []))
              g1
            ≡ done (pos 0, answer2, g2))
        × (lets_in policy ip_client_pb tcp_port_application (chain g2.whitelist.iptool.executed)
            ≡ false)
        × (controller_black_list_is_in ip_client_pb tcp_port_application g2 ≡ false)
  unfolding scanning gateway_service
  scan_round_shuts_out info now k n junk policy req_codec rsp_codec room add_room del_room buffer =
      let service = gateway_service env now junk in
      let g1 = (gate_func_black_list_op add_black g).1 in
      let (sent, answer, served, called) =
        gate_func_black_list_op_request_remote env service add_black (record {}) (record {})
          new_packet.header info (gate_func_black_list_op add_black g).0 k n g g1 req_codec
          rsp_codec refl room add_room buffer in
      let (sent2, answer2, served2, called2) =
        gate_func_black_list_op_request_remote env service del_black (record {}) (record {})
          (record { ret_code = pos 0; ret_msg = ret_msg_field (txt "Request OK") }) info
          (gate_func_black_list_op del_black g1).0 k n g1 (scanned g) req_codec rsp_codec refl room
          del_room buffer in
      (
        sent,
        answer,
        sent2,
        answer2,
        g1,
        scanned g,
        ground (arith, called, called2),
        served,
        served2,
        scanned_is_dropped policy,
        scanned_is_lifted,
      )
