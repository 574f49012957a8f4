-- ===== src/Client.antt =====
-- modules/client: the client that knocks and reads its list (sdp_verify_client), and the one that
-- opens an application (sdp_access_client). Also the controller's call of the gateway's black list
-- (modules/controller/sdp_controller_tool.cpp).
pub mod Knocks
use sdpgateway_verification.Prelude.{
  ℕ, ◌+◌, Bool, true, false, Option, none, some, List, [], ◌∷◌, ◌++◌, if◌then◌else◌, ℤ, pos,
  minus_one, Bytes, txt, bytes_eq, Outcome, done, ◌>>=◌,
}
use sdpgateway_verification.Tlog.{i_assert}
use sdpgateway_verification.Messages.{
  Voucher, VoucherPacket, TicketPacket, GetAccessReq, GetAccessRsp, AccessItem, AppItem,
  BlackListOpReq, EmptyRsp,
}
use sdpgateway_verification.CommDef.{ip_controller_pb, udp_port_controller, rsa_pub_key_controller}
use sdpgateway_verification.Env.{Env}
use sdpgateway_verification.Packet.{Header, new_packet}
use sdpgateway_verification.Spa.{Answer, failed, success, encrypt_voucher}
use sdpgateway_verification.Erpc.Client.{
  Network, udp_func_request, con_func_get_access_request, gate_func_black_list_op_request,
  app_func_https_request,
}

-- The results of `socket` and `sendto` for one datagram, and a datagram with its destination.
pub record Sending : Type 0 where
  pub fd : ℤ
  pub ret : ℤ

pub record Sent : Type 0 where
  pub ip : Bytes
  pub port : ℤ
  pub msg : Bytes

abbrev pub addressed : Bytes → ℤ → List Bytes → List Sent
addressed ip port [] = []
addressed ip port (msg ∷ msgs) = record { ip = ip; port = port; msg = msg } ∷ addressed ip port msgs

module _ {K : Type 0} (env : Env K) where
  -- The end of _SPAKnockingController, behind EncryptVoucher.
  unfoldable pub knock_controller : Sending → Bytes → ℤ → Answer VoucherPacket → ℤ × List Sent
  unfolding udp_func_request
  knock_controller sending ip port (failed ret) = (minus_one, [])
  knock_controller sending ip port (success packet) =
      let (ret, msgs) =
        udp_func_request sending.fd sending.ret 101 (env.voucher_packet.serialize packet) in
      i_assert ret (minus_one, addressed ip port msgs) (pos 0, addressed ip port msgs)

  -- _SPAKnockingController
  unfoldable pub spa_knocking_controller : Sending → Voucher → Bytes → ℤ → Outcome (ℤ × List Sent)
  unfolding encrypt_voucher knock_controller
  spa_knocking_controller sending voucher ip port = do
    answer ← encrypt_voucher env.ssl env.voucher voucher rsa_pub_key_controller
    done (knock_controller sending ip port answer)

  -- _SPAKnockingGateway
  unfoldable pub spa_knocking_gateway : Sending → TicketPacket → Bytes → ℤ → ℤ × List Sent
  unfolding udp_func_request
  spa_knocking_gateway sending packet ip port =
      let (ret, msgs) =
        udp_func_request sending.fd sending.ret 201 (env.ticket_packet.serialize packet) in
      i_assert ret (minus_one, addressed ip port msgs) (pos 0, addressed ip port msgs)

  -- The loop of GetAccessibleAppList over the access list; `i` counts the knocks.
  unfoldable pub knock_gateways :
      (ℕ → Sending) → ℕ → List AccessItem → List AccessItem → ℤ × List AccessItem × List Sent
  unfolding spa_knocking_gateway
  knock_gateways sendings i [] list = (pos 0, list, [])
  knock_gateways sendings i (item ∷ items) list =
      let (ret, sent) =
        spa_knocking_gateway (sendings i) item.ticket_packet item.ip item.app.gate_udp_port in
      let (ret2, list', sent2) = knock_gateways sendings (i + 1) items (list ++ item ∷ []) in
      i_assert ret (minus_one, list, sent) (ret2, list', sent ++ sent2)

  -- GetAccessibleAppList: the result, the list, and the datagrams; `sendings 0` is the knock on the
  -- controller.
  unfoldable pub get_accessible_app_list :
      (ℕ → Sending)
      → Network
      → Voucher
      → List AccessItem
      → Outcome (ℤ × List AccessItem × List Sent)
  unfolding spa_knocking_controller con_func_get_access_request knock_gateways
  get_accessible_app_list sendings network voucher list = do
    (ret, knock) ← spa_knocking_controller (sendings 0) voucher ip_controller_pb udp_port_controller
    i_assert ret (done (minus_one, list, knock)) (do
      (ret2, rsp, header, sent) ←
          con_func_get_access_request env network (record { account = voucher.account })
            (record { access_list = [] }) new_packet.header
      let (ret3, list', knocks) = knock_gateways sendings 1 rsp.access_list list
      i_assert ret2 (done (minus_one, list, knock)) (done (ret3, list', knock ++ knocks)))

-- The search for an HTTPS application in AccessApplication_HTTPS.
unfoldable pub find_https : List AccessItem → Option AccessItem
find_https [] = none
find_https (it ∷ list) =
    let rest = find_https list in if bytes_eq it.app.appname (txt "HTTPS") then some it else rest

-- AccessApplication_HTTPS: the result and what has gone out.
unfoldable pub access_application_https : ℤ → Network → List AccessItem → Outcome (ℤ × Bytes)
unfolding find_https app_func_https_request
access_application_https junk network list = elim (find_https list) [
  | none ↦ done (minus_one, [])
  | some item ↦ do
    (ret, response, sent) ←
        app_func_https_request junk network (txt "https://www.sdpverificaton.com/test") [] item.ip
          item.app.app_tcp_port
    i_assert ret (done (minus_one, sent)) (done (pos 0, sent))
]

-- AddUserBlackList
unfoldable pub add_user_black_list :
    {K : Type 0} → Env K → Network → ℤ → Bytes → ℤ → Outcome (ℤ × Bytes)
unfolding gate_func_black_list_op_request
add_user_black_list env network op ip port = do
  (ret, rsp, header, sent) ←
      gate_func_black_list_op_request env network (record { op = op; ip = ip; port = port })
        (record {}) new_packet.header
  i_assert ret (done (minus_one, sent)) (done (pos 0, sent))
