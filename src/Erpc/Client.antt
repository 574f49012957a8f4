-- ===== src/Erpc/Client.antt =====
-- The client's side of comm/erpc: ErpcClient (erpc_client.cpp) and the Client functions of
-- erpc_handler.cpp. What the peer and the kernel do in one call is a script.
use sdpgateway_verification.Prelude.{
  ℕ, true, false, List, [], ◌++◌, ℤ, pos, minus_one, Bytes, Outcome, done, ◌>>=◌,
}
use sdpgateway_verification.Tlog.{i_assert}
use sdpgateway_verification.Messages.{
  GetAccessReq, GetAccessRsp, RegisterAppReq, BlackListOpReq, NoticeReq, ReverseReq, ReverseRsp,
  EmptyRsp, Codec,
}
use sdpgateway_verification.CommDef.{
  ip_controller_pb, ip_appgateway_pb, tcp_port_controller, tcp_port_appgateway,
}
use sdpgateway_verification.Env.{Env}
use sdpgateway_verification.Packet.{
  Packet, Header, new_packet, memory_copy_to_string, parse_data_from_string, pack_data_to_string,
}
use sdpgateway_verification.Io.{ReadResult, WriteResult, handle_read, handle_write, udp_send}

-- One TLS connection: the results of `connect` and SSLConnect, of the writes and of the read.
pub record Link : Type 0 where
  pub connected : ℤ
  pub ssl_connected : ℤ
  pub writes : List WriteResult
  pub read : ReadResult

-- What a connection to an address and a port is like.
abbrev pub Network : Type 0
Network = Bytes → ℤ → Link

-- The end of ClientRPCRequest, with what HandleRead has returned.
unfoldable pub read_response : ℤ → Bytes → Packet → Bytes → Outcome (ℤ × Packet × Bytes)
unfolding parse_data_from_string
read_response ret str packet_rsp sent = i_assert ret (done (minus_one, packet_rsp, sent)) (do
  (ret2, packet) ← parse_data_from_string packet_rsp str true
  i_assert ret2 (done (minus_one, packet, sent)) (done (pos 0, packet, sent)))

-- ClientRPCRequest: the result, the response packet and what has gone out. That a write is short is
-- logged only.
unfoldable pub client_rpc_request : Link → Packet → Packet → Outcome (ℤ × Packet × Bytes)
unfolding handle_write pack_data_to_string handle_read read_response
client_rpc_request link packet_req packet_rsp =
    i_assert link.connected (done (minus_one, packet_rsp, [])) (
      i_assert link.ssl_connected (done (minus_one, packet_rsp, [])) (do
        (ret, sent) ← handle_write link.writes (pack_data_to_string packet_req false)
        let (ret2, str) = handle_read link.read []
        read_response ret2 str packet_rsp sent))

-- ClientTCPRequest. It has no `return` on its last path, so what the caller gets there, `junk`, is
-- not determined by the source.
unfoldable pub client_tcp_request : ℤ → Link → Bytes → Bytes → Outcome (ℤ × Bytes × Bytes)
unfolding handle_write handle_read
client_tcp_request junk link request response =
    i_assert link.connected (done (minus_one, response, [])) (
      i_assert link.ssl_connected (done (minus_one, response, [])) (do
        (ret, sent) ← handle_write link.writes request
        let (ret2, str) = handle_read link.read response
        i_assert ret2 (done (minus_one, str, sent)) (done (junk, str, sent))))

-- ClientUDPRequest, given the results of `socket` and `sendto`: the result and the datagrams.
unfoldable pub client_udp_request : ℤ → ℤ → ℕ → Bytes → ℤ × List Bytes
unfolding memory_copy_to_string udp_send
client_udp_request fd ret cmdid msg =
    let (ret2, sent) = udp_send fd ret (memory_copy_to_string cmdid ++ msg) in
    i_assert ret2 (minus_one, sent) (pos 0, sent)

-- UDPFuncRequest
unfoldable pub udp_func_request : ℤ → ℤ → ℕ → Bytes → ℤ × List Bytes
unfolding client_udp_request
udp_func_request fd ret cmdid msg =
    let (ret2, sent) = client_udp_request fd ret cmdid msg in
    i_assert ret2 (minus_one, sent) (pos 0, sent)

-- The common body of the RPC functions: the result, `objRsp`, `header` and what has gone out.
unfoldable pub func_request :
    {Req Rsp : Type 0}
    → Codec Req
    → Codec Rsp
    → ℕ
    → Link
    → Req
    → Rsp
    → Header
    → Outcome (ℤ × Rsp × Header × Bytes)
unfolding client_rpc_request
func_request req_codec rsp_codec cmdid link obj_req obj_rsp header = do
  (ret, packet, sent) ←
      client_rpc_request link
        (record new_packet { cmdid = cmdid; body = req_codec.serialize obj_req }) new_packet
  i_assert ret (done (minus_one, obj_rsp, header, sent))
      (done (pos 0, rsp_codec.parse packet.body, packet.header, sent))

module _ {K : Type 0} (env : Env K) (network : Network) where
  unfoldable pub test_func_reverse_request :
      ReverseReq → ReverseRsp → Header → Outcome (ℤ × ReverseRsp × Header × Bytes)
  unfolding func_request
  test_func_reverse_request =
      func_request env.reverse_req env.reverse_rsp 2 (network ip_controller_pb tcp_port_controller)

  unfoldable pub gate_func_black_list_op_request :
      BlackListOpReq → EmptyRsp → Header → Outcome (ℤ × EmptyRsp × Header × Bytes)
  unfolding func_request
  gate_func_black_list_op_request =
      func_request env.black_list_op_req env.empty_rsp 202
        (network ip_appgateway_pb tcp_port_appgateway)

  unfoldable pub gate_func_notice_request :
      NoticeReq → EmptyRsp → Header → Outcome (ℤ × EmptyRsp × Header × Bytes)
  unfolding func_request
  gate_func_notice_request =
      func_request env.notice_req env.empty_rsp 203 (network ip_appgateway_pb tcp_port_appgateway)

  unfoldable pub con_func_get_access_request :
      GetAccessReq → GetAccessRsp → Header → Outcome (ℤ × GetAccessRsp × Header × Bytes)
  unfolding func_request
  con_func_get_access_request =
      func_request env.get_access_req env.get_access_rsp 102
        (network ip_controller_pb tcp_port_controller)

  unfoldable pub con_func_register_app_request :
      RegisterAppReq → EmptyRsp → Header → Outcome (ℤ × EmptyRsp × Header × Bytes)
  unfolding func_request
  con_func_register_app_request =
      func_request env.register_app_req env.empty_rsp 103
        (network ip_controller_pb tcp_port_controller)

-- AppFuncHttpsRequest
unfoldable pub app_func_https_request :
    ℤ → Network → Bytes → Bytes → Bytes → ℤ → Outcome (ℤ × Bytes × Bytes)
unfolding client_tcp_request
app_func_https_request junk network request response ip port = do
  (ret, response', sent) ← client_tcp_request junk (network ip port) request response
  i_assert ret (done (minus_one, response', sent)) (done (pos 0, response', sent))
