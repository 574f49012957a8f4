-- ===== src/Erpc.antt =====
-- comm/erpc: the service interface (erpc_service), the dispatch of packets to it and the server's
-- entries (erpc_handler), and the three services that the modules put behind it.
pub mod Services
pub mod Dispatch
pub mod Client
pub mod Reply
pub mod Within
use sdpgateway_verification.Prelude.{
  ℕ, ◌+◌, Bool, true, false, Option, none, some, List, [], ◌∷◌, ◌++◌, ltb, nat_eq, if◌then◌else◌, ℤ,
  pos, negsuc, minus_one, is_neg, int_eq, to_int32, Bytes, txt, length, take, drop, Outcome, done,
  fault, out_of_range, null_pointer, ◌>>=◌,
}
use sdpgateway_verification.Tlog.{i_assert}
use sdpgateway_verification.Messages.{
  GetAccessReq, GetAccessRsp, RegisterAppReq, BlackListOpReq, NoticeReq, ReverseReq, ReverseRsp,
  EmptyRsp, Codec,
}
use sdpgateway_verification.Env.{Env}
use sdpgateway_verification.Packet.{
  Packet, Header, new_packet, err_service_not_found, parse_data_from_string, pack_data_to_string,
  memory_corp_to_object,
}
use sdpgateway_verification.Io.{
  ReadResult, WriteResult, RecvResult, handle_read, handle_write, udp_recv,
}

-- SocketInfo, which Extra hands to a service.
pub record SocketInfo : Type 0 where
  pub ip : Bytes
  pub port : ℤ

-- ServiceForwardTable
abbrev pub cmd_udp_test_func_recv : ℤ
cmd_udp_test_func_recv = pos 1

abbrev pub cmd_rpc_test_func_reverse : ℤ
cmd_rpc_test_func_reverse = pos 2

abbrev pub cmd_udp_controller_func_recv : ℤ
cmd_udp_controller_func_recv = pos 101

abbrev pub cmd_rpc_controller_func_get_access : ℤ
cmd_rpc_controller_func_get_access = pos 102

abbrev pub cmd_rpc_controller_func_register_app : ℤ
cmd_rpc_controller_func_register_app = pos 103

abbrev pub cmd_udp_appgateway_func_recv : ℤ
cmd_udp_appgateway_func_recv = pos 201

abbrev pub cmd_rpc_appgateway_func_black_list_op : ℤ
cmd_rpc_appgateway_func_black_list_op = pos 202

abbrev pub cmd_rpc_appgateway_func_notice : ℤ
cmd_rpc_appgateway_func_notice = pos 203

-- A virtual method: the request, what Extra holds, and the state of the module.
abbrev pub Method : Type 0 → Type 0 → Type 0 → Type 0
Method S Req Rsp = Req → SocketInfo → S → Outcome (ℤ × Rsp × S)

abbrev pub UdpMethod : Type 0 → Type 0
UdpMethod S = Bytes → Bytes → ℤ → S → Outcome (ℤ × S)

-- The virtual methods of ErpcService, over the state `S` of a module.
pub record Service (S : Type 0) : Type 0 where
  pub test_func_udp_recv : UdpMethod S
  pub test_func_reverse : Method S ReverseReq ReverseRsp
  pub con_func_udp_recv : UdpMethod S
  pub con_func_get_access : Method S GetAccessReq GetAccessRsp
  pub con_func_register_app : Method S RegisterAppReq EmptyRsp
  pub gate_func_udp_recv : UdpMethod S
  pub gate_func_black_list_op : Method S BlackListOpReq EmptyRsp
  pub gate_func_notice : Method S NoticeReq EmptyRsp
  pub app_func_https : Method S Bytes Bytes

-- The methods of ErpcService itself: each returns kErrServiceNotFound and leaves its response
-- empty.
abbrev not_found : {S Req Rsp : Type 0} → Rsp → Method S Req Rsp
not_found rsp req info s = done (err_service_not_found, rsp, s)

abbrev udp_not_found : {S : Type 0} → UdpMethod S
udp_not_found msg ip port s = done (err_service_not_found, s)

unfoldable pub erpc_service : {S : Type 0} → Service S
erpc_service = record {
  test_func_udp_recv = udp_not_found;
  test_func_reverse = not_found (record { str = [] });
  con_func_udp_recv = udp_not_found;
  con_func_get_access = not_found (record { access_list = [] });
  con_func_register_app = not_found (record {});
  gate_func_udp_recv = udp_not_found;
  gate_func_black_list_op = not_found (record {});
  gate_func_notice = not_found (record {});
  app_func_https = not_found [];
}

module _ {K S : Type 0} (env : Env K) (service : Service S) where
  -- RPC_CALL_FORWARD: the result of the method is assigned to `ret` and not looked at.
  abbrev rpc_call_forward :
      {Req Rsp : Type 0}
      → Codec Req
      → Codec Rsp
      → Method S Req Rsp
      → Bytes
      → SocketInfo
      → S
      → Outcome (ℤ × Bytes × S)
  rpc_call_forward req_codec rsp_codec method request info s = do
    (ret, rsp, s') ← method (req_codec.parse request) info s
    done (pos 0, rsp_codec.serialize rsp, s')

  -- _RequestForwardWithCmd; the command is an int32_t here.
  unfoldable pub request_forward_with_cmd : ℤ → Bytes → SocketInfo → S → Outcome (ℤ × Bytes × S)
  request_forward_with_cmd cmdid request info s =
      if int_eq cmdid cmd_rpc_test_func_reverse
      then rpc_call_forward env.reverse_req env.reverse_rsp service.test_func_reverse request info s
      else if int_eq cmdid cmd_rpc_appgateway_func_black_list_op
      then rpc_call_forward env.black_list_op_req env.empty_rsp service.gate_func_black_list_op
          request info s
      else if int_eq cmdid cmd_rpc_controller_func_get_access
      then rpc_call_forward env.get_access_req env.get_access_rsp service.con_func_get_access
          request info s
      else if int_eq cmdid cmd_rpc_controller_func_register_app
      then rpc_call_forward env.register_app_req env.empty_rsp service.con_func_register_app request
          info s
      else if int_eq cmdid cmd_rpc_appgateway_func_notice
      then rpc_call_forward env.notice_req env.empty_rsp service.gate_func_notice request info s
      else done (err_service_not_found, [], s)

  -- What _ParseRequestAndForward makes of the result `ret` and the response: the packet to send, or
  -- nothing if `ret` is negative.
  unfoldable pub answer_packet : Packet → ℤ → Bytes → Bytes
  answer_packet packet ret response =
      let ret_msg = if int_eq ret (pos 0) then txt "Request OK" else packet.header.ret_msg in
      if is_neg ret
      then []
      else pack_data_to_string
          (record packet { header = record { ret_code = ret; ret_msg = ret_msg }; body = response })
          true

  -- _ParseRequestAndForward: the result, the response packet and the state.
  unfoldable pub parse_request_and_forward : Bytes → SocketInfo → S → Outcome (ℤ × Bytes × S)
  unfolding parse_data_from_string request_forward_with_cmd answer_packet
  parse_request_and_forward packet_req info s = do
    (ret, packet) ← parse_data_from_string new_packet packet_req false
    i_assert ret (done (minus_one, [], s)) (do
      (ret2, response, s') ← request_forward_with_cmd (to_int32 packet.cmdid) packet.body info s
      done (ret2, answer_packet packet ret2 response, s'))

  -- HandleRPCRequest behind HandleRead: the result, what has gone out, and the state.
  unfoldable pub answer_request :
      ℤ → Bytes → SocketInfo → List WriteResult → S → Outcome (ℤ × Bytes × S)
  unfolding parse_request_and_forward
  answer_request ret packet_req info writes s =
      if int_eq ret (pos 0)
      then done (pos 0, [], s)
      else if is_neg ret
      then done (ret, [], s)
      else do
        (ret2, packet_rsp, s') ← parse_request_and_forward packet_req info s
        i_assert ret2 (done (minus_one, [], s')) (do
          (ret3, sent) ← handle_write writes packet_rsp
          i_assert ret3 (done (minus_one, sent, s')) (done (pos 0, sent, s')))

  -- HandleRPCRequest, on a connection that may be a null pointer.
  unfoldable pub handle_rpc_request :
      Bool → SocketInfo → ReadResult → List WriteResult → S → Outcome (ℤ × Bytes × S)
  unfolding answer_request handle_read
  handle_rpc_request false info read writes s = fault null_pointer
  handle_rpc_request true info read writes s =
      let (ret, packet_req) = handle_read read [] in answer_request ret packet_req info writes s

  -- HandleApplicationRequest behind HandleRead.
  unfoldable pub answer_application :
      ℤ → Bytes → SocketInfo → List WriteResult → S → Outcome (ℤ × Bytes × S)
  answer_application ret request info writes s =
      if int_eq ret (pos 0)
      then done (pos 0, [], s)
      else if is_neg ret
      then done (ret, [], s)
      else do
        (ret2, response, s') ← service.app_func_https request info s
        i_assert ret2 (done (minus_one, [], s')) (do
          (ret3, sent) ← handle_write writes response
          i_assert ret3 (done (minus_one, sent, s')) (done (pos 0, sent, s')))

  unfoldable pub handle_application_request :
      Bool → SocketInfo → ReadResult → List WriteResult → S → Outcome (ℤ × Bytes × S)
  unfolding answer_application handle_read
  handle_application_request false info read writes s = fault null_pointer
  handle_application_request true info read writes s =
      let (ret, request) = handle_read read [] in answer_application ret request info writes s

  -- The forwarding of HandleUDPRequest; another command leaves `ret` as UDPRecv did.
  unfoldable pub forward_udp : ℕ → Bytes → Bytes → ℤ → S → Outcome (ℤ × S)
  forward_udp cmdid msg ip port s =
      if int_eq (pos cmdid) cmd_udp_test_func_recv
      then service.test_func_udp_recv msg ip port s
      else if int_eq (pos cmdid) cmd_udp_controller_func_recv
      then service.con_func_udp_recv msg ip port s
      else if int_eq (pos cmdid) cmd_udp_appgateway_func_recv
      then service.gate_func_udp_recv msg ip port s
      else done (pos 0, s)

  -- HandleUDPRequest: `substr(4)` throws on a message of fewer than four bytes.
  unfoldable pub handle_udp_request : RecvResult → S → Outcome (ℤ × S)
  unfolding udp_recv forward_udp
  handle_udp_request recv s = do
    (ret, msg) ← udp_recv recv
    i_assert ret (done (minus_one, s)) (
        if ltb (length msg.outstr) 4 then fault out_of_range else do
          cmdid ← memory_corp_to_object (take 4 msg.outstr)
          (ret2, s') ← forward_udp cmdid (drop 4 msg.outstr) msg.from_ip msg.from_port s
          i_assert ret2 (done (minus_one, s')) (done (pos 0, s')))
