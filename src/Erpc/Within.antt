-- ===== src/Erpc/Within.antt =====
-- What a service may do to its state, carried from its methods to the handlers of
-- comm/erpc/erpc_handler.cpp.
pub mod Handlers
use sdpgateway_verification.Prelude.{
  ℕ, minus_one, to_int32, if◌then◌else◌, ◌≡◌, refl, sym, subst, Bool, true, false, List, [], arith,
  ltb, ℤ, pos, is_neg, int_eq, Bytes, length, take, drop, Outcome, done, fault, bind_done,
  Bool-cases, if_cases, inl, inr, ◌>>=◌, done-injective,
}
use sdpgateway_verification.Env.{Env}
use sdpgateway_verification.Messages.{
  GetAccessReq, GetAccessRsp, RegisterAppReq, BlackListOpReq, NoticeReq, ReverseReq, ReverseRsp,
  EmptyRsp, Codec,
}
use sdpgateway_verification.Packet.{parse_data_from_string, new_packet, memory_corp_to_object}
use sdpgateway_verification.Io.{
  ReadResult, WriteResult, RecvResult, datagram, recv_failed, handle_write, udp_recv, handle_read,
}
use sdpgateway_verification.Erpc.{
  Service, Method, UdpMethod, SocketInfo, request_forward_with_cmd, parse_request_and_forward,
  answer_request, handle_rpc_request, answer_application, handle_application_request, forward_udp,
  handle_udp_request,
}

module _ {S : Type 0} (R : RecvResult → S → S → Type 0) where
  -- A request, whatever it is, moves the state within `R`.
  abbrev pub MethodWithin : {Req Rsp : Type 0} → Method S Req Rsp → Type 0
  MethodWithin {Req} {Rsp} method =
      (recv : RecvResult) (req : Req) (info : SocketInfo) (s : S) (r : ℤ × Rsp × S)
      → method req info s ≡ done r
      → R recv s r.2

  -- A datagram moves the state within `R` for that datagram.
  abbrev pub UdpWithin : UdpMethod S → Type 0
  UdpWithin method =
      (bytes ip : Bytes) (port : ℤ) (s : S) (r : ℤ × S)
      → method (drop 4 bytes) ip port s ≡ done r
      → R (datagram bytes ip port) s r.1

-- The laws of a service that moves its state within `R`.
pub record IsWithin {S : Type 0} (R : RecvResult → S → S → Type 0) (service : Service S)
    : Type 0 where
  pub stays : (recv : RecvResult) (s : S) → R recv s s
  pub test_udp : UdpWithin R service.test_func_udp_recv
  pub reverse : MethodWithin R service.test_func_reverse
  pub con_udp : UdpWithin R service.con_func_udp_recv
  pub get_access : MethodWithin R service.con_func_get_access
  pub register_app : MethodWithin R service.con_func_register_app
  pub gate_udp : UdpWithin R service.gate_func_udp_recv
  pub black_list_op : MethodWithin R service.gate_func_black_list_op
  pub gate_notice : MethodWithin R service.gate_func_notice
  pub https : MethodWithin R service.app_func_https

module _ {K S : Type 0} (env : Env K) (service : Service S) (R : RecvResult → S → S → Type 0)
    (laws : IsWithin R service) (recv : RecvResult) where
  forward_call :
      {Req Rsp : Type 0} (req_codec : Codec Req) (rsp_codec : Codec Rsp) (method : Method S Req Rsp)
      → MethodWithin R method
      → (request : Bytes) (info : SocketInfo) (s : S) {r : ℤ × Bytes × S}
      → (method (req_codec.parse request) info s >>= λ q.
          done (pos 0, rsp_codec.serialize q.1, q.2))
        ≡ done r
      → R recv s r.2
  forward_call req_codec rsp_codec method within request info s {r} h =
      let (q, eq, same) = bind_done (method (req_codec.parse request) info s) _ h in
      subst (λ (t : ℤ × Bytes × S). R recv s t.2) (done-injective same)
        (within recv (req_codec.parse request) info s q eq)

  pub forward-Within :
      (cmd : ℤ) (request : Bytes) (info : SocketInfo) (s : S) {r : ℤ × Bytes × S}
      → request_forward_with_cmd env service cmd request info s ≡ done r
      → R recv s r.2
  unfolding request_forward_with_cmd
  forward-Within cmd request info s {r} h = elim (if_cases (int_eq cmd (pos 2)) _ _ h) [
    | inl e ↦
        forward_call env.reverse_req env.reverse_rsp service.test_func_reverse laws.reverse request
          info s {r = r} e
    | inr h2 ↦ elim (if_cases (int_eq cmd (pos 202)) _ _ h2) [
      | inl e ↦
          forward_call env.black_list_op_req env.empty_rsp service.gate_func_black_list_op
            laws.black_list_op request info s {r = r} e
      | inr h3 ↦ elim (if_cases (int_eq cmd (pos 102)) _ _ h3) [
        | inl e ↦
            forward_call env.get_access_req env.get_access_rsp service.con_func_get_access
              laws.get_access request info s {r = r} e
        | inr h4 ↦ elim (if_cases (int_eq cmd (pos 103)) _ _ h4) [
          | inl e ↦
              forward_call env.register_app_req env.empty_rsp service.con_func_register_app
                laws.register_app request info s {r = r} e
          | inr h5 ↦ elim (if_cases (int_eq cmd (pos 203)) _ _ h5) [
            | inl e ↦
                forward_call env.notice_req env.empty_rsp service.gate_func_notice laws.gate_notice
                  request info s {r = r} e
            | inr e ↦
                subst (λ (t : ℤ × Bytes × S). R recv s t.2) (done-injective e) (laws.stays recv s)
          ]
        ]
      ]
    ]
  ]
