-- ===== src/Erpc/Reply.antt =====
-- A remote call of comm/erpc, with the client at one end and the server at the other.
use sdpgateway_verification.Prelude.{
  ℕ, ◌+◌, ◌≤◌, ◌<◌, ◌^◌, ◌≡◌, true, false, [], ◌∷◌, arith, ℤ, pos, to_int32, Bytes, txt, length,
  done,
}
use sdpgateway_verification.Messages.{
  Codec, RoundTrips, GetAccessReq, GetAccessRsp, BlackListOpReq, EmptyRsp,
}
use sdpgateway_verification.Env.{Env}
use sdpgateway_verification.Packet.{Packet, Header, new_packet, pack_data_to_string, ret_msg_field}
use sdpgateway_verification.Packet.RoundTrip.{
  parse-pack_with_header, parse-pack_without_header, length-pack_data_to_string,
}
use sdpgateway_verification.Io.{got, wrote, handle_write, handle_read-got, rd_buf_size}
use sdpgateway_verification.Io.Write.{after_interrupts, handle_write_completes}
use sdpgateway_verification.Erpc.{
  Service, SocketInfo, request_forward_with_cmd, answer_packet, parse_request_and_forward,
  handle_rpc_request,
}
use sdpgateway_verification.Erpc.Client.{
  Link, client_rpc_request, func_request, con_func_get_access_request,
  gate_func_black_list_op_request,
}

-- The packet of a request, and the packet of the answer to it.
abbrev pub request_packet : ℕ → Bytes → Packet
request_packet cmdid body = record new_packet { cmdid = cmdid; body = body }

abbrev pub reply_packet : ℕ → Bytes → Packet
reply_packet cmdid body = record {
  cmdid = cmdid;
  header = record { ret_code = pos 0; ret_msg = txt "Request OK" };
  body = body;
}

-- A connection that takes all that is written to it, after `k` interrupts, and gives `bytes` back.
abbrev pub answering : ℕ → ℕ → Bytes → Link
answering k n bytes = record {
  connected = pos 0;
  ssl_connected = pos 0;
  writes = after_interrupts k (wrote n ∷ []);
  read = got bytes;
}

pub write_all :
    (k n : ℕ) (text : Bytes)
    → 1 < length text
    → length text ≤ n
    → handle_write (after_interrupts k (wrote n ∷ [])) text ≡ done (pos (length text), text)
write_all k n text h full = (handle_write_completes k 1 n text [] (omega arith) h full).0

module _ {K S : Type 0} (env : Env K) (service : Service S) where
  -- A packed request whose forwarding gives 0 is answered with the code 0, the message
  -- "Request OK" and the response, on a connection that takes the answer after `k` interrupts.
  pub handle_rpc_request_replies :
      (cmdid : ℕ) (body response : Bytes) (info : SocketInfo) (k n : ℕ) (s s' : S)
      → cmdid < 2 ^ 32
      → request_forward_with_cmd env service (to_int32 cmdid) body info s
        ≡ done (pos 0, response, s')
      → length (pack_data_to_string (reply_packet cmdid response) true) ≤ n
      → 4 + length body ≤ rd_buf_size
      → handle_rpc_request env service true info
          (got (pack_data_to_string (request_packet cmdid body) false))
          (after_interrupts k (wrote n ∷ []))
          s
        ≡ done (pos 0, pack_data_to_string (reply_packet cmdid response) true, s')
  unfolding handle_rpc_request parse_request_and_forward answer_packet
  handle_rpc_request_replies cmdid body response info k n s s' small forward room fits =
      let req = request_packet cmdid body in
      let text = pack_data_to_string (reply_packet cmdid response) true in
      ground (
        arith,
        (length-pack_data_to_string req).1,
        (length-pack_data_to_string (reply_packet cmdid response)).0,
        parse-pack_without_header new_packet req small,
        handle_read-got (pack_data_to_string req false) [],
        write_all k n text,
      )

-- ClientRPCRequest on such a connection sends the request and gets the answer, with its message as
-- the 50 bytes of the field.
pub client_rpc_request_answered :
    (cmdid : ℕ) (body response : Bytes) (k n : ℕ)
    → cmdid < 2 ^ 32
    → 4 + length body ≤ n
    → 58 + length response ≤ rd_buf_size
    → client_rpc_request
        (answering k n (pack_data_to_string (reply_packet cmdid response) true))
        (request_packet cmdid body)
        new_packet
      ≡ done (
        pos 0,
        record (reply_packet cmdid response) {
          header = record { ret_code = pos 0; ret_msg = ret_msg_field (txt "Request OK") };
        },
        pack_data_to_string (request_packet cmdid body) false,
      )
unfolding client_rpc_request
client_rpc_request_answered cmdid body response k n small room fits =
    let req = request_packet cmdid body in
    let rsp = reply_packet cmdid response in
    let size = (length-pack_data_to_string rsp).0 in
    ground (
      arith,
      (length-pack_data_to_string req).1,
      size,
      parse-pack_with_header new_packet rsp small (omega arith),
      handle_read-got (pack_data_to_string rsp true) [] (omega (arith, size)),
      write_all k n (pack_data_to_string req false),
    )

-- The common body of the client's functions, and the server at the other end of a connection that
-- takes all that is written, of at most RD_BUF_SIZE bytes.
pub func_request_remote :
    {K S Req Rsp : Type 0} (env : Env K) (service : Service S) (req_codec : Codec Req)
    (rsp_codec : Codec Rsp) (cmdid : ℕ) (req : Req) (rsp old : Rsp) (header : Header)
    (info : SocketInfo) (k n : ℕ) (s s' : S)
    → cmdid < 2 ^ 32
    → RoundTrips rsp_codec
    → request_forward_with_cmd env service (to_int32 cmdid) (req_codec.serialize req) info s
      ≡ done (pos 0, rsp_codec.serialize rsp, s')
    → 58 + length (rsp_codec.serialize rsp) ≤ n
    → 4 + length (req_codec.serialize req) ≤ n
    → n ≤ rd_buf_size
    → (sent answer : Bytes) × (handle_rpc_request env service true info
          (got sent)
          (after_interrupts k (wrote n ∷ []))
          s
        ≡ done (pos 0, answer, s'))
      × (func_request req_codec rsp_codec cmdid (answering k n answer) req old header
          ≡ done (
            pos 0,
            rsp,
            record { ret_code = pos 0; ret_msg = ret_msg_field (txt "Request OK") },
            sent,
          ))
unfolding func_request
func_request_remote env service req_codec rsp_codec cmdid req rsp old header info k n s s' small
      codec forward room room2 buffer =
    let body = req_codec.serialize req in
    let response = rsp_codec.serialize rsp in
    (
      pack_data_to_string (request_packet cmdid body) false,
      pack_data_to_string (reply_packet cmdid response) true,
      handle_rpc_request_replies env service cmdid body response info k n s s' small forward
          (omega (arith, (length-pack_data_to_string (reply_packet cmdid response)).0))
          (omega arith),
      ground (
        arith,
        client_rpc_request_answered cmdid body response k n small room2 (omega arith),
        codec.parse-serialize rsp,
      ),
    )

-- ConFuncGetAccessRequest, and the server at the other end of a connection that takes what is
-- written and brings it in one piece, for packets of RD_BUF_SIZE bytes at most: if the codecs
-- round-trip and the method returns `rsp`, then the server answers the bytes that the client sends,
-- and the client that gets this answer returns 0 with `rsp`; the number that the method returned
-- has become 0 for it.
pub con_func_get_access_request_remote :
    {K S : Type 0} (env : Env K) (service : Service S) (req : GetAccessReq) (rsp old : GetAccessRsp)
    (header : Header) (info : SocketInfo) (ret : ℤ) (k n : ℕ) (s s' : S)
    → RoundTrips env.get_access_req
    → RoundTrips env.get_access_rsp
    → service.con_func_get_access req info s ≡ done (ret, rsp, s')
    → 58 + length (env.get_access_rsp.serialize rsp) ≤ n
    → 4 + length (env.get_access_req.serialize req) ≤ n
    → n ≤ rd_buf_size
    → (sent answer : Bytes) × (handle_rpc_request env service true info
          (got sent)
          (after_interrupts k (wrote n ∷ []))
          s
        ≡ done (pos 0, answer, s'))
      × (con_func_get_access_request env (λ ip port. answering k n answer) req old header
          ≡ done (
            pos 0,
            rsp,
            record { ret_code = pos 0; ret_msg = ret_msg_field (txt "Request OK") },
            sent,
          ))
unfolding con_func_get_access_request request_forward_with_cmd
con_func_get_access_request_remote env service req rsp old header info ret k n s s' req_codec
      rsp_codec method room room2 buffer =
    func_request_remote env service env.get_access_req env.get_access_rsp 102 req rsp old header
      info k n s s' (omega arith) rsp_codec (ground (arith, method, req_codec.parse-serialize req))
      room room2 buffer

-- GateFuncBlackListOpRequest, and the server at the other end, in the same way.
pub gate_func_black_list_op_request_remote :
    {K S : Type 0} (env : Env K) (service : Service S) (req : BlackListOpReq) (rsp old : EmptyRsp)
    (header : Header) (info : SocketInfo) (ret : ℤ) (k n : ℕ) (s s' : S)
    → RoundTrips env.black_list_op_req
    → RoundTrips env.empty_rsp
    → service.gate_func_black_list_op req info s ≡ done (ret, rsp, s')
    → 58 + length (env.empty_rsp.serialize rsp) ≤ n
    → 4 + length (env.black_list_op_req.serialize req) ≤ n
    → n ≤ rd_buf_size
    → (sent answer : Bytes) × (handle_rpc_request env service true info
          (got sent)
          (after_interrupts k (wrote n ∷ []))
          s
        ≡ done (pos 0, answer, s'))
      × (gate_func_black_list_op_request env (λ ip port. answering k n answer) req old header
          ≡ done (
            pos 0,
            rsp,
            record { ret_code = pos 0; ret_msg = ret_msg_field (txt "Request OK") },
            sent,
          ))
unfolding gate_func_black_list_op_request request_forward_with_cmd
gate_func_black_list_op_request_remote env service req rsp old header info ret k n s s' req_codec
      rsp_codec method room room2 buffer =
    func_request_remote env service env.black_list_op_req env.empty_rsp 202 req rsp old header info
      k n s s' (omega arith) rsp_codec (ground (arith, method, req_codec.parse-serialize req)) room
      room2 buffer
