-- ===== src/Runners.antt =====
-- The programs around the servers: the controller's scanning thread
-- (modules/controller/sdp_controller_runner.cpp), the client's test program
-- (modules/client/client_test.cpp), the test server's service (comm/erpc/erpc_test_server.cpp), and
-- GetMacAddress of comm/commdef/comm_tool.cpp.
pub mod TestPrograms
use sdpgateway_verification.Prelude.{
  ℕ, ◌+◌, ◌-◌, ◌/◌, ◌%◌, ◌^◌, List, [], ◌∷◌, ◌++◌, ltb, if◌then◌else◌, ℤ, pos, minus_one, is_neg,
  Bytes, txt, Outcome, done, ◌>>=◌,
}
use sdpgateway_verification.Tlog.{i_assert}
use sdpgateway_verification.CommDef.{ip_client_pb, tcp_port_application, rsa_pub_key_controller}
use sdpgateway_verification.Messages.{BlackListOpReq}
use sdpgateway_verification.Env.{Env}
use sdpgateway_verification.Packet.{new_packet}
use sdpgateway_verification.Iptables.{ip_black_list_add, ip_black_list_del}
use sdpgateway_verification.Spa.{failed, success, decrypt_voucher}
use sdpgateway_verification.Erpc.{Service, erpc_service}
use sdpgateway_verification.Erpc.Client.{Network, gate_func_black_list_op_request}
use sdpgateway_verification.Client.{
  Sending, Sent, get_accessible_app_list, access_application_https,
}

-- The two requests of a round of `scanning`.
abbrev pub add_black : BlackListOpReq
add_black = record { op = ip_black_list_add; ip = ip_client_pb; port = tcp_port_application }

abbrev pub del_black : BlackListOpReq
del_black = record { op = ip_black_list_del; ip = ip_client_pb; port = tcp_port_application }

-- std::reverse
abbrev pub reverse : Bytes → Bytes → Bytes
reverse [] acc = acc
reverse (b ∷ bs) acc = reverse bs (b ∷ acc)

module _ {K : Type 0} (env : Env K) where
  -- The loop of `scanning`, for the networks of each round's two requests: what has gone out. The
  -- results are logged only.
  unfoldable pub scanning : List (Network × Network) → Outcome (List Bytes)
  unfolding gate_func_black_list_op_request
  scanning [] = done []
  scanning ((adding, deleting) ∷ rounds) = do
    (ret, rsp, header, sent) ←
        gate_func_black_list_op_request env adding add_black (record {}) new_packet.header
    (ret2, rsp2, header2, sent2) ← gate_func_black_list_op_request env deleting del_black rsp header
    rest ← scanning rounds
    done (sent ∷ sent2 ∷ rest)

  -- TestFuncUdpRecv of TestErpcServiceImpl: it gives DecryptVoucher the file of the public key.
  unfoldable pub test_func_udp_recv : Bytes → Outcome ℤ
  unfolding decrypt_voucher
  test_func_udp_recv msg = do
    answer ←
        decrypt_voucher env.ssl env.voucher (env.voucher_packet.parse msg) rsa_pub_key_controller
    done (elim answer [ failed ret ↦ i_assert ret minus_one (pos 0) | success voucher ↦ pos 0 ])

  -- TestErpcServiceImpl, which has no state.
  unfoldable pub test_service : Service Unit
  unfolding erpc_service test_func_udp_recv
  test_service = record erpc_service {
    test_func_udp_recv = λ msg ip port s. test_func_udp_recv msg >>= λ ret. done (ret, s);
    test_func_reverse = λ req info s. done (pos 0, record { str = reverse req.str [] }, s);
  }

  -- Access_Test: the result, and the datagrams and bytes that have gone out.
  unfoldable pub access_test :
      (ℕ → Sending) → Network → ℤ → Bytes → ℕ × ℕ → Bytes → Bytes → Outcome (ℤ × List Sent × Bytes)
  unfolding get_accessible_app_list access_application_https
  access_test sendings network junk mac (now, random) acc passwd = do
    (ret, list, knocks) ←
        get_accessible_app_list env sendings network
          (record {
            account = record { acc = acc; pwd = passwd };
            mac = mac;
            address = txt "ChengDu";
            timestamp = now % 2 ^ 32;
            random = random;
          })
          []
    i_assert ret (done (minus_one, knocks, [])) (do
      (ret2, sent) ← access_application_https junk network list
      i_assert ret2 (done (minus_one, knocks, sent)) (done (pos 0, knocks, sent)))

-- A digit of `%X`, and a byte as `%02X`.
abbrev pub hex_digit : ℕ → ℕ
hex_digit n = if ltb n 10 then b'0' + n else b'A' + (n - 10)

abbrev pub hex_byte : ℕ → Bytes
hex_byte b = hex_digit (b / 16) ∷ hex_digit (b % 16) ∷ []

-- GetMacAddress, given the results of `socket` and `ioctl` and the six bytes of the address.
unfoldable pub get_mac_address : ℤ → ℤ → ℕ → ℕ → ℕ → ℕ → ℕ → ℕ → Bytes
get_mac_address sock ret a b c d e f =
    if is_neg sock
    then []
    else if is_neg ret
    then []
    else (hex_byte a
        ++ b':' ∷ hex_byte b
        ++ b':' ∷ hex_byte c
        ++ b':' ∷ hex_byte d
        ++ b':' ∷ hex_byte e
        ++ b':' ∷ hex_byte f)
