-- ===== src/Runners/TestPrograms.antt =====
-- The test programs of the tools and of the RPC layer: comm/spatools/spa_test.cpp,
-- comm/ssltools/ssl_test.cpp, comm/erpc/erpc_test_server.cpp and comm/erpc/erpc_test_client.cpp.
-- What a program logs is in its result.
pub mod Passes
use sdpgateway_verification.Prelude.{
  ℕ, zero, suc, ◌%◌, ◌^◌, ◌++◌, [], ℤ, pos, minus_one, Bytes, txt, Outcome, done, ◌>>=◌,
}
use sdpgateway_verification.Tlog.{i_assert}
use sdpgateway_verification.CommDef.{
  ip_controller_in, tcp_port_controller, udp_port_controller, ssl_crt_controller,
  ssl_key_controller, rsa_pub_key_controller, rsa_pri_key_controller, rsa_pub_key_gateway,
  rsa_pri_key_gateway,
}
use sdpgateway_verification.Dispatcher.{id_testserver}
use sdpgateway_verification.Dispatcher.Sockets.{SocketCalls}
use sdpgateway_verification.Server.{ErpcServer, ErpcConfig, rpc_server, register_service}
use sdpgateway_verification.Runners.{test_service}
use sdpgateway_verification.Messages.{Voucher, Ticket, ReverseReq, ReverseRsp}
use sdpgateway_verification.Env.{Env}
use sdpgateway_verification.Packet.{Header, new_packet}
use sdpgateway_verification.Rsa.{rsa_encrypt, rsa_decrypt, rsa_sign, rsa_verify, md5_encrypt}
use sdpgateway_verification.Spa.{
  Answer, failed, success, encrypt_voucher, decrypt_voucher, encrypt_ticket, decrypt_ticket,
}
use sdpgateway_verification.Erpc.Client.{Network, test_func_reverse_request}

-- The voucher and the ticket of spa_test; the fields that it does not set are 0.
abbrev pub spa_voucher : ℕ → Voucher
spa_voucher now = record {
  account = record { acc = txt "arashi"; pwd = txt "123321" };
  mac = txt "127.0.0.1";
  address = txt "ChengDu";
  timestamp = now % 2 ^ 32;
  random = 0;
}

abbrev pub spa_ticket : ℕ → Ticket
spa_ticket now = record {
  ip = txt "127.0.0.1";
  timestamp = now % 2 ^ 32;
  random = 0;
  valid_seconds = 0;
}

-- iAssert on the result of a tool.
unfoldable pub assert_answer : {A : Type 0} → Answer A → (A → Outcome ℤ) → Outcome ℤ
assert_answer (failed ret) rest = done minus_one
assert_answer (success a) rest = rest a

-- The loop of ssl_test that appends to the text.
unfoldable pub append_hello : ℕ → Bytes → Bytes
append_hello zero text = text
append_hello (suc n) text = append_hello n (text ++ txt "hello world ")

unfoldable pub hello_text : Bytes
unfolding append_hello
hello_text = append_hello 100 []

-- What ssl_test logs.
pub record SslTestLog : Type 0 where
  pub text : Bytes
  pub en_text : Bytes
  pub de_text : Bytes
  pub sign_text : Bytes
  pub ver : ℤ
  pub md5_result : Bytes

-- main of erpc_test_server: the server that runs.
unfoldable pub test_server : ℤ → SocketCalls → SocketCalls → ErpcServer Unit
unfolding rpc_server
test_server unset tcp udp =
    rpc_server unset id_testserver ip_controller_in tcp_port_controller udp_port_controller tcp udp
      tt

module _ {K : Type 0} (env : Env K) where
  -- main of spa_test, which takes the time twice.
  unfoldable pub spa_test : ℕ → ℕ → Outcome ℤ
  unfolding assert_answer
  spa_test now now2 = do
    voucher_answer ← encrypt_voucher env.ssl env.voucher (spa_voucher now) rsa_pub_key_controller
    assert_answer voucher_answer λ packet. do
      de_voucher_answer ← decrypt_voucher env.ssl env.voucher packet rsa_pri_key_controller
      assert_answer de_voucher_answer λ de_voucher. do
        ticket_answer ←
            encrypt_ticket env.ssl env.ticket (spa_ticket now2) rsa_pri_key_controller
              rsa_pub_key_gateway
        assert_answer ticket_answer λ ticket_packet. do
          de_ticket_answer ←
              decrypt_ticket env.ssl env.ticket ticket_packet rsa_pub_key_controller
                rsa_pri_key_gateway
          assert_answer de_ticket_answer λ de_ticket. done (pos 0)

  -- main of ssl_test, which looks at no result.
  unfoldable pub ssl_test : Outcome (ℤ × SslTestLog)
  ssl_test = do
    let text = hello_text
    (ret, en_text) ← rsa_encrypt env.ssl text rsa_pub_key_controller
    (ret2, de_text) ← rsa_decrypt env.ssl en_text rsa_pri_key_controller
    (ret3, sign_text) ← rsa_sign env.ssl de_text rsa_pri_key_controller
    ver ← rsa_verify env.ssl sign_text de_text rsa_pub_key_controller
    done (
      pos 0,
      record {
        text = text;
        en_text = en_text;
        de_text = de_text;
        sign_text = sign_text;
        ver = ver;
        md5_result = (md5_encrypt env.ssl text).1;
      },
    )

  -- What main of erpc_test_server registers.
  unfoldable pub register_test : ErpcConfig Unit → ErpcConfig Unit
  unfolding register_service
  register_test config =
      register_service (test_service env) ssl_crt_controller ssl_key_controller config

  -- main of erpc_test_client.
  unfoldable pub erpc_test_client : Network → Outcome (ℤ × ReverseRsp × Header × Bytes)
  unfolding test_func_reverse_request
  erpc_test_client network = do
    (ret, rsp, header, sent) ←
        test_func_reverse_request env network (record { str = txt "hello world" })
          (record { str = [] }) new_packet.header
    i_assert ret (done (minus_one, rsp, header, sent)) (done (pos 0, rsp, header, sent))
