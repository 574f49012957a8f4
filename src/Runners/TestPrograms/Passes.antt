-- ===== src/Runners/TestPrograms/Passes.antt =====
-- The test programs of comm/spatools, comm/ssltools and comm/erpc with keys that belong together.
use sdpgateway_verification.Prelude.{
  ℕ, ◌+◌, ◌≤◌, ◌≡◌, refl, arith, true, [], ◌∷◌, pos, Bytes, txt, length, done,
}
use sdpgateway_verification.CommDef.{
  rsa_pub_key_controller, rsa_pri_key_controller, rsa_pub_key_gateway, rsa_pri_key_gateway,
}
use sdpgateway_verification.Messages.{RoundTrips}
use sdpgateway_verification.OpenSsl.{IsPair}
use sdpgateway_verification.Env.{Env}
use sdpgateway_verification.EndToEnd.{Keys}
use sdpgateway_verification.Rsa.{md5_encrypt}
use sdpgateway_verification.Rsa.RoundTrip.{rsa_decrypt-rsa_encrypt}
use sdpgateway_verification.Rsa.Signature.{rsa_verify-rsa_sign}
use sdpgateway_verification.Spa.RoundTrip.{
  decrypt_voucher-encrypt_voucher, decrypt_ticket-encrypt_ticket,
}
use sdpgateway_verification.Packet.{new_packet, ret_msg_field}
use sdpgateway_verification.Io.{got, wrote, rd_buf_size}
use sdpgateway_verification.Io.Write.{after_interrupts}
use sdpgateway_verification.Erpc.{SocketInfo, handle_rpc_request, request_forward_with_cmd}
use sdpgateway_verification.Erpc.Client.{test_func_reverse_request}
use sdpgateway_verification.Erpc.Reply.{answering, func_request_remote}
use sdpgateway_verification.Runners.{test_service}
use sdpgateway_verification.Runners.TestPrograms.{
  erpc_test_client, spa_voucher, spa_ticket, assert_answer, spa_test, ssl_test, SslTestLog,
  hello_text,
}

module _ {K : Type 0} (env : Env K) (keys : Keys env)
    (pair : IsPair env.ssl keys.con_pub keys.con_pri) where
  -- With the keys in their files, the controller's also a pair for encryption, and codecs that
  -- round-trip: spa_test returns 0 at any time, and ssl_test logs its text again as what it
  -- has decrypted, and 0 for its signature.
  pub tool_tests_pass :
      RoundTrips env.voucher
      → RoundTrips env.ticket
      → (now now2 : ℕ)
      → (spa_test env now now2 ≡ done (pos 0))
        × ((log : SslTestLog) × (ssl_test env ≡ done (pos 0, log))
            × (log.text ≡ hello_text)
            × (log.de_text ≡ hello_text)
            × (log.ver ≡ pos 0))
  unfolding spa_test assert_answer ssl_test
  tool_tests_pass voucher_codec ticket_codec now now2 =
      let (packet, made, read) =
        decrypt_voucher-encrypt_voucher env.ssl keys.md5_works keys.con_pub keys.con_pri pair
          rsa_pub_key_controller rsa_pri_key_controller keys.con_pub_file keys.con_pri_file
          env.voucher (spa_voucher now) voucher_codec in
      let (ticket_packet, ticket_made, ticket_read) =
        decrypt_ticket-encrypt_ticket env.ssl keys.md5_works keys.gate_pub keys.gate_pri
          keys.encrypting rsa_pub_key_gateway rsa_pri_key_gateway keys.gate_pub_file
          keys.gate_pri_file keys.con_pub keys.con_pri keys.signing rsa_pub_key_controller
          rsa_pri_key_controller keys.con_pub_file keys.con_pri_file env.ticket (spa_ticket now2)
          ticket_codec in
      let (cipher, encrypts, decrypts) =
        rsa_decrypt-rsa_encrypt env.ssl keys.con_pub keys.con_pri pair rsa_pub_key_controller
          rsa_pri_key_controller keys.con_pub_file keys.con_pri_file hello_text in
      let (sig, signs, verifies) =
        rsa_verify-rsa_sign env.ssl keys.con_pub keys.con_pri keys.signing rsa_pub_key_controller
          rsa_pri_key_controller keys.con_pub_file keys.con_pri_file hello_text in
      (
        rw (made, read, ticket_made, ticket_read) refl,
        (
          record {
            text = hello_text;
            en_text = cipher;
            de_text = hello_text;
            sign_text = sig;
            ver = pos 0;
            md5_result = (md5_encrypt env.ssl hello_text).1;
          },
          rw (encrypts, decrypts, signs, verifies) refl,
          refl,
          refl,
          refl,
        ),
      )

-- erpc_test_client with erpc_test_server at the other end of a connection that takes all that is
-- written, at most RD_BUF_SIZE bytes, and brings it in one piece, and codecs that round-trip: the
-- server answers the bytes that the client sends, and the client with this answer returns 0 and
-- logs "hello world" in reverse.
pub erpc_test_client_reverses :
    {K : Type 0} (env : Env K) (info : SocketInfo) (k n : ℕ)
    → RoundTrips env.reverse_req
    → RoundTrips env.reverse_rsp
    → 58 + length (env.reverse_rsp.serialize (record { str = txt "dlrow olleh" })) ≤ n
    → 4 + length (env.reverse_req.serialize (record { str = txt "hello world" })) ≤ n
    → n ≤ rd_buf_size
    → (sent answer : Bytes) × (handle_rpc_request env
          (test_service env)
          true
          info
          (got sent)
          (after_interrupts k (wrote n ∷ []))
          tt
        ≡ done (pos 0, answer, tt))
      × (erpc_test_client env (λ ip port. answering k n answer)
          ≡ done (
            pos 0,
            record { str = txt "dlrow olleh" },
            record { ret_code = pos 0; ret_msg = ret_msg_field (txt "Request OK") },
            sent,
          ))
unfolding erpc_test_client test_func_reverse_request request_forward_with_cmd test_service
erpc_test_client_reverses env info k n req_codec rsp_codec room room2 buffer =
    let (sent, answer, served, called) =
      func_request_remote env (test_service env) env.reverse_req env.reverse_rsp 2
        (record { str = txt "hello world" }) (record { str = txt "dlrow olleh" })
        (record { str = [] }) new_packet.header info k n tt tt (omega arith) rsp_codec
        (ground (arith, req_codec.parse-serialize (record { str = txt "hello world" }))) room room2
        buffer in
    (sent, answer, served, rw called refl)
