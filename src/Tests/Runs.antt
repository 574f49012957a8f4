-- ===== src/Tests/Runs.antt =====
-- Whole runs: a client, a round of the scanning thread, and a TLS connection.
use sdpgateway_verification.Prelude.{
  ℕ, ◌+◌, ◌≡◌, refl, arith, true, false, [], ◌∷◌, if◌then◌else◌, pos, minus_one, Bytes, length,
  done, txt,
}
use sdpgateway_verification.Map.{bytes_key}
use sdpgateway_verification.CommDef.{tcp_port_application, ip_client_pb}
use sdpgateway_verification.Io.{got, wrote, buffer_room}
use sdpgateway_verification.Io.Write.{after_interrupts}
use sdpgateway_verification.Iptables.Chain.{chain, lets_in}
use sdpgateway_verification.Gateway.{Gateway, knock, controller_black_list_is_in}
use sdpgateway_verification.Erpc.{SocketInfo, handle_rpc_request}
use sdpgateway_verification.Erpc.Services.{gateway_service}
use sdpgateway_verification.Erpc.Client.{Network}
use sdpgateway_verification.Application.{Application, new_application_config}
use sdpgateway_verification.EndToEnd.Pages.{the_page}
use sdpgateway_verification.Erpc.Reply.{answering}
use sdpgateway_verification.Client.{Sending}
use sdpgateway_verification.Messages.{GetAccessRsp}
use sdpgateway_verification.EndToEnd.Scans.{scan_round_shuts_out}
use sdpgateway_verification.Runners.{scanning}
use sdpgateway_verification.Tls.{
  Library, Handshake, Connector, ssl_connector, ssl_connect, ssl_accept, destroy,
}
use sdpgateway_verification.Tls.Lifetime.{shaken_hands, ssl_frees, ctx_frees, connector-Life}
use sdpgateway_verification.Tests.ToyCodec.{
  toy_black_list_op_req-RoundTrips, toy_empty_rsp-RoundTrips,
}
use sdpgateway_verification.Tests.ToyEnv.{toy_env}
use sdpgateway_verification.Tests.Gateways.{shell, opened, history_opened, msg}
use sdpgateway_verification.Tests.Controllers.{client_ip, granted}

abbrev client_info : SocketInfo
client_info = record { ip = client_ip; port = pos 5000 }

abbrev pub sendings : ℕ → Sending
sendings i = record { fd = pos 7; ret = pos 100 }

abbrev listing : GetAccessRsp
listing = record { access_list = granted ∷ [] }

abbrev room : ℕ
room = 100 + length (toy_env.get_access_rsp.serialize listing)

scan_round_shuts_out_example :
    (bytes answer bytes2 answer2 : Bytes) × (g1 g2 : Gateway) × (scanning toy_env
        (((λ ip port. answering 0 200 answer), (λ ip port. answering 0 200 answer2)) ∷ [])
      ≡ done (bytes ∷ bytes2 ∷ []))
    × (handle_rpc_request toy_env
          (gateway_service toy_env 1010 (pos 0))
          true
          client_info
          (got bytes)
          (after_interrupts 0 (wrote 200 ∷ []))
          opened
        ≡ done (pos 0, answer, g1))
    × (handle_rpc_request toy_env
          (gateway_service toy_env 1010 (pos 0))
          true
          client_info
          (got bytes2)
          (after_interrupts 0 (wrote 200 ∷ []))
          g1
        ≡ done (pos 0, answer2, g2))
    × (lets_in true ip_client_pb tcp_port_application (chain g2.whitelist.iptool.executed) ≡ false)
    × (controller_black_list_is_in ip_client_pb tcp_port_application g2 ≡ false)
unfolding ip_client_pb
scan_round_shuts_out_example =
    scan_round_shuts_out toy_env shell (knock 1010 msg client_ip ∷ []) {g = opened} history_opened
      client_info 1010 0 200 (pos 0) true toy_black_list_op_req-RoundTrips toy_empty_rsp-RoundTrips
      (omega arith) (omega arith) (omega arith) (omega (arith, buffer_room))

-- The files of the certificate do not load, and the handshake fails on a connection that was made.
abbrev library : Library
library = record {
  ctx = true;
  certificate = λ file. pos 0;
  private_key = λ file. pos 0;
  checked = pos 0;
}

abbrev refused : Handshake
refused = record { ssl = true; set_fd_ret = pos 1; shaken = minus_one }

connector-Life_example :
    (c : Connector) × (ssl_connector library (txt "a.crt") (txt "a.key") (pos 0) ≡ done c)
    × (((ssl_connect refused (pos 9) c).0 ≡ (if shaken_hands refused then pos 0 else minus_one))
        × (ssl_frees (destroy (ssl_connect refused (pos 9) c).1).calls
            ≡ (if shaken_hands refused then 1 else 0))
        × (ctx_frees (destroy (ssl_connect refused (pos 9) c).1).calls ≡ 1))
    × (((ssl_accept refused (pos 9) c).0 ≡ (if shaken_hands refused then pos 0 else minus_one))
        × (ssl_frees (destroy (ssl_accept refused (pos 9) c).1).calls
            ≡ (if shaken_hands refused then 1 else 0))
        × (ctx_frees (destroy (ssl_accept refused (pos 9) c).1).calls ≡ 1))
connector-Life_example =
    connector-Life library (txt "a.crt") (txt "a.key") (pos 0) refused (pos 9) refl

abbrev others : Network
others ip port = answering 1 room the_page

abbrev visited_once : Application
visited_once = record new_application_config {
  visist_freq_map = (client_ip, record { times = 1; min = pos 960 }) ∷ [];
  last_visit_time_map = (client_ip, 1011) ∷ [];
}
