-- ===== src/Tests/Streams.antt =====
-- Packets, writes and the limits of the application.
use sdpgateway_verification.Prelude.{
  minus_one, bytes_eq, ℕ, ◌≤◌, ◌≡◌, ◌≢◌, refl, arith, true, List, [], ◌∷◌, pos, negsuc, txt, done,
}
use sdpgateway_verification.Map.{bytes_key, int_key, find, assign}
use sdpgateway_verification.Packet.{
  Packet, pack_data_to_string, parse_data_from_string, ret_msg_field, new_packet,
}
use sdpgateway_verification.Packet.RoundTrip.{parse-pack_with_header}
use sdpgateway_verification.Io.{got, wrote, write_failed, interrupted, handle_write}
use sdpgateway_verification.Io.Write.{handle_write_loses}
use sdpgateway_verification.Tests.ToyEnv.{toy_env}
use sdpgateway_verification.Erpc.Client.{Network, gate_func_notice_request}
use sdpgateway_verification.Application.Ways.{close_notice}
use sdpgateway_verification.Application.{
  Application, notice_gateway, app_func_https, frequency_judgment, new_application_config,
}
use sdpgateway_verification.Application.Limits.{Request, served, served-le-3}
use sdpgateway_verification.Application.Year2038.{after, no_limit_after_2038}

abbrev packet : Packet
packet = record {
  cmdid = 102;
  header = record { ret_code = negsuc 4; ret_msg = txt "failed" };
  body = txt "body";
}

parse-pack_with_header_example :
    parse_data_from_string new_packet (pack_data_to_string packet true) true
    ≡ done (
      pos 0,
      record packet {
        header = record { ret_code = negsuc 4; ret_msg = ret_msg_field (txt "failed") };
      },
    )
parse-pack_with_header_example =
    parse-pack_with_header new_packet packet (omega arith) (omega arith)

handle_write_loses_example :
    (handle_write (wrote 3 ∷ wrote 2 ∷ wrote 9 ∷ []) (txt "message") ≢ done (pos 7, txt "message"))
    × (handle_write (wrote 3 ∷ write_failed 0 interrupted ∷ wrote 9 ∷ []) (txt "message")
        ≢ done (pos 7, txt "message"))
handle_write_loses_example =
    handle_write_loses 3 2 0 (txt "message") (wrote 9 ∷ []) (txt "message") (omega arith)
      (omega arith)

-- The gateway cannot be reached.
abbrev away : Network
away ip port = record {
  connected = minus_one;
  ssl_connected = minus_one;
  writes = [];
  read = got [];
}

-- Four requests in the minute that begins at 960.
abbrev ask : ℕ → Request
ask now = record { network = away; now = now; request = txt "GET"; from_ip = txt "1.2.3.4" }

abbrev requests : List Request
requests = ask 961 ∷ ask 962 ∷ ask 963 ∷ ask 964 ∷ []

served-le-3_example : served toy_env (txt "1.2.3.4") requests new_application_config ≤ 3
served-le-3_example =
    served-le-3 toy_env 960 (txt "1.2.3.4") requests new_application_config (omega arith)
      (refl, (refl, (refl, (refl, tt))))

abbrev after_four : Application
after_four = record {
  visist_freq_map = (txt "1.2.3.4", record { times = 4; min = pos 960 }) ∷ [];
  last_visit_time_map = (txt "1.2.3.4", 963) ∷ [];
  notices = record { req = close_notice (txt "1.2.3.4"); ret = minus_one; sent = [] } ∷ [];
}

gets_through : after toy_env requests new_application_config ≡ done after_four
unfolding after app_func_https notice_gateway gate_func_notice_request bytes_eq find assign
gets_through = refl

no_limit_after_2038_example :
    (b : Application) × (frequency_judgment toy_env away 2147483700 (txt "1.2.3.4") after_four
      ≡ done (pos 0, b))
    × (b.notices ≡ after_four.notices)
no_limit_after_2038_example =
    no_limit_after_2038 toy_env away requests 2147483700 (txt "1.2.3.4") {a = after_four}
      gets_through (omega arith)
