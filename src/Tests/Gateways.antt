-- ===== src/Tests/Gateways.antt =====
-- The gateway, the firewall and the whole path of a ticket, with the stand-in keys.
use sdpgateway_verification.Prelude.{
  fault, over_read, ◌≤◌, ◌≡◌, ◌≢◌, ◌⊎◌, refl, arith, true, false, List, [], ◌∷◌, ℤ, pos, minus_one,
  Bytes, txt, bytes_eq, done, bytes_eq_refl, bytes_ltb,
}
use sdpgateway_verification.Map.{bytes_key, contains, find}
use sdpgateway_verification.Map.Laws.{find-insert}
use sdpgateway_verification.Messages.{Ticket, TicketPacket, NoticeReq}
use sdpgateway_verification.CommDef.{
  rsa_pub_key_controller, rsa_pri_key_controller, rsa_pub_key_gateway, rsa_pri_key_gateway,
  ip_application_pb, ip_controller_pb,
}
use sdpgateway_verification.Spa.{success, encrypt_ticket, decrypt_ticket}
use sdpgateway_verification.Spa.RoundTrip.{decrypt_ticket-encrypt_ticket}
use sdpgateway_verification.Iptables.{
  Shell, WhiteList, new_white_list, init_white_list, op_white_list, ip_white_list_del,
  is_ip_in_white_list,
}
use sdpgateway_verification.Iptables.Rules.{accepts, occurrences}
use sdpgateway_verification.Iptables.Seeded.{Call, calls, seeded_entry_stays}
use sdpgateway_verification.Gateway.{
  Gateway, knock, notice, run, gate_func_udp_recv, controller_black_list_is_in, is_expired,
  gate_func_notice, new_gateway_config, sdp_app_gateway,
}
use sdpgateway_verification.Gateway.Admission.{
  IsAdmissible, admitted, admissible_passes, gate_func_udp_recv_cases,
}
use sdpgateway_verification.Gateway.Crash.{gate_func_udp_recv_over_reads}
use sdpgateway_verification.Gateway.Replay.{no_replay}
use sdpgateway_verification.Tests.ToyCodec.{
  first, toy_ticket, toy_ticket-RoundTrips, toy_ticket_packet, toy_ticket_packet-RoundTrips,
}
use sdpgateway_verification.Tests.ToyEnv.{
  toy_ssl, toy_env, toy_ssl-IsPair, toy_ssl-IsSigningPair, toy_ssl-Md5Works, toy_ssl-Holds,
  toy_ssl-Holds_private,
}

-- A shell in which every command succeeds, and the gateway at its start.
abbrev pub shell : Shell
shell = record { executed = []; status = λ before cmd. pos 0 }

abbrev pub gateway : Gateway
gateway = sdp_app_gateway (new_gateway_config shell)

abbrev pub client_ip : Bytes
client_ip = txt "1.2.3.4"

abbrev ticket : Ticket
ticket = record { ip = client_ip; timestamp = 1000; random = 7; valid_seconds = 30 }

-- A packet that the controller makes of the ticket.
pub made :
    (packet : TicketPacket) × (encrypt_ticket toy_ssl toy_ticket ticket rsa_pri_key_controller
        rsa_pub_key_gateway
      ≡ done (success packet))
    × (decrypt_ticket toy_ssl toy_ticket packet rsa_pub_key_controller rsa_pri_key_gateway
        ≡ done (success ticket))
made =
    decrypt_ticket-encrypt_ticket toy_ssl toy_ssl-Md5Works 0 0 toy_ssl-IsPair rsa_pub_key_gateway
      rsa_pri_key_gateway (toy_ssl-Holds rsa_pub_key_gateway)
      (toy_ssl-Holds_private rsa_pri_key_gateway) 0 0 toy_ssl-IsSigningPair rsa_pub_key_controller
      rsa_pri_key_controller (toy_ssl-Holds rsa_pub_key_controller)
      (toy_ssl-Holds_private rsa_pri_key_controller) toy_ticket ticket toy_ticket-RoundTrips

abbrev pub msg : Bytes
msg = toy_ticket_packet.serialize made.0

back : toy_ticket_packet.parse msg ≡ made.0
back = toy_ticket_packet-RoundTrips.parse-serialize made.0

admissible : IsAdmissible toy_env 1010 msg client_ip gateway ticket
unfolding controller_black_list_is_in is_expired find sdp_app_gateway new_gateway_config
admissible = record {
  not_black = refl;
  genuine = rw back made.2;
  same_ip = refl;
  in_time = refl;
  unused = refl;
}

abbrev pub opened : Gateway
opened = admitted (toy_ticket_packet.parse msg).sign_data client_ip gateway

pub knocks : gate_func_udp_recv toy_env 1010 msg client_ip gateway ≡ done (pos 0, opened)
knocks = admissible_passes toy_env 1010 msg client_ip gateway ticket admissible

gate_func_udp_recv_cases_example :
    ((t : Ticket) × IsAdmissible toy_env 1010 msg client_ip gateway t
      × ◌≡◌ {A = ℤ × Gateway} (pos 0, opened) (pos 0, opened))
    ⊎ ((pos 0 ≢ pos 0) × (opened ≡ gateway))
gate_func_udp_recv_cases_example =
    gate_func_udp_recv_cases toy_env 1010 msg client_ip gateway {r = (pos 0, opened)} knocks

-- The application gives notice of the client; the gateway closes the port and still knows the
-- signature.
abbrev closing : NoticeReq
closing = record { op = pos 1; op_ip = client_ip }

abbrev closed : Gateway
closed = record opened {
  whitelist = (op_white_list ip_white_list_del client_ip opened.app_tcp_port opened.whitelist).1;
}

history_closed : run toy_env (notice (pos 0) ip_application_pb closing ∷ []) opened ≡ done closed
unfolding run gate_func_notice bytes_eq bytes_ltb ip_application_pb ip_controller_pb sdp_app_gateway
    new_gateway_config
history_closed = refl

replayed :
    (g : Gateway)
    → controller_black_list_is_in client_ip g.app_tcp_port g ≡ false
    → contains (toy_ticket_packet.parse msg).sign_data g.md5_map ≡ true
    → gate_func_udp_recv toy_env 1020 msg client_ip g ≡ done (pos 1, g)
unfolding gate_func_udp_recv
replayed g white used = ground (arith, back, made.2, bytes_eq_refl client_ip)

used_signature : contains (toy_ticket_packet.parse msg).sign_data closed.md5_map ≡ true
used_signature =
    let sign = (toy_ticket_packet.parse msg).sign_data in
    ground (arith, find-insert sign sign (pos 1) gateway.md5_map, bytes_eq_refl sign)

still_white : controller_black_list_is_in client_ip closed.app_tcp_port closed ≡ false
unfolding controller_black_list_is_in sdp_app_gateway new_gateway_config
still_white = refl

no_replay_example : (pos 1 ≢ pos 0) × (closed ≡ closed)
no_replay_example =
    no_replay toy_env gateway opened closed 1010 1020 msg msg client_ip client_ip
      (notice (pos 0) ip_application_pb closing ∷ []) {r = (pos 1, closed)} knocks history_closed
      refl (replayed closed still_white used_signature)

-- The gateway handles the knock and no more.
pub history_opened : run toy_env (knock 1010 msg client_ip ∷ []) gateway ≡ done opened
unfolding run
history_opened = ground (arith, knocks)

abbrev fresh_list : WhiteList
fresh_list = new_white_list shell

-- The address is taken off and put on again, to no avail.
abbrev attempts : List Call
attempts =
    record { op = pos 2; ip = client_ip; port = pos 6003 }
    ∷ record { op = pos 1; ip = client_ip; port = pos 6003 }
    ∷ []

seeded_entry_stays_example :
    let w = calls attempts (init_white_list (client_ip ∷ []) (pos 6003) fresh_list).1 in
    (is_ip_in_white_list client_ip (pos 6003) w ≡ false)
    × (op_white_list ip_white_list_del client_ip (pos 6003) w ≡ (minus_one, w))
    × (occurrences client_ip (client_ip ∷ []) ≤ accepts client_ip (pos 6003) w.iptool.executed)
unfolding occurrences bytes_eq
seeded_entry_stays_example =
    seeded_entry_stays (client_ip ∷ []) (pos 6003) shell client_ip attempts (λ p. cc) (omega arith)
      (λ p. cc, (λ p. cc, tt))

-- A ciphertext of one byte.
abbrev broken : TicketPacket
broken = record { enc_data = 1 ∷ []; md5_data = []; sign_data = [] }

gate_func_udp_recv_over_reads_example :
    gate_func_udp_recv toy_env 1010 (toy_ticket_packet.serialize broken) client_ip gateway
    ≡ fault over_read
unfolding controller_black_list_is_in sdp_app_gateway new_gateway_config first
gate_func_udp_recv_over_reads_example =
    gate_func_udp_recv_over_reads toy_env 0 1010 (toy_ticket_packet.serialize broken) client_ip
      gateway (toy_ssl-Holds_private rsa_pri_key_gateway) (omega arith) (omega arith) refl
