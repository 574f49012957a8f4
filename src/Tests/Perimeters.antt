-- ===== src/Tests/Perimeters.antt =====
-- The firewall and the perimeter of the gateway, with the stand-in keys.
use sdpgateway_verification.Prelude.{
  ◌≡◌, refl, minus_one, txt, arith, true, false, [], ◌∷◌, pos, bytes_eq, done, bytes_ltb,
}
use sdpgateway_verification.Map.{bytes_key, find, assign}
use sdpgateway_verification.Messages.{BlackListOpReq}
use sdpgateway_verification.CommDef.{tcp_port_application, ip_application_pb, ip_controller_pb}
use sdpgateway_verification.Iptables.{op_white_list, is_ip_in_white_list}
use sdpgateway_verification.Iptables.Rules.{occurrences}
use sdpgateway_verification.Gateway.{
  Gateway, knock, black_list, run, controller_black_list_is_in, gate_func_black_list_op,
  gate_func_notice, new_gateway_config, sdp_app_gateway,
}
use sdpgateway_verification.Gateway.Firewall.{firewall_lets_in_white_list, black_listed_is_dropped}
use sdpgateway_verification.Iptables.Chain.{chain, lets_in}
use sdpgateway_verification.Io.{got}
use sdpgateway_verification.Erpc.Client.{Network, gate_func_notice_request}
use sdpgateway_verification.Application.Ways.{close_notice}
use sdpgateway_verification.Application.{
  Notice, notice_gateway, Application, new_application_config, app_func_https,
}
use sdpgateway_verification.EndToEnd.Limits.{turned_away_is_shut_out}
use sdpgateway_verification.Tests.ToyEnv.{toy_env}
use sdpgateway_verification.Gateway.Perimeter.{Reach, closed_to}
use sdpgateway_verification.Gateway.Access.{access_of}
use sdpgateway_verification.Gateway.Refines.{gateway_refines_perimeter}
use sdpgateway_verification.Tests.Gateways.{
  shell, gateway, client_ip, msg, opened, knocks, history_opened,
}

firewall_lets_in_white_list_example :
    lets_in true client_ip tcp_port_application (chain opened.whitelist.iptool.executed)
    ≡ is_ip_in_white_list client_ip tcp_port_application opened.whitelist
unfolding occurrences bytes_eq ip_controller_pb ip_application_pb
firewall_lets_in_white_list_example =
    firewall_lets_in_white_list toy_env shell (knock 1010 msg client_ip ∷ []) client_ip {g = opened}
      refl history_opened true

-- The application port is open to the client, whatever the policy.
pub opened_lets_in :
    lets_in false client_ip tcp_port_application (chain opened.whitelist.iptool.executed) ≡ true
unfolding lets_in chain sdp_app_gateway new_gateway_config bytes_eq op_white_list ip_application_pb
    ip_controller_pb bytes_ltb
opened_lets_in = refl

-- The controller black-lists the client, which was let in before.
abbrev banning : BlackListOpReq
banning = record { op = pos 3; ip = client_ip; port = pos 0 }

abbrev banned : Gateway
banned = (gate_func_black_list_op banning opened).1

history_banned :
    run toy_env (knock 1010 msg client_ip ∷ black_list banning ∷ []) gateway ≡ done banned
unfolding run
history_banned = ground (arith, knocks)

is_banned : controller_black_list_is_in client_ip tcp_port_application banned ≡ true
unfolding controller_black_list_is_in gate_func_black_list_op sdp_app_gateway new_gateway_config
    bytes_eq
is_banned = ground arith

black_listed_is_dropped_example :
    lets_in true client_ip tcp_port_application (chain banned.whitelist.iptool.executed) ≡ false
unfolding occurrences bytes_eq ip_controller_pb ip_application_pb
black_listed_is_dropped_example =
    black_listed_is_dropped toy_env shell (knock 1010 msg client_ip ∷ black_list banning ∷ [])
      client_ip {g = banned} refl history_banned true is_banned

gateway_refines_perimeter_example :
    Reach toy_env client_ip
      (knock 1010 msg client_ip ∷ black_list banning ∷ [])
      closed_to
      (access_of client_ip banned)
unfolding occurrences bytes_eq ip_controller_pb ip_application_pb
gateway_refines_perimeter_example =
    gateway_refines_perimeter toy_env shell (knock 1010 msg client_ip ∷ black_list banning ∷ [])
      client_ip {g = banned} refl history_banned

-- The fourth request of the client in a minute.
abbrev busy : Application
busy = record new_application_config {
  visist_freq_map = (client_ip, record { times = 3; min = pos 960 }) ∷ [];
}

-- The gateway cannot be reached.
abbrev unreachable : Network
unreachable ip port = record {
  connected = minus_one;
  ssl_connected = minus_one;
  writes = [];
  read = got [];
}

abbrev turned : Application
turned = record busy {
  visist_freq_map = (client_ip, record { times = 4; min = pos 960 }) ∷ [];
  notices = record { req = close_notice client_ip; ret = minus_one; sent = [] } ∷ [];
}

turned_away :
    app_func_https toy_env unreachable 961 (txt "GET") client_ip busy ≡ done (minus_one, [], turned)
unfolding app_func_https notice_gateway gate_func_notice_request bytes_eq find assign
turned_away = refl

turned_away_is_shut_out_example :
    (n : Notice) × (turned.notices ≡ n ∷ busy.notices)
    × (lets_in true client_ip tcp_port_application (
          chain
            (gate_func_notice (pos 0) ip_application_pb n.req opened).1.whitelist.iptool.executed)
        ≡ false)
unfolding occurrences bytes_eq ip_controller_pb ip_application_pb
turned_away_is_shut_out_example =
    turned_away_is_shut_out toy_env shell (knock 1010 msg client_ip ∷ []) client_ip {g = opened}
      refl history_opened unreachable 961 (txt "GET") busy {r = (minus_one, [], turned)} (pos 0)
      true turned_away (λ p. cc)
