-- ===== src/Tests/ControllerServer.antt =====
-- The controller's loop at a concrete round, with the stand-in keys.
use sdpgateway_verification.Prelude.{
  ◌≡◌, refl, arith, true, false, none, List, [], ◌∷◌, ◌++◌, ℤ, pos, Bytes, bytes_eq, bytes_ltb, txt,
  Any, done,
}
use sdpgateway_verification.CommDef.{ip_appgateway_pb, tcp_port_controller}
use sdpgateway_verification.Map.{Map, int_key, find}
use sdpgateway_verification.Messages.{AppItem}
use sdpgateway_verification.Packet.{memory_copy_to_string}
use sdpgateway_verification.Packet.RoundTrip.{memory_corp_to_object-copy}
use sdpgateway_verification.Io.{datagram, got, udp_recv-datagram}
use sdpgateway_verification.Iptables.{Shell, op_white_list}
use sdpgateway_verification.Iptables.Rules.{occurrences}
use sdpgateway_verification.Iptables.Chain.{chain, lets_in}
use sdpgateway_verification.Controller.{con_func_udp_recv, sdp_controller}
use sdpgateway_verification.Controller.Config.{Controller, new_controller_config}
use sdpgateway_verification.Controller.Admission.{admitted}
use sdpgateway_verification.Controller.Vouchers.{IsVoucherFrom}
use sdpgateway_verification.Erpc.{handle_udp_request}
use sdpgateway_verification.Erpc.Services.{controller_service}
use sdpgateway_verification.Dispatcher.{
  Wakeup, zero_fd_data, dispatch, dispatch_event, on_error, on_readable, on_datagram, fd_data_at,
}
use sdpgateway_verification.Dispatcher.Sockets.{socket_data}
use sdpgateway_verification.Server.{
  ErpcServer, Round, waiting, register_service, server_run, get_service_obj,
}
use sdpgateway_verification.Server.Controllers.{server_lets_in_only_by_voucher}
use sdpgateway_verification.Tests.ToyCodec.{toy_voucher_packet}
use sdpgateway_verification.Tests.ToyEnv.{toy_env}
use sdpgateway_verification.Tests.Controllers.{client_ip, gate_ip, https, stamp, msg, sent, back}

abbrev shell : Shell
shell = record { executed = []; status = λ before cmd. pos 0 }

abbrev apps : Map Bytes (List AppItem)
apps = (gate_ip, https ∷ []) ∷ []

abbrev permissions : Map Bytes (Map Bytes ℤ)
permissions = (txt "xiaoming", (txt "5.6.7.8:6004", pos 1) ∷ []) ∷ []

abbrev started : Controller
started = record (sdp_controller (new_controller_config shell)) {
  app_map = apps;
  permission_map = permissions;
}

abbrev let_in : Controller
let_in = admitted (toy_voucher_packet.parse msg).md5_data client_ip started

abbrev knock_bytes : Bytes
knock_bytes = memory_copy_to_string 101 ++ msg

-- A wakeup of the UDP socket with the client's knock.
abbrev woken : Wakeup
woken = record {
  fd = pos 4;
  epollerr = false;
  epollhup = false;
  epollin = true;
  ctl_error = pos 0;
  ctl = pos 0;
  accepting = record { tmp_fd = pos 0; ip = []; port = pos 0; ssl_accepted = pos 0 };
  unset = zero_fd_data;
  recv = datagram knock_bytes client_ip (pos 5000);
  read = got [];
  writes = [];
}

abbrev round : Round Controller
round = record {
  config =
      register_service (controller_service toy_env stamp) [] []
        (record { service = none; server_cert = []; server_key = [] });
  wakeups = woken ∷ [];
}

-- The controller's server in a state of the controller.
abbrev server_with : Controller → ErpcServer Controller
server_with c = record {
  epoll_dispatcher = record {
    listen_fd = pos 3;
    udp_fd = pos 4;
    id = pos 1;
    fdmap = (pos 4, socket_data (pos 4)) ∷ [];
    s = c;
    closed = [];
    sent = [];
  };
  id = pos 1;
  listen_ip = [];
  tcp_port = pos 6002;
  udp_port = pos 6000;
}

knocks : con_func_udp_recv toy_env msg client_ip started ≡ done (pos 0, let_in)
unfolding con_func_udp_recv sdp_controller new_controller_config bytes_eq bytes_ltb
knocks = ground (arith, back, sent.2)

knocked :
    handle_udp_request toy_env
      (controller_service toy_env stamp)
      (datagram knock_bytes client_ip (pos 5000))
      started
    ≡ done (pos 0, let_in)
unfolding handle_udp_request controller_service memory_copy_to_string
knocked = ground (
  arith,
  memory_corp_to_object-copy 101 (omega arith),
  udp_recv-datagram knock_bytes client_ip (pos 5000),
  knocks,
)

survived :
    server_run toy_env (round ∷ []) (server_with started) ≡ done (waiting (server_with let_in))
unfolding server_run dispatch dispatch_event on_error on_readable on_datagram fd_data_at find
    get_service_obj register_service
survived = ground (arith, knocked)

let_in_lets_in :
    lets_in false client_ip tcp_port_controller (chain let_in.whitelist.iptool.executed) ≡ true
unfolding lets_in chain sdp_controller new_controller_config bytes_eq op_white_list ip_appgateway_pb
    bytes_ltb
let_in_lets_in = refl

server_lets_in_only_by_voucher_example :
    Any
      (λ (r : Round Controller).
        Any
          (λ (w : Wakeup).
            IsVoucherFrom toy_env (new_controller_config shell).user_account_map client_ip w.recv)
          r.wakeups)
      (round ∷ [])
unfolding occurrences bytes_eq ip_appgateway_pb register_service
server_lets_in_only_by_voucher_example =
    server_lets_in_only_by_voucher toy_env shell apps permissions (round ∷ []) (server_with started)
      (server_with let_in) client_ip false refl refl ((stamp, refl), tt) survived let_in_lets_in
