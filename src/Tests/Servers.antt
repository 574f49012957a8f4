-- ===== src/Tests/Servers.antt =====
-- The servers' loop at concrete rounds, with the stand-in keys.
use sdpgateway_verification.Prelude.{
  ℤ, ◌≡◌, refl, arith, true, false, none, [], ◌∷◌, ◌++◌, pos, Bytes, bytes_eq, Any, done, txt,
}
use sdpgateway_verification.CommDef.{ip_controller_pb, ip_application_pb}
use sdpgateway_verification.Map.{int_key, find}
use sdpgateway_verification.Packet.{memory_copy_to_string}
use sdpgateway_verification.Packet.RoundTrip.{memory_corp_to_object-copy}
use sdpgateway_verification.Io.{datagram, got, udp_recv-datagram}
use sdpgateway_verification.Iptables.Rules.{occurrences}
use sdpgateway_verification.Gateway.{Gateway}
use sdpgateway_verification.Erpc.{handle_udp_request}
use sdpgateway_verification.Erpc.Services.{gateway_service}
use sdpgateway_verification.Dispatcher.{
  Wakeup, zero_fd_data, dispatch, dispatch_event, on_error, on_readable, on_datagram, fd_data_at,
}
use sdpgateway_verification.Server.{ErpcServer, Round, waiting, server_run, get_service_obj}
use sdpgateway_verification.Dispatcher.Sockets.{SocketCalls}
use sdpgateway_verification.Server.Starts.{gateway_server, register_gateway}
use sdpgateway_verification.Server.Gateways.{IsKnockFrom, server_lets_in_only_by_knock}
use sdpgateway_verification.Tests.ToyEnv.{toy_env}
use sdpgateway_verification.Tests.Gateways.{shell, gateway, client_ip, msg, opened, knocks}
use sdpgateway_verification.Tests.Perimeters.{opened_lets_in}

abbrev knock_bytes : Bytes
knock_bytes = memory_copy_to_string 201 ++ msg

-- A wakeup of the UDP socket with the client's knock.
abbrev woken : Wakeup
woken = record {
  fd = pos 4;
  epollerr = false;
  epollhup = false;
  epollin = true;
  ctl_error = pos 0;
  ctl = pos 0;
  accepting = record { tmp_fd = pos 0; ip = []; port = pos 0; ssl_accepted = pos 0 };
  unset = zero_fd_data;
  recv = datagram knock_bytes client_ip (pos 5000);
  read = got [];
  writes = [];
}

abbrev round : Round Gateway
round = record {
  config =
      register_gateway toy_env 1010 (pos 0)
        (record { service = none; server_cert = []; server_key = [] });
  wakeups = woken ∷ [];
}

-- The system calls of a start that succeeds, with the descriptor that `socket` returns.
abbrev pub socket_calls : ℤ → SocketCalls
socket_calls fd = record {
  socket = fd;
  setsockopt = pos 0;
  bind = pos 0;
  listen = pos 0;
  ctl = pos 0;
}

abbrev started : ErpcServer Gateway
started = gateway_server (pos 99) (socket_calls (pos 3)) (socket_calls (pos 4)) shell

abbrev after_knock : ErpcServer Gateway
after_knock = record started { epoll_dispatcher = record started.epoll_dispatcher { s = opened } }

knocked :
    handle_udp_request toy_env
      (gateway_service toy_env 1010 (pos 0))
      (datagram knock_bytes client_ip (pos 5000))
      gateway
    ≡ done (pos 0, opened)
unfolding handle_udp_request gateway_service memory_copy_to_string
knocked = ground (
  arith,
  memory_corp_to_object-copy 201 (omega arith),
  udp_recv-datagram knock_bytes client_ip (pos 5000),
  knocks,
)

survived : server_run toy_env (round ∷ []) started ≡ done (waiting after_knock)
unfolding server_run dispatch dispatch_event on_error on_readable on_datagram fd_data_at find
    get_service_obj register_gateway gateway_server
survived = ground (arith, knocked)

server_lets_in_only_by_knock_example :
    Any (λ (r : Round Gateway). Any (IsKnockFrom toy_env client_ip r) r.wakeups) (round ∷ [])
unfolding occurrences bytes_eq ip_controller_pb ip_application_pb register_gateway
server_lets_in_only_by_knock_example =
    server_lets_in_only_by_knock toy_env (pos 99) (socket_calls (pos 3)) (socket_calls (pos 4))
      shell (round ∷ []) after_knock client_ip false refl ((1010, (pos 0, refl)), tt) survived
      opened_lets_in

-- The same wakeup with a datagram of three bytes, in the round after.
abbrev cut_short : Round Gateway
cut_short = record round {
  wakeups = record woken { recv = datagram (txt "abc") client_ip (pos 5000) } ∷ [];
}
