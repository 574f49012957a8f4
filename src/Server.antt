-- ===== src/Server.antt =====
-- comm/erpc/erpc_server and comm/erpc/erpc_config: what a server keeps, the registration of its
-- service and its endless loop.
pub mod Applications
pub mod Controllers
pub mod Crash
pub mod Gateways
pub mod Loop
pub mod Starts
use sdpgateway_verification.Prelude.{
  Bool, Option, none, some, List, [], ◌∷◌, ℤ, is_neg, Bytes, Outcome, done, fault, null_pointer,
  ◌>>=◌, minus_one,
}
use sdpgateway_verification.Tlog.{i_assert}
use sdpgateway_verification.Env.{Env}
use sdpgateway_verification.Erpc.{Service}
use sdpgateway_verification.Dispatcher.{EpollDispatcher, Wakeup, dispatch}
use sdpgateway_verification.Dispatcher.Sockets.{SocketCalls, rpc_dispatcher, application_dispatcher}

-- ErpcConfig, where a null service pointer is `none`.
pub record ErpcConfig (S : Type 0) : Type 0 where
  pub service : Option (Service S)
  pub server_cert : Bytes
  pub server_key : Bytes

module _ {S : Type 0} where
  unfoldable pub set_service_obj : Service S → ErpcConfig S → ErpcConfig S
  set_service_obj service config = record config { service = some service }

  unfoldable pub set_server_cert : Bytes → Bytes → ErpcConfig S → ErpcConfig S
  set_server_cert cert key config = record config { server_cert = cert; server_key = key }

  -- RegisterService
  unfoldable pub register_service : Service S → Bytes → Bytes → ErpcConfig S → ErpcConfig S
  unfolding set_service_obj set_server_cert
  register_service service cert key config =
      set_server_cert cert key (set_service_obj service config)

  -- GetServiceObj()->..., for each virtual method: a call on a null pointer.
  unfoldable pub get_service_obj : ErpcConfig S → Service S
  get_service_obj config = elim config.service [
    | some service ↦ service
    | none ↦ record {
      test_func_udp_recv = λ msg ip port s. fault null_pointer;
      test_func_reverse = λ req info s. fault null_pointer;
      con_func_udp_recv = λ msg ip port s. fault null_pointer;
      con_func_get_access = λ req info s. fault null_pointer;
      con_func_register_app = λ req info s. fault null_pointer;
      gate_func_udp_recv = λ msg ip port s. fault null_pointer;
      gate_func_black_list_op = λ req info s. fault null_pointer;
      gate_func_notice = λ req info s. fault null_pointer;
      app_func_https = λ req info s. fault null_pointer;
    }
  ]

-- ErpcServer
pub record ErpcServer (S : Type 0) : Type 0 where
  pub epoll_dispatcher : EpollDispatcher S
  pub id : ℤ
  pub listen_ip : Bytes
  pub tcp_port : ℤ
  pub udp_port : ℤ

-- The two constructors, over a module's state. The application's never assigns `udp_port_`, which
-- holds `unset` as the dispatcher's members do.
unfoldable pub rpc_server :
    {S : Type 0} → ℤ → ℤ → Bytes → ℤ → ℤ → SocketCalls → SocketCalls → S → ErpcServer S
unfolding rpc_dispatcher
rpc_server unset id ip tcp_port udp_port tcp udp s = record {
  epoll_dispatcher = rpc_dispatcher unset id tcp udp s;
  id = id;
  listen_ip = ip;
  tcp_port = tcp_port;
  udp_port = udp_port;
}

unfoldable pub application_server :
    {S : Type 0} → ℤ → ℤ → Bytes → ℤ → SocketCalls → S → ErpcServer S
unfolding application_dispatcher
application_server unset id ip tcp_port tcp s = record {
  epoll_dispatcher = application_dispatcher unset id tcp s;
  id = id;
  listen_ip = ip;
  tcp_port = tcp_port;
  udp_port = unset;
}

-- One return of epoll_wait: its entries, none if it fails, and the service object with the time and
-- what else its methods find then.
pub record Round (S : Type 0) : Type 0 where
  pub config : ErpcConfig S
  pub wakeups : List Wakeup

-- Where Run is after some rounds: in epoll_wait again, or back at its caller.
pub data Running (S : Type 0) : Type 0 where
  waiting : ErpcServer S → Running S
  returned : ℤ → ErpcServer S → Running S

-- Run
unfoldable pub server_run :
    {K S : Type 0} → Env K → List (Round S) → ErpcServer S → Outcome (Running S)
unfolding dispatch get_service_obj
server_run env [] server = done (waiting server)
server_run env (round ∷ rounds) server = do
  (ret, d) ← dispatch env (get_service_obj round.config) round.wakeups server.epoll_dispatcher
  let server' = record server { epoll_dispatcher = d }
  i_assert ret (done (returned minus_one server')) (server_run env rounds server')
