-- ===== src/Server/Starts.antt =====
-- The servers of SDPController(), SDPAppGateway() and SDPApplication(), of modules/controller,
-- modules/gateway and modules/application: each module's state in its server, and what it
-- registers.
use sdpgateway_verification.Prelude.{◌≡◌, ◌∙◌, [], arith, ℤ, ℕ, Bytes, Outcome, done, ◌>>=◌}
use sdpgateway_verification.CommDef.{
  ip_controller_in, ip_appgateway_in, ip_application_in, tcp_port_controller, udp_port_controller,
  tcp_port_appgateway, udp_port_appgateway, tcp_port_application, ssl_crt_controller,
  ssl_key_controller, ssl_crt_gateway, ssl_key_gateway, ssl_crt_application, ssl_key_application,
}
use sdpgateway_verification.Env.{Env}
use sdpgateway_verification.Iptables.{Shell}
use sdpgateway_verification.Controller.{sdp_controller}
use sdpgateway_verification.Controller.Config.{Controller, new_controller_config}
use sdpgateway_verification.Gateway.{
  Gateway, new_gateway_config, sdp_app_gateway, register_app_request,
}
use sdpgateway_verification.Erpc.Client.{Network, con_func_register_app_request}
use sdpgateway_verification.Packet.{new_packet}
use sdpgateway_verification.Application.{Application, new_application_config}
use sdpgateway_verification.Erpc.Services.{controller_service, gateway_service, application_service}
use sdpgateway_verification.Dispatcher.{
  EpollDispatcher, id_controller, id_gateway, id_application, dispatcher_add,
}
use sdpgateway_verification.Dispatcher.Sockets.{
  SocketCalls, make_listen_fd, make_udp_fd, rpc_dispatcher, application_dispatcher,
}
use sdpgateway_verification.Server.{
  ErpcServer, ErpcConfig, rpc_server, application_server, register_service,
}

unfoldable pub controller_server : ℤ → SocketCalls → SocketCalls → Shell → ErpcServer Controller
unfolding rpc_server sdp_controller new_controller_config
controller_server unset tcp udp sh =
    rpc_server unset id_controller ip_controller_in tcp_port_controller udp_port_controller tcp udp
      (sdp_controller (new_controller_config sh))

unfoldable pub gateway_server : ℤ → SocketCalls → SocketCalls → Shell → ErpcServer Gateway
unfolding rpc_server sdp_app_gateway new_gateway_config
gateway_server unset tcp udp sh =
    rpc_server unset id_gateway ip_appgateway_in tcp_port_appgateway udp_port_appgateway tcp udp
      (sdp_app_gateway (new_gateway_config sh))

unfoldable pub sdp_application : ℤ → SocketCalls → ErpcServer Application
unfolding application_server
sdp_application unset tcp =
    application_server unset id_application ip_application_in tcp_port_application tcp
      new_application_config

-- What the three constructors register.
module _ {K : Type 0} (env : Env K) where
  unfoldable pub register_controller : (ℕ → ℕ × ℕ) → ErpcConfig Controller → ErpcConfig Controller
  unfolding register_service controller_service
  register_controller stamp =
      register_service (controller_service env stamp) ssl_crt_controller ssl_key_controller

  unfoldable pub register_gateway : ℕ → ℤ → ErpcConfig Gateway → ErpcConfig Gateway
  unfolding register_service gateway_service
  register_gateway now junk =
      register_service (gateway_service env now junk) ssl_crt_gateway ssl_key_gateway

module _ {K : Type 0} (env : Env K) where
  -- The end of SDPAppGateway(), which registers the application with the controller and logs a
  -- failure: what has gone out.
  unfoldable pub gateway_registers : Network → Outcome Bytes
  unfolding con_func_register_app_request register_app_request
  gateway_registers network = do
    (ret, rsp, header, sent) ←
        con_func_register_app_request env network register_app_request (record {}) new_packet.header
    done sent

module _ {K : Type 0} (env : Env K) where
  unfoldable pub register_application :
      Network → ℕ → ErpcConfig Application → ErpcConfig Application
  unfolding register_service application_service
  register_application network now =
      register_service (application_service env network now) ssl_crt_application ssl_key_application

module _ {S : Type 0} where
  listening_keeps :
      (calls : SocketCalls) (d : EpollDispatcher S) → (make_listen_fd calls d).1.s ≡ d.s
  unfolding make_listen_fd dispatcher_add
  listening_keeps calls d = ground arith

  udp_keeps : (calls : SocketCalls) (d : EpollDispatcher S) → (make_udp_fd calls d).1.s ≡ d.s
  unfolding make_udp_fd dispatcher_add
  udp_keeps calls d = ground arith

  dispatcher_state :
      (unset id : ℤ) (tcp udp : SocketCalls) (s : S) → (rpc_dispatcher unset id tcp udp s).s ≡ s
  unfolding rpc_dispatcher
  dispatcher_state unset id tcp udp s =
      let d : EpollDispatcher S = record {
        listen_fd = unset;
        udp_fd = unset;
        id = id;
        fdmap = [];
        s = s;
        closed = [];
        sent = [];
      } in
      udp_keeps udp (make_listen_fd tcp d).1 ∙ listening_keeps tcp d

-- The gateway's server begins in the state of its module, whatever becomes of its sockets.
pub gateway_server_state :
    (unset : ℤ) (tcp udp : SocketCalls) (sh : Shell)
    → (gateway_server unset tcp udp sh).epoll_dispatcher.s ≡ sdp_app_gateway (new_gateway_config sh)
unfolding gateway_server rpc_server
gateway_server_state unset tcp udp sh = dispatcher_state unset id_gateway tcp udp _

-- The application's server, in the same way.
pub sdp_application_state :
    (unset : ℤ) (tcp : SocketCalls)
    → (sdp_application unset tcp).epoll_dispatcher.s ≡ new_application_config
unfolding sdp_application application_server application_dispatcher
sdp_application_state unset tcp = listening_keeps tcp (record {
  listen_fd = unset;
  udp_fd = unset;
  id = id_application;
  fdmap = [];
  s = new_application_config;
  closed = [];
  sent = [];
})
