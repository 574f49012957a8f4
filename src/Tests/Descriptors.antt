-- ===== src/Tests/Descriptors.antt =====
-- A dispatcher with its two sockets and one client.
use sdpgateway_verification.Prelude.{
  ◌≡◌, inl, inr, refl, true, false, none, if◌then◌else◌, [], ◌∷◌, pos, int_eq, txt, done,
}
use sdpgateway_verification.Map.{int_key, find}
use sdpgateway_verification.Io.{got, datagram, rd_buf_size}
use sdpgateway_verification.Controller.Config.{Controller}
use sdpgateway_verification.Erpc.{Service}
use sdpgateway_verification.Erpc.Services.{controller_service}
use sdpgateway_verification.Dispatcher.{
  FdData, zero_fd_data, EpollDispatcher, Wakeup, dispatch_event, dispatch, id_controller,
  epollin_et,
}
use sdpgateway_verification.Dispatcher.Sockets.{socket_data}
use sdpgateway_verification.Dispatcher.Clients.{IsClient, client_event_closes}
use sdpgateway_verification.Dispatcher.Registered.{IsServing}
use sdpgateway_verification.Dispatcher.Rounds.{dispatch-IsServing}
use sdpgateway_verification.Tests.ToyEnv.{toy_env}
use sdpgateway_verification.Tests.Controllers.{client_ip, controller, stamp}

abbrev service : Service Controller
service = controller_service toy_env stamp

abbrev client : FdData
client = record {
  fd = pos 7;
  event_type = epollin_et;
  socket_info = record { ip = client_ip; port = pos 5000 };
  connector = true;
}

abbrev dispatcher : EpollDispatcher Controller
dispatcher = record {
  listen_fd = pos 3;
  udp_fd = pos 4;
  id = id_controller;
  fdmap = (pos 3, socket_data (pos 3)) ∷ (pos 4, socket_data (pos 4)) ∷ (pos 7, client) ∷ [];
  s = controller;
  closed = [];
  sent = [];
}

-- The client sends three bytes, which are no request.
abbrev readable : Wakeup
readable = record {
  fd = pos 7;
  epollerr = false;
  epollhup = false;
  epollin = true;
  ctl_error = pos 0;
  ctl = pos 0;
  accepting = record { tmp_fd = pos 9; ip = []; port = pos 0; ssl_accepted = pos 1 };
  unset = zero_fd_data;
  recv = datagram [] [] (pos 0);
  read = got (txt "abc");
  writes = [];
}

abbrev served : EpollDispatcher Controller
served = record dispatcher {
  fdmap = (pos 3, socket_data (pos 3)) ∷ (pos 4, socket_data (pos 4)) ∷ [];
  closed = pos 7 ∷ [];
  sent = (pos 7, []) ∷ [];
}

serves : dispatch_event toy_env service readable dispatcher ≡ done served
unfolding dispatch_event rd_buf_size
serves = refl

is_client : IsClient readable dispatcher client
unfolding find
is_client = record { not_udp = refl; not_listen = refl; registered = refl; keyed = refl }

client_event_closes_example :
    (find (pos 7) served.fdmap
      ≡ (if int_eq (pos 7) (pos 7) then none else find (pos 7) dispatcher.fdmap))
    × (served.closed ≡ pos 7 ∷ [])
client_event_closes_example =
    client_event_closes toy_env service readable dispatcher client {d' = served} (pos 7) is_client
      refl refl refl serves

dispatches : dispatch toy_env service (readable ∷ []) dispatcher ≡ done (pos 0, served)
unfolding dispatch rd_buf_size
dispatches = refl

dispatch-IsServing_example : (pos 0 ≡ pos 0) × IsServing (pos 3) (pos 4) served.fdmap
unfolding find dispatch_event rd_buf_size
dispatch-IsServing_example =
    dispatch-IsServing toy_env service (readable ∷ []) dispatcher (pos 3) (pos 4)
      {r = (pos 0, served)} ((refl, refl, refl), tt)
      ((refl, inl refl), ((refl, inr (inl refl)), ((refl, inr (inr refl)), tt))) dispatches
