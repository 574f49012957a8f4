-- ===== src/Tests/ApplicationServer.antt =====
-- The application's loop at a concrete round.
use sdpgateway_verification.Prelude.{
  minus_one, ◌+◌, ◌≤◌, ◌≡◌, refl, true, false, none, [], ◌∷◌, pos, txt, done,
}
use sdpgateway_verification.Map.{int_key, bytes_key, find, assign, erase}
use sdpgateway_verification.Io.{recv_failed, other, got, wrote, handle_write, rd_buf_size}
use sdpgateway_verification.Erpc.Client.{Network}
use sdpgateway_verification.Application.{
  Application, app_func_https, new_application_config, frequency_judgment, time_limit_judgement,
}
use sdpgateway_verification.Application.Notices.{counted, closing}
use sdpgateway_verification.Erpc.{handle_application_request}
use sdpgateway_verification.Erpc.Services.{application_service}
use sdpgateway_verification.EndToEnd.Pages.{the_page, the_request}
use sdpgateway_verification.Dispatcher.{
  Wakeup, zero_fd_data, dispatch, dispatch_event, on_error, on_readable, on_client, fd_data_at,
  handle_rpc_accept, dispatcher_add, dispatcher_del,
}
use sdpgateway_verification.Server.{ErpcServer, Round, waiting, server_run, get_service_obj}
use sdpgateway_verification.Server.Starts.{sdp_application, register_application}
use sdpgateway_verification.Server.Applications.{server_notices_every_excess}
use sdpgateway_verification.Tests.ToyEnv.{toy_env}
use sdpgateway_verification.Tests.Servers.{socket_calls}

-- A wakeup of the listening socket with a connection from the client.
abbrev connects : Wakeup
connects = record {
  fd = pos 3;
  epollerr = false;
  epollhup = false;
  epollin = true;
  ctl_error = pos 0;
  ctl = pos 0;
  accepting = record { tmp_fd = pos 7; ip = txt "1.2.3.4"; port = pos 5000; ssl_accepted = pos 0 };
  unset = zero_fd_data;
  recv = recv_failed 0 other;
  read = got [];
  writes = [];
}

-- The client's request on its connection.
abbrev asks : Wakeup
asks = record connects { fd = pos 7; read = got the_request; writes = wrote 100 ∷ [] }

-- The gateway cannot be reached.
abbrev away : Network
away ip port = record {
  connected = minus_one;
  ssl_connected = minus_one;
  writes = [];
  read = got [];
}

abbrev round : Round Application
round = record {
  config =
      register_application toy_env away 961
        (record { service = none; server_cert = []; server_key = [] });
  wakeups = connects ∷ asks ∷ [];
}

abbrev started : ErpcServer Application
started = sdp_application (pos 99) (socket_calls (pos 3))

abbrev after_request : ErpcServer Application
after_request = record started {
  epoll_dispatcher = record started.epoll_dispatcher {
    s = record new_application_config {
      visist_freq_map = (txt "1.2.3.4", record { times = 1; min = pos 960 }) ∷ [];
      last_visit_time_map = (txt "1.2.3.4", 961) ∷ [];
    };
    closed = pos 7 ∷ [];
    sent = (pos 7, the_page) ∷ [];
  };
}

survived : server_run toy_env (round ∷ []) started ≡ done (waiting after_request)
unfolding server_run dispatch dispatch_event on_error on_readable on_client fd_data_at find erase
    get_service_obj register_application sdp_application handle_rpc_accept dispatcher_add assign
    dispatcher_del handle_application_request application_service app_func_https handle_write
    frequency_judgment time_limit_judgement rd_buf_size
survived = refl

server_notices_every_excess_example :
    counted (find (txt "1.2.3.4") after_request.epoll_dispatcher.s.visist_freq_map)
    ≤ 3 + closing (txt "1.2.3.4") after_request.epoll_dispatcher.s.notices
unfolding register_application
server_notices_every_excess_example =
    server_notices_every_excess toy_env (pos 99) (socket_calls (pos 3)) (round ∷ []) after_request
      (txt "1.2.3.4") ((away, 961, refl), tt) survived
