-- ===== src/Dispatcher/Sockets.antt =====
-- The sockets that a server listens on: _MakeListenFd, _MakeUdpFd and the constructors of
-- comm/erpc/epoll_dispatcher.cpp.
use sdpgateway_verification.Prelude.{[], ℤ, pos, minus_one, Bool, if◌then◌else◌}
use sdpgateway_verification.Tlog.{i_assert}
use sdpgateway_verification.Map.{int_key}
use sdpgateway_verification.Dispatcher.{
  EpollDispatcher, FdData, zero_fd_data, epollin_et, dispatcher_add,
}

-- The results of the system calls that make a socket; a UDP socket has no `setsockopt` and
-- `listen`.
pub record SocketCalls : Type 0 where
  pub socket : ℤ
  pub setsockopt : ℤ
  pub bind : ℤ
  pub listen : ℤ
  pub ctl : ℤ

-- DispatcherInit, given the results of `epoll_create1` and `calloc`; a constructor only logs its
-- result.
unfoldable pub dispatcher_init : ℤ → Bool → ℤ
dispatcher_init epollfd events = i_assert epollfd minus_one (if events then pos 0 else minus_one)

abbrev pub socket_data : ℤ → FdData
socket_data fd = record zero_fd_data { fd = fd; event_type = epollin_et }

module _ {S : Type 0} where
  -- _MakeListenFd: the result and the dispatcher, whose `listen_fd_` is set in every case.
  unfoldable pub make_listen_fd : SocketCalls → EpollDispatcher S → ℤ × EpollDispatcher S
  unfolding dispatcher_add
  make_listen_fd calls d =
      let d' = record d { listen_fd = calls.socket } in
      let (ret, d'') = dispatcher_add calls.ctl (socket_data calls.socket) d' in
      i_assert calls.socket (minus_one, d')
        (i_assert calls.setsockopt (minus_one, d')
          (i_assert calls.bind (minus_one, d')
            (i_assert calls.listen (minus_one, d') (i_assert ret (minus_one, d'') (pos 0, d'')))))

  -- _MakeUdpFd
  unfoldable pub make_udp_fd : SocketCalls → EpollDispatcher S → ℤ × EpollDispatcher S
  unfolding dispatcher_add
  make_udp_fd calls d =
      let d' = record d { udp_fd = calls.socket } in
      let (ret, d'') = dispatcher_add calls.ctl (socket_data calls.socket) d' in
      i_assert calls.socket (minus_one, d')
        (i_assert calls.bind (minus_one, d') (i_assert ret (minus_one, d'') (pos 0, d'')))

  -- The destructor, which frees the events, closes the epoll descriptor and forgets the table; the
  -- descriptors in it stay open.
  unfoldable pub dispatcher_destroy : EpollDispatcher S → EpollDispatcher S
  dispatcher_destroy d = record d { fdmap = [] }

  -- The two constructors, over a state. The members hold `unset` before they are assigned; the
  -- application's constructor never assigns `udp_fd_`.
  unfoldable pub rpc_dispatcher : ℤ → ℤ → SocketCalls → SocketCalls → S → EpollDispatcher S
  unfolding make_listen_fd make_udp_fd
  rpc_dispatcher unset id tcp udp s =
      let d : EpollDispatcher S = record {
        listen_fd = unset;
        udp_fd = unset;
        id = id;
        fdmap = [];
        s = s;
        closed = [];
        sent = [];
      } in
      (make_udp_fd udp (make_listen_fd tcp d).1).1

  unfoldable pub application_dispatcher : ℤ → ℤ → SocketCalls → S → EpollDispatcher S
  unfolding make_listen_fd
  application_dispatcher unset id tcp s =
      (make_listen_fd tcp (record {
        listen_fd = unset;
        udp_fd = unset;
        id = id;
        fdmap = [];
        s = s;
        closed = [];
        sent = [];
      })).1
