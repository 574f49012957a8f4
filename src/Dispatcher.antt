-- ===== src/Dispatcher.antt =====
-- comm/erpc/epoll_dispatcher: the descriptors that a server waits on, and what it does when epoll
-- wakes it up; and HandleRPCAccept of comm/erpc/erpc_handler.cpp. What the kernel and OpenSSL
-- return in one round is given with the event.
pub mod Clients
pub mod Fatal
pub mod Registered
pub mod Rounds
pub mod Sockets
pub mod Within
use sdpgateway_verification.Prelude.{
  ℕ, Bool, true, false, ◌||◌, Option, none, some, List, [], ◌∷◌, ◌++◌, if◌then◌else◌, ℤ, pos,
  minus_one, is_neg, int_eq, Bytes, Outcome, done, ◌>>=◌,
}
use sdpgateway_verification.Tlog.{i_assert}
use sdpgateway_verification.Map.{Map, int_key, find, assign, erase}
use sdpgateway_verification.Env.{Env}
use sdpgateway_verification.Io.{ReadResult, WriteResult, RecvResult}
use sdpgateway_verification.Erpc.{
  SocketInfo, Service, handle_rpc_request, handle_application_request, handle_udp_request,
}

-- FdDataType; `connector` says whether the shared pointer is not null.
pub record FdData : Type 0 where
  pub fd : ℤ
  pub event_type : ℕ
  pub socket_info : SocketInfo
  pub connector : Bool

-- What operator[] of the map makes for a missing key.
abbrev pub zero_fd_data : FdData
zero_fd_data = record {
  fd = pos 0;
  event_type = 0;
  socket_info = record { ip = []; port = pos 0 };
  connector = false;
}

-- EPOLLIN | EPOLLET
abbrev pub epollin_et : ℕ
epollin_et = 2147483649

-- SERVER_Identification
abbrev pub id_controller : ℤ
id_controller = pos 1

abbrev pub id_gateway : ℤ
id_gateway = pos 2

abbrev pub id_application : ℤ
id_application = pos 3

abbrev pub id_testserver : ℤ
id_testserver = pos 4

-- EpollDispatcher, with the state `s` of the service object, the descriptors that it has closed and
-- what it has written to the others.
pub record EpollDispatcher (S : Type 0) : Type 0 where
  pub listen_fd : ℤ
  pub udp_fd : ℤ
  pub id : ℤ
  pub fdmap : Map ℤ FdData
  pub s : S
  pub closed : List ℤ
  pub sent : List (ℤ × Bytes)

-- accept: the descriptor and the peer, and the result of SSLAccept.
pub record Accepting : Type 0 where
  pub tmp_fd : ℤ
  pub ip : Bytes
  pub port : ℤ
  pub ssl_accepted : ℤ

-- HandleRPCAccept: the result, and `fd_data`, which it leaves alone if accept fails.
unfoldable pub handle_rpc_accept : Accepting → FdData → ℤ × FdData
handle_rpc_accept a fd_data =
    let accepted : FdData = record {
      fd = a.tmp_fd;
      event_type = epollin_et;
      socket_info = record { ip = a.ip; port = a.port };
      connector = true;
    } in
    i_assert a.tmp_fd (minus_one, fd_data)
      (i_assert a.ssl_accepted (minus_one, accepted) (pos 0, accepted))

-- One entry of epoll_wait's result, with what the calls of its round return: epoll_ctl for an error
-- and at the end, accept, recvfrom, the read and the writes. `unset` is what FdDataType holds on
-- the stack before it is assigned.
pub record Wakeup : Type 0 where
  pub fd : ℤ
  pub epollerr : Bool
  pub epollhup : Bool
  pub epollin : Bool
  pub ctl_error : ℤ
  pub ctl : ℤ
  pub accepting : Accepting
  pub unset : FdData
  pub recv : RecvResult
  pub read : ReadResult
  pub writes : List WriteResult

module _ {S : Type 0} where
  -- DispatcherAdd and DispatcherMod, given the result of epoll_ctl.
  unfoldable pub dispatcher_add : ℤ → FdData → EpollDispatcher S → ℤ × EpollDispatcher S
  unfolding assign
  dispatcher_add ctl fd_data d =
      i_assert ctl (minus_one, d) (pos 0, record d { fdmap = assign fd_data.fd fd_data d.fdmap })

  unfoldable pub dispatcher_mod : ℤ → FdData → EpollDispatcher S → ℤ × EpollDispatcher S
  unfolding assign
  dispatcher_mod ctl fd_data d =
      i_assert ctl (minus_one, d) (pos 0, record d { fdmap = assign fd_data.fd fd_data d.fdmap })

  -- DispatcherDel
  unfoldable pub dispatcher_del : ℤ → FdData → EpollDispatcher S → ℤ × EpollDispatcher S
  unfolding erase
  dispatcher_del ctl fd_data d =
      i_assert ctl (minus_one, d)
        (pos 0, record d { fdmap = erase fd_data.fd d.fdmap; closed = fd_data.fd ∷ d.closed })

  -- fdmap[fd]: the value, and the dispatcher, whose map has the key then.
  unfoldable pub fd_data_at : ℤ → EpollDispatcher S → FdData × EpollDispatcher S
  unfolding find assign
  fd_data_at fd d = elim (find fd d.fdmap) [
    | none ↦ (zero_fd_data, record d { fdmap = assign fd zero_fd_data d.fdmap })
    | some fd_data ↦ (fd_data, d)
  ]

  -- The round's first part: an error or a hang-up.
  unfoldable pub on_error : Wakeup → EpollDispatcher S → EpollDispatcher S
  unfolding fd_data_at dispatcher_del
  on_error w d =
      if w.epollerr || w.epollhup
      then (let (fd_data, d') = fd_data_at w.fd d in (dispatcher_del w.ctl_error fd_data d').1)
      else d

  module _ {K : Type 0} (env : Env K) (service : Service S) where
    -- The request of a TCP client; the connection is closed afterwards, whatever the handler
    -- returned.
    unfoldable pub on_client : Wakeup → EpollDispatcher S → Outcome (EpollDispatcher S)
    unfolding fd_data_at dispatcher_del handle_application_request handle_rpc_request
    on_client w d = do
      let (fd_data, d') = fd_data_at w.fd d
      (ret, sent, s') ←
          if int_eq d'.id id_application
          then handle_application_request env service fd_data.connector fd_data.socket_info w.read
              w.writes d'.s
          else handle_rpc_request env service fd_data.connector fd_data.socket_info w.read w.writes
              d'.s
      done
          (dispatcher_del w.ctl fd_data
            (record d' { s = s'; sent = d'.sent ++ (w.fd, sent) ∷ [] })).1

    -- A datagram, with the dispatcher after fdmap[fd]; what is read there is not used.
    unfoldable pub on_datagram : Wakeup → EpollDispatcher S → Outcome (EpollDispatcher S)
    unfolding handle_udp_request
    on_datagram w d = do
      (ret, s') ← handle_udp_request env service w.recv d.s
      done (record d { s = s' })

    -- A readable descriptor.
    unfoldable pub on_readable : Wakeup → EpollDispatcher S → Outcome (EpollDispatcher S)
    unfolding fd_data_at on_datagram handle_rpc_accept dispatcher_add on_client
    on_readable w d =
        if int_eq w.fd d.udp_fd
        then on_datagram w (fd_data_at w.fd d).1
        else if int_eq w.fd d.listen_fd
        then done (dispatcher_add w.ctl (handle_rpc_accept w.accepting w.unset).1 d).1
        else on_client w d

    -- The body of the loop of Dispatch.
    unfoldable pub dispatch_event : Wakeup → EpollDispatcher S → Outcome (EpollDispatcher S)
    unfolding on_error on_readable
    dispatch_event w d = let d' = on_error w d in if w.epollin then on_readable w d' else done d'

    -- Dispatch, for the entries that epoll_wait has returned.
    unfoldable pub dispatch : List Wakeup → EpollDispatcher S → Outcome (ℤ × EpollDispatcher S)
    unfolding dispatch_event
    dispatch [] d = done (pos 0, d)
    dispatch (w ∷ ws) d = do d' ← dispatch_event w d; dispatch ws d'
