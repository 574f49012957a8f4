-- ===== src/Dispatcher/Fatal.antt =====
-- Datagrams that end the process of a server: UDPRecv and HandleUDPRequest of
-- comm/erpc/erpc_handler.cpp, behind Dispatch of comm/erpc/epoll_dispatcher.cpp.
use sdpgateway_verification.Prelude.{
  ◌≡◌, refl, sym, subst, ap, ◌∙◌, Bool, true, ◌&&◌, ◌||◌, List, [], ◌∷◌, ◌++◌, arith, ltb, ℤ,
  int_eq, length, done, fault, Fault, out_of_range, length_error, Outcome-cases, bind_done,
  if_cases, Option-cases, Bool-cases, inl, inr, done-injective, if◌then◌else◌, Any, here, there,
}
use sdpgateway_verification.Map.{int_key, find}
use sdpgateway_verification.Env.{Env}
use sdpgateway_verification.Io.{RecvResult, datagram, recv_failed, udp_recv-datagram}
use sdpgateway_verification.Erpc.{
  Service, handle_rpc_request, handle_application_request, handle_udp_request,
}
use sdpgateway_verification.Dispatcher.{
  EpollDispatcher, FdData, Wakeup, fd_data_at, dispatcher_del, dispatcher_add, handle_rpc_accept,
  on_error, on_client, on_datagram, on_readable, dispatch_event, dispatch, id_application,
}

-- A datagram that is shorter than its command, or no datagram at all.
abbrev pub is_fatal : RecvResult → Bool
is_fatal (datagram bytes ip port) = ltb (length bytes) 4
is_fatal (recv_failed k errno) = true

-- The UDP socket is readable, and recvfrom gives such a result.
abbrev pub brings_fatal : ℤ → Wakeup → Bool
brings_fatal udp_fd w = w.epollin && (int_eq w.fd udp_fd && is_fatal w.recv)

module _ {S : Type 0} where
  -- The descriptor of the UDP socket stays.
  fd_data_at_keeps : (fd : ℤ) (d : EpollDispatcher S) → (fd_data_at fd d).1.udp_fd ≡ d.udp_fd
  unfolding fd_data_at
  fd_data_at_keeps fd d = elim (Option-cases (find fd d.fdmap)) [
    | inl e ↦ ground (arith, e)
    | inr (x, e) ↦ ground (arith, e)
  ]

  dispatcher_del_keeps :
      (ctl : ℤ) (fd_data : FdData) (d : EpollDispatcher S)
      → (dispatcher_del ctl fd_data d).1.udp_fd ≡ d.udp_fd
  unfolding dispatcher_del
  dispatcher_del_keeps ctl fd_data d = ground arith

  dispatcher_add_keeps :
      (ctl : ℤ) (fd_data : FdData) (d : EpollDispatcher S)
      → (dispatcher_add ctl fd_data d).1.udp_fd ≡ d.udp_fd
  unfolding dispatcher_add
  dispatcher_add_keeps ctl fd_data d = ground arith

  on_error_keeps : (w : Wakeup) (d : EpollDispatcher S) → (on_error w d).udp_fd ≡ d.udp_fd
  unfolding on_error
  on_error_keeps w d = elim (Bool-cases (w.epollerr || w.epollhup)) [
    | inl e ↦ rw e (
        dispatcher_del_keeps w.ctl_error (fd_data_at w.fd d).0 (fd_data_at w.fd d).1
        ∙ fd_data_at_keeps w.fd d)
    | inr e ↦ rw e refl
  ]

module _ {K S : Type 0} (env : Env K) (service : Service S) where
  on_client_keeps :
      (w : Wakeup) (d : EpollDispatcher S) {d' : EpollDispatcher S}
      → on_client env service w d ≡ done d'
      → d'.udp_fd ≡ d.udp_fd
  unfolding on_client
  on_client_keeps w d {d'} h =
      let (fd_data, d1) = fd_data_at w.fd d in
      let (q, eq, e) =
        bind_done
          (if int_eq d1.id id_application
            then handle_application_request env service fd_data.connector fd_data.socket_info w.read
                w.writes d1.s
            else handle_rpc_request env service fd_data.connector fd_data.socket_info w.read
                w.writes d1.s)
          _ h in
      ap (λ x. x.udp_fd) (sym (done-injective e))
      ∙ dispatcher_del_keeps w.ctl fd_data
          (record d1 { s = q.2; sent = d1.sent ++ (w.fd, q.1) ∷ [] })
      ∙ fd_data_at_keeps w.fd d

  on_datagram_keeps :
      (w : Wakeup) (d : EpollDispatcher S) {d' : EpollDispatcher S}
      → on_datagram env service w d ≡ done d'
      → d'.udp_fd ≡ d.udp_fd
  unfolding on_datagram
  on_datagram_keeps w d {d'} h =
      let (q, eq, e) = bind_done (handle_udp_request env service w.recv d.s) _ h in
      ap (λ x. x.udp_fd) (sym (done-injective e))

  on_readable_keeps :
      (w : Wakeup) (d : EpollDispatcher S) {d' : EpollDispatcher S}
      → on_readable env service w d ≡ done d'
      → d'.udp_fd ≡ d.udp_fd
  unfolding on_readable
  on_readable_keeps w d {d'} h = elim (if_cases (int_eq w.fd d.udp_fd) _ _ h) [
    | inl e ↦ on_datagram_keeps w (fd_data_at w.fd d).1 e ∙ fd_data_at_keeps w.fd d
    | inr h2 ↦ elim (if_cases (int_eq w.fd d.listen_fd) _ _ h2) [
      | inl e ↦
          ap (λ x. x.udp_fd) (sym (done-injective e))
          ∙ dispatcher_add_keeps w.ctl (handle_rpc_accept w.accepting w.unset).1 d
      | inr e ↦ on_client_keeps w d e
    ]
  ]

  dispatch_event_keeps :
      (w : Wakeup) (d : EpollDispatcher S) {d' : EpollDispatcher S}
      → dispatch_event env service w d ≡ done d'
      → d'.udp_fd ≡ d.udp_fd
  unfolding dispatch_event
  dispatch_event_keeps w d {d'} h = elim (if_cases w.epollin _ _ h) [
    | inl e ↦ on_readable_keeps w (on_error w d) e ∙ on_error_keeps w d
    | inr e ↦ ap (λ x. x.udp_fd) (sym (done-injective e)) ∙ on_error_keeps w d
  ]

  -- Dispatch keeps the descriptor.
  pub dispatch_keeps :
      (ws : List Wakeup) (d : EpollDispatcher S) {r : ℤ × EpollDispatcher S}
      → dispatch env service ws d ≡ done r
      → r.1.udp_fd ≡ d.udp_fd
  unfolding dispatch
  dispatch_keeps [] d {r} h = ap (λ x. x.1.udp_fd) (sym (done-injective h))
  dispatch_keeps (w ∷ ws) d {r} h =
      let (d1, eq, e) = bind_done (dispatch_event env service w d) _ h in
      dispatch_keeps ws d1 {r = r} e ∙ dispatch_event_keeps w d eq

  -- The handler of datagrams.
  handle_udp_request_faults :
      (recv : RecvResult) (s : S)
      → is_fatal recv ≡ true
      → (f : Fault) × (handle_udp_request env service recv s ≡ fault f)
  unfolding handle_udp_request
  handle_udp_request_faults (datagram bytes ip port) s h =
      (out_of_range, ground (arith, udp_recv-datagram bytes ip port))
  handle_udp_request_faults (recv_failed k errno) s h = (length_error, refl)

  dispatch_event_faults :
      (w : Wakeup) (d : EpollDispatcher S)
      → brings_fatal d.udp_fd w ≡ true
      → (f : Fault) × (dispatch_event env service w d ≡ fault f)
  unfolding dispatch_event on_readable on_datagram
  dispatch_event_faults w d h =
      let d1 = on_error w d in
      let (f, e) = handle_udp_request_faults w.recv (fd_data_at w.fd d1).1.s (ground arith) in
      (f, ground (arith, e, on_error_keeps w d))

  -- Dispatch, when one of its wakeups brings such a datagram.
  pub dispatch_faults :
      (ws : List Wakeup) (d : EpollDispatcher S)
      → Any (λ w. brings_fatal d.udp_fd w ≡ true) ws
      → (f : Fault) × (dispatch env service ws d ≡ fault f)
  unfolding dispatch
  dispatch_faults [] d h = elim h [ ]
  dispatch_faults (w ∷ ws) d (here h) = let (f, e) = dispatch_event_faults w d h in (f, rw e refl)
  dispatch_faults (w ∷ ws) d (there h) = elim (Outcome-cases (dispatch_event env service w d)) [
    | inr (f, bad) ↦ (f, rw bad refl)
    | inl (d1, good) ↦
        let (f, e) = dispatch_faults ws d1 (
          subst (λ fd. Any (λ w. brings_fatal fd w ≡ true) ws) (sym (dispatch_event_keeps w d good))
            h) in
        (f, rw good e)
  ]
