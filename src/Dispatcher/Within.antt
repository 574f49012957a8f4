-- ===== src/Dispatcher/Within.antt =====
-- What Dispatch of comm/erpc/epoll_dispatcher.cpp may do to the state of a service, round by round.
use sdpgateway_verification.Prelude.{
  if◌then◌else◌, ◌≡◌, refl, sym, subst, ap, ◌∙◌, ◌||◌, List, [], ◌∷◌, ◌++◌, arith, ℤ, pos, int_eq,
  done, bind_done, if_cases, Option-cases, Bool-cases, inl, inr, done-injective,
}
use sdpgateway_verification.Map.{int_key, find}
use sdpgateway_verification.Env.{Env}
use sdpgateway_verification.Io.{RecvResult}
use sdpgateway_verification.Erpc.{
  Service, handle_rpc_request, handle_application_request, handle_udp_request,
}
use sdpgateway_verification.Erpc.Within.{IsWithin}
use sdpgateway_verification.Erpc.Within.Handlers.{
  handle_rpc_request-Within, handle_application_request-Within, handle_udp_request-Within,
}
use sdpgateway_verification.Dispatcher.{
  EpollDispatcher, FdData, Wakeup, fd_data_at, dispatcher_del, dispatcher_add, handle_rpc_accept,
  on_error, on_client, on_datagram, on_readable, dispatch_event, dispatch, id_application,
}

-- A state reached by one wakeup after the other.
pub data Served {S : Type 0} (R : RecvResult → S → S → Type 0) : List Wakeup → S → S → Type 0 where
  served_none : {s : S} → Served R [] s s
  served_next :
      {w : Wakeup} {ws : List Wakeup} {a b c : S}
      → R w.recv a b
      → Served R ws b c
      → Served R (w ∷ ws) a c

module _ {S : Type 0} where
  -- The table of descriptors is apart from the service's state.
  fd_data_at_keeps : (fd : ℤ) (d : EpollDispatcher S) → (fd_data_at fd d).1.s ≡ d.s
  unfolding fd_data_at
  fd_data_at_keeps fd d = elim (Option-cases (find fd d.fdmap)) [
    | inl e ↦ ground (arith, e)
    | inr (x, e) ↦ ground (arith, e)
  ]

  dispatcher_del_keeps :
      (ctl : ℤ) (fd_data : FdData) (d : EpollDispatcher S)
      → (dispatcher_del ctl fd_data d).1.s ≡ d.s
  unfolding dispatcher_del
  dispatcher_del_keeps ctl fd_data d = ground arith

  dispatcher_add_keeps :
      (ctl : ℤ) (fd_data : FdData) (d : EpollDispatcher S)
      → (dispatcher_add ctl fd_data d).1.s ≡ d.s
  unfolding dispatcher_add
  dispatcher_add_keeps ctl fd_data d = ground arith

  on_error_keeps : (w : Wakeup) (d : EpollDispatcher S) → (on_error w d).s ≡ d.s
  unfolding on_error
  on_error_keeps w d = elim (Bool-cases (w.epollerr || w.epollhup)) [
    | inl e ↦ rw e (
        dispatcher_del_keeps w.ctl_error (fd_data_at w.fd d).0 (fd_data_at w.fd d).1
        ∙ fd_data_at_keeps w.fd d)
    | inr e ↦ rw e refl
  ]

module _ {K S : Type 0} (env : Env K) (service : Service S) (R : RecvResult → S → S → Type 0)
    (laws : IsWithin R service) (w : Wakeup) where
  on_client-Within :
      (d : EpollDispatcher S) {d' : EpollDispatcher S}
      → on_client env service w d ≡ done d'
      → R w.recv d.s d'.s
  unfolding on_client
  on_client-Within d {d'} h =
      let (fd_data, d1) = fd_data_at w.fd d in
      let (q, eq, e) =
        bind_done
          (if int_eq d1.id id_application
            then handle_application_request env service fd_data.connector fd_data.socket_info w.read
                w.writes d1.s
            else handle_rpc_request env service fd_data.connector fd_data.socket_info w.read
                w.writes d1.s)
          _ h in
      let kept : d'.s ≡ q.2 =
        ap (λ x. x.s) (sym (done-injective e))
        ∙ dispatcher_del_keeps w.ctl fd_data
            (record d1 { s = q.2; sent = d1.sent ++ (w.fd, q.1) ∷ [] }) in
      let within : R w.recv d1.s q.2 = elim (if_cases (int_eq d1.id id_application) _ _ eq) [
        | inl e1 ↦
            handle_application_request-Within env service R laws w.recv fd_data.connector
              fd_data.socket_info w.read w.writes d1.s {r = q} e1
        | inr e2 ↦
            handle_rpc_request-Within env service R laws w.recv fd_data.connector
              fd_data.socket_info w.read w.writes d1.s {r = q} e2
      ] in
      subst (λ t. R w.recv t d'.s) (fd_data_at_keeps w.fd d)
        (subst (λ t. R w.recv d1.s t) (sym kept) within)

  on_datagram-Within :
      (d : EpollDispatcher S) {d' : EpollDispatcher S}
      → on_datagram env service w d ≡ done d'
      → R w.recv d.s d'.s
  unfolding on_datagram
  on_datagram-Within d {d'} h =
      let (q, eq, e) = bind_done (handle_udp_request env service w.recv d.s) _ h in
      subst (λ (t : EpollDispatcher S). R w.recv d.s t.s) (done-injective e)
        (handle_udp_request-Within env service R laws w.recv d.s {r = q} eq)

  on_readable-Within :
      (d : EpollDispatcher S) {d' : EpollDispatcher S}
      → on_readable env service w d ≡ done d'
      → R w.recv d.s d'.s
  unfolding on_readable
  on_readable-Within d {d'} h = elim (if_cases (int_eq w.fd d.udp_fd) _ _ h) [
    | inl e ↦
        subst (λ t. R w.recv t d'.s) (fd_data_at_keeps w.fd d)
          (on_datagram-Within (fd_data_at w.fd d).1 e)
    | inr h2 ↦ elim (if_cases (int_eq w.fd d.listen_fd) _ _ h2) [
      | inl e ↦
          subst (λ t. R w.recv d.s t)
            (sym (dispatcher_add_keeps w.ctl (handle_rpc_accept w.accepting w.unset).1 d)
              ∙ ap (λ x. x.s) (done-injective e))
            (laws.stays w.recv d.s)
      | inr e ↦ on_client-Within d e
    ]
  ]

  pub dispatch_event-Within :
      (d : EpollDispatcher S) {d' : EpollDispatcher S}
      → dispatch_event env service w d ≡ done d'
      → R w.recv d.s d'.s
  unfolding dispatch_event
  dispatch_event-Within d {d'} h =
      subst (λ t. R w.recv t d'.s) (on_error_keeps w d)
        (elim (if_cases w.epollin _ _ h) [
          | inl e ↦ on_readable-Within (on_error w d) e
          | inr e ↦
              subst (λ (t : EpollDispatcher S). R w.recv (on_error w d).s t.s) (done-injective e)
                (laws.stays w.recv (on_error w d).s)
        ])

module _ {K S : Type 0} (env : Env K) (service : Service S) (R : RecvResult → S → S → Type 0)
    (laws : IsWithin R service) where
  -- Dispatch returns 0 and has moved the state by each of its events in turn.
  pub dispatch-Served :
      (ws : List Wakeup) (d : EpollDispatcher S) {r : ℤ × EpollDispatcher S}
      → dispatch env service ws d ≡ done r
      → (r.0 ≡ pos 0) × Served R ws d.s r.1.s
  unfolding dispatch
  dispatch-Served [] d {r} h =
      subst (λ (q : ℤ × EpollDispatcher S). (q.0 ≡ pos 0) × Served R [] d.s q.1.s)
        (done-injective h) (refl, served_none)
  dispatch-Served (w ∷ ws) d {r} h =
      let (d1, eq, e) = bind_done (dispatch_event env service w d) _ h in
      let (ret, rest) = dispatch-Served ws d1 {r = r} e in
      (ret, served_next (dispatch_event-Within env service R laws w d eq) rest)

pub Served-append :
    {S : Type 0} (R : RecvResult → S → S → Type 0) {ws vs : List Wakeup} {a b c : S}
    → Served R ws a b
    → Served R vs b c
    → Served R (ws ++ vs) a c
Served-append R served_none t = t
Served-append R (served_next x s) t = served_next x (Served-append R s t)
