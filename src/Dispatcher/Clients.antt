-- ===== src/Dispatcher/Clients.antt =====
-- What a round does for the descriptor of a TCP client.
use sdpgateway_verification.Prelude.{
  ◌≡◌, true, false, ◌||◌, none, some, ◌∷◌, arith, if◌then◌else◌, ℤ, is_neg, int_eq, done,
  Outcome-cases, Bool-cases, inl, inr,
}
use sdpgateway_verification.Map.{int_key, find}
use sdpgateway_verification.Map.Laws.{find-erase}
use sdpgateway_verification.Env.{Env}
use sdpgateway_verification.Erpc.{Service, handle_rpc_request, handle_application_request}
use sdpgateway_verification.Dispatcher.{
  EpollDispatcher, FdData, Wakeup, fd_data_at, dispatcher_del, dispatch_event, on_readable,
  on_error, on_client, id_application,
}

-- The event is for the connection of a client that is registered with `data`.
pub record IsClient {S : Type 0} (w : Wakeup) (d : EpollDispatcher S) (fd_data : FdData)
    : Type 0 where
  pub not_udp : int_eq w.fd d.udp_fd ≡ false
  pub not_listen : int_eq w.fd d.listen_fd ≡ false
  pub registered : find w.fd d.fdmap ≡ some fd_data
  pub keyed : fd_data.fd ≡ w.fd

module _ {K S : Type 0} (env : Env K) (service : Service S) where
  -- A round that serves a client's request closes the connection once and takes it out of the map,
  -- whatever the handler and the writes did, and leaves every other descriptor's entry, if
  -- epoll_ctl does not fail.
  pub client_event_closes :
      (w : Wakeup) (d : EpollDispatcher S) (fd_data : FdData) {d' : EpollDispatcher S} (fd : ℤ)
      → IsClient w d fd_data
      → w.epollin ≡ true
      → (w.epollerr || w.epollhup) ≡ false
      → is_neg w.ctl ≡ false
      → dispatch_event env service w d ≡ done d'
      → (find fd d'.fdmap ≡ (if int_eq fd w.fd then none else find fd d.fdmap))
        × (d'.closed ≡ w.fd ∷ d.closed)
  unfolding dispatch_event on_error on_readable on_client fd_data_at dispatcher_del
  client_event_closes w d fd_data {d'} fd client readable fine ctl h =
      elim (Bool-cases (int_eq d.id id_application)) [
        | inl a ↦
            (elim (Outcome-cases (
              handle_application_request env service fd_data.connector fd_data.socket_info w.read
                w.writes d.s)) [
                  | inl (r, e) ↦ (
                    ground (
                      arith,
                      client.not_udp,
                      client.not_listen,
                      client.registered,
                      client.keyed,
                      find-erase fd w.fd d.fdmap,
                    ),
                    ground
                        (arith, client.not_udp, client.not_listen, client.registered, client.keyed),
                  )
                  | inr (f, e) ↦
                      absurd (ground (arith, client.not_udp, client.not_listen, client.registered))
                ])
        | inr a ↦
            (elim (Outcome-cases (
              handle_rpc_request env service fd_data.connector fd_data.socket_info w.read w.writes
                d.s)) [
                  | inl (r, e) ↦ (
                    ground (
                      arith,
                      client.not_udp,
                      client.not_listen,
                      client.registered,
                      client.keyed,
                      find-erase fd w.fd d.fdmap,
                    ),
                    ground
                        (arith, client.not_udp, client.not_listen, client.registered, client.keyed),
                  )
                  | inr (f, e) ↦
                      absurd (ground (arith, client.not_udp, client.not_listen, client.registered))
                ])
      ]
