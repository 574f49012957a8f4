-- ===== src/Dispatcher/Registered.antt =====
-- The table of descriptors: what every entry is like, in every round.
use sdpgateway_verification.Prelude.{
  ◌≡◌, ◌⊎◌, inl, inr, refl, sym, subst, ◌++◌, All, int_ltb, true, false, ◌||◌, ◌&&◌, [], ◌∷◌, arith,
  if◌then◌else◌, ℤ, is_neg, int_eq, Bytes, Outcome, done, Outcome-cases, Option-cases, Bool-cases,
}
use sdpgateway_verification.Map.{Map, int_key, find, contains, assign, erase}
use sdpgateway_verification.Env.{Env}
use sdpgateway_verification.Erpc.{
  Service, handle_rpc_request, handle_application_request, handle_udp_request,
}
use sdpgateway_verification.Dispatcher.{
  EpollDispatcher, FdData, Wakeup, fd_data_at, handle_rpc_accept, dispatcher_add, dispatcher_del,
  on_error, on_client, on_datagram, on_readable, dispatch_event, id_application,
}

-- Every entry stands under its own descriptor, and has a connection unless it is one of the two
-- sockets of the server.
abbrev pub IsServed : ℤ → ℤ → ℤ × FdData → Type 0
IsServed listen_fd udp_fd (fd, fd_data) =
    (fd_data.fd ≡ fd) × ((fd ≡ listen_fd) ⊎ (fd ≡ udp_fd) ⊎ (fd_data.connector ≡ true))

abbrev pub IsServing : ℤ → ℤ → Map ℤ FdData → Type 0
IsServing listen_fd udp_fd m = All (IsServed listen_fd udp_fd) m

erase-All : (P : ℤ × FdData → Type 0) (fd : ℤ) (m : Map ℤ FdData) → All P m → All P (erase fd m)
unfolding erase
erase-All P fd [] h = tt
erase-All P fd ((j, w) ∷ m) h = elim (Bool-cases (int_eq fd j)) [
  | inl same ↦ rw same (erase-All P fd m h.1)
  | inr other ↦ rw other (h.0, erase-All P fd m h.1)
]

assign-All :
    (P : ℤ × FdData → Type 0) (fd : ℤ) (v : FdData) (m : Map ℤ FdData)
    → P (fd, v)
    → All P m
    → All P (assign fd v m)
unfolding assign
assign-All P fd v [] p h = (p, tt)
assign-All P fd v ((j, w) ∷ m) p h = elim (Bool-cases (int_eq fd j)) [
  | inl same ↦ rw same (p, h.1)
  | inr other ↦ elim (Bool-cases (int_ltb fd j)) [
    | inl less ↦ rw (other, less) (p, h)
    | inr more ↦ rw (other, more) (h.0, assign-All P fd v m p h.1)
  ]
]

module _ {S : Type 0} (l u : ℤ) where
  del-IsServing :
      (ctl : ℤ) (fd_data : FdData) (d : EpollDispatcher S)
      → IsServing l u d.fdmap
      → IsServing l u (dispatcher_del ctl fd_data d).1.fdmap
  unfolding dispatcher_del
  del-IsServing ctl fd_data d h = elim (Bool-cases (is_neg ctl)) [
    | inl bad ↦ rw bad h
    | inr good ↦ rw good (erase-All (IsServed l u) fd_data.fd d.fdmap h)
  ]

  accepted-IsServing :
      (w : Wakeup) (d : EpollDispatcher S)
      → is_neg w.accepting.tmp_fd ≡ false
      → IsServing l u d.fdmap
      → IsServing l u (dispatcher_add w.ctl (handle_rpc_accept w.accepting w.unset).1 d).1.fdmap
  unfolding dispatcher_add handle_rpc_accept
  accepted-IsServing w d ok h = elim (Bool-cases (is_neg w.ctl)) [
    | inl bad ↦ rw bad h
    | inr good ↦
        let new = (handle_rpc_accept w.accepting w.unset).1 in
        rw good (assign-All (IsServed l u) new.fd new d.fdmap (refl, inr (inr (ground arith))) h)
  ]

  -- operator[] on a key that is there changes nothing.
  there_is : (fd : ℤ) (d : EpollDispatcher S) → contains fd d.fdmap ≡ true → (fd_data_at fd d).1 ≡ d
  unfolding fd_data_at
  there_is fd d h = elim (Option-cases (find fd d.fdmap)) [
    | inl e ↦ ground (arith, e)
    | inr (x, e) ↦ ground (arith, e)
  ]

  moved : (x r : EpollDispatcher S) → x ≡ r → IsServing l u x.fdmap → IsServing l u r.fdmap
  moved x r e h = subst (λ y. IsServing l u y.fdmap) e h

  client-IsServing :
      {K : Type 0} (env : Env K) (service : Service S) (w : Wakeup) (d : EpollDispatcher S)
      {r : EpollDispatcher S}
      → contains w.fd d.fdmap ≡ true
      → IsServing l u d.fdmap
      → on_client env service w d ≡ done r
      → IsServing l u r.fdmap
  unfolding on_client
  client-IsServing env service w d {r} known h e =
      let (fd_data, d') = fd_data_at w.fd d in
      let same : d' ≡ d = there_is w.fd d known in
      let call : Outcome (ℤ × Bytes × S) =
        if int_eq d'.id id_application
        then handle_application_request env service fd_data.connector fd_data.socket_info w.read
            w.writes d'.s
        else handle_rpc_request env service fd_data.connector fd_data.socket_info w.read w.writes
            d'.s in
      elim (Outcome-cases call) [
        | inr (f, bad) ↦ absurd (ground (arith, bad))
        | inl ((ret, sent, s'), good) ↦
            let served : EpollDispatcher S = record d' {
              s = s';
              sent = d'.sent ++ (w.fd, sent) ∷ [];
            } in
            moved (dispatcher_del w.ctl fd_data served).1 r (ground (arith, good))
              (del-IsServing w.ctl fd_data served (moved d d' (sym same) h))
      ]

-- A round for a registered descriptor keeps the table well-formed, whatever the requests, the
-- services and the results of epoll_ctl: if no error comes together with data to read, if accept
-- does not fail, and if the round returns.
pub dispatch_event-IsServing :
    {K S : Type 0} (env : Env K) (service : Service S) (w : Wakeup) (d : EpollDispatcher S)
    (l u : ℤ) {r : EpollDispatcher S}
    → contains w.fd d.fdmap ≡ true
    → ((w.epollerr || w.epollhup) && w.epollin) ≡ false
    → is_neg w.accepting.tmp_fd ≡ false
    → IsServing l u d.fdmap
    → dispatch_event env service w d ≡ done r
    → IsServing l u r.fdmap
unfolding dispatch_event on_error on_readable on_datagram
dispatch_event-IsServing env service w d l u {r} known apart accepted h e =
    elim (Bool-cases w.epollin) [
      | inr silent ↦ elim (Bool-cases (w.epollerr || w.epollhup)) [
        | inr fine ↦ moved l u d r (ground (arith, silent, fine)) h
        | inl error ↦
            let (fd_data, d') = fd_data_at w.fd d in
            moved l u (dispatcher_del w.ctl_error fd_data d').1 r (ground (arith, silent, error)) (
              del-IsServing l u w.ctl_error fd_data d'
                (moved l u d d' (sym (there_is l u w.fd d known)) h))
      ]
      | inl readable ↦
          let fine : (w.epollerr || w.epollhup) ≡ false = ground arith in
          elim (Bool-cases (int_eq w.fd d.udp_fd)) [
            | inl udp ↦ elim (Outcome-cases (handle_udp_request env service w.recv d.s)) [
              | inr (f, bad) ↦ absurd (ground (arith, there_is l u w.fd d known))
              | inl ((ret, s'), good) ↦
                  moved l u (record d { s = s' }) r (ground (arith, there_is l u w.fd d known)) h
            ]
            | inr tcp ↦ elim (Bool-cases (int_eq w.fd d.listen_fd)) [
              | inl listen ↦
                  moved l u (dispatcher_add w.ctl (handle_rpc_accept w.accepting w.unset).1 d).1 r
                    (ground arith) (accepted-IsServing l u w d accepted h)
              | inr client ↦ client-IsServing l u env service w d {r = r} known h (ground arith)
            ]
          ]
    ]
