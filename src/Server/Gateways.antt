-- ===== src/Server/Gateways.antt =====
-- The gateway's server as a whole: modules/gateway behind comm/erpc's loop, from the datagrams and
-- requests that come in to the firewall.
use sdpgateway_verification.Prelude.{
  ℕ, ◌≡◌, refl, sym, subst, true, Bool, some, List, [], ◌∷◌, ◌++◌, ℤ, All, Any, Any-map, here,
  there, All-append, All-map, All-middle, Bytes, drop, done, inl, inr, ◌⊎◌,
}
use sdpgateway_verification.CommDef.{tcp_port_application}
use sdpgateway_verification.Env.{Env}
use sdpgateway_verification.Io.{RecvResult, datagram}
use sdpgateway_verification.Erpc.Services.{gateway_service}
use sdpgateway_verification.Erpc.Within.{IsWithin}
use sdpgateway_verification.Iptables.{Shell}
use sdpgateway_verification.Iptables.Rules.{occurrences}
use sdpgateway_verification.Iptables.Chain.{chain, lets_in}
use sdpgateway_verification.Gateway.{
  gate_func_black_list_op, gate_func_notice, Gateway, Event, knock, black_list, notice, handle, run,
}
use sdpgateway_verification.Gateway.Firewall.{seeds}
use sdpgateway_verification.Gateway.Perimeter.{IsTicketFor}
use sdpgateway_verification.Gateway.Refines.{let_in_only_by_knock}
use sdpgateway_verification.Gateway.Replay.{run_append}
use sdpgateway_verification.Dispatcher.{Wakeup}
use sdpgateway_verification.Dispatcher.Within.{Served, served_none, served_next}
use sdpgateway_verification.Server.{ErpcServer, Round, waiting, server_run, get_service_obj}
use sdpgateway_verification.Dispatcher.Sockets.{SocketCalls}
use sdpgateway_verification.Server.Starts.{gateway_server, gateway_server_state}
use sdpgateway_verification.Server.Loop.{
  ServedRounds, rounds_none, rounds_next, served_between, registered-IsWithin,
}

module _ {K : Type 0} (env : Env K) where
  -- The gateway's service is registered, and finds the time `now` in this round.
  abbrev pub IsGatewayRound : ℕ → Round Gateway → Type 0
  IsGatewayRound now round =
      (junk : ℤ) × (round.config.service ≡ some (gateway_service env now junk))

  -- The datagram that a knock is made of: four bytes for the command, and the packet.
  abbrev pub Brings : ℕ → Bytes → Bytes → Round Gateway → RecvResult → Type 0
  Brings now msg ip round recv =
      IsGatewayRound now round
      × ((bytes : Bytes) × (port : ℤ) × (recv ≡ datagram bytes ip port) × (msg ≡ drop 4 bytes))

  -- A knock was brought by the result of recvfrom; requests of the other kinds come over TCP.
  abbrev Carried : Round Gateway → RecvResult → Event → Type 0
  Carried round recv (knock now msg ip) = Brings now msg ip round recv
  Carried round recv (black_list req) = Unit {0}
  Carried round recv (notice junk from_ip req) = Unit {0}

  -- One event of the gateway, or none.
  abbrev Moves : Round Gateway → RecvResult → Gateway → Gateway → Type 0
  Moves round recv g g' =
      (g' ≡ g)
      ⊎ ((e : Event) × (r : ℤ × Gateway) × (handle env e g ≡ done r)
          × (r.1 ≡ g')
          × Carried round recv e)

  service-IsWithin :
      (round : Round Gateway) (now : ℕ) (junk : ℤ)
      → IsGatewayRound now round
      → IsWithin (Moves round) (gateway_service env now junk)
  unfolding gateway_service handle
  service-IsWithin round now junk is = record {
    stays = λ recv s. inl refl;
    test_udp = λ bytes ip port s r h. inl cc;
    reverse = λ recv req info s r h. inl cc;
    con_udp = λ bytes ip port s r h. inl cc;
    get_access = λ recv req info s r h. inl cc;
    register_app = λ recv req info s r h. inl cc;
    gate_udp = λ bytes ip port s r h.
        inr (knock now (drop 4 bytes) ip, r, h, refl, (is, (bytes, port, refl, refl)));
    black_list_op =
        λ recv req info s r h. inr (black_list req, gate_func_black_list_op req s, refl, cc, tt);
    gate_notice = λ recv req info s r h.
        inr (notice junk info.ip req, gate_func_notice junk info.ip req s, refl, cc, tt);
    https = λ recv req info s r h. inl cc;
  }

  rounds-IsWithin :
      (rounds : List (Round Gateway))
      → All (λ round. (now : ℕ) × IsGatewayRound now round) rounds
      → All (λ round. IsWithin (Moves round) (get_service_obj round.config)) rounds
  rounds-IsWithin rounds h =
      All-map _ _
        (λ round (now, (junk, eq)).
          registered-IsWithin (Moves round) round (gateway_service env now junk) eq
            (service-IsWithin round now junk (junk, eq)))
        rounds h

  -- Every knock of a history was brought in one of the rounds.
  abbrev IsBrought : List (Round Gateway) → Event → Type 0
  IsBrought rounds (knock now msg ip) =
      Any
        (λ (round : Round Gateway).
          Any (λ (w : Wakeup). Brings now msg ip round w.recv) round.wakeups)
        rounds
  IsBrought rounds (black_list req) = Unit {0}
  IsBrought rounds (notice junk from_ip req) = Unit {0}

  abbrev History : List (Round Gateway) → Gateway → Gateway → Type 0
  History rounds g g' = (es : List Event) × (run env es g ≡ done g') × All (IsBrought rounds) es

  Served-History :
      (round : Round Gateway) (rounds : List (Round Gateway)) {ws : List Wakeup} {a b : Gateway}
      → Served (Moves round) ws a b
      → ((recv : RecvResult) (e : Event)
          → Any (λ (w : Wakeup). w.recv ≡ recv) ws
          → Carried round recv e
          → IsBrought rounds e)
      → History rounds a b
  unfolding run
  Served-History round rounds served_none into = ([], refl, tt)
  Served-History round rounds (served_next {w} {ws} {a} {b} {c} move rest) into =
      let (es, history, brought) =
        Served-History round rounds rest (λ recv e m k. into recv e (there m) k) in
      elim move [
        | inl same ↦ (es, subst (λ x. run env es x ≡ done c) same history, brought)
        | inr (e, r, eq, same, carried) ↦ (
          e ∷ es,
          rw eq (subst (λ x. run env es x ≡ done c) (sym same) history),
          (into w.recv e (here refl) carried, brought),
        )
      ]

  Carried-IsBrought :
      (round : Round Gateway) (rounds : List (Round Gateway)) (recv : RecvResult) (e : Event)
      → Any (λ (w : Wakeup). w.recv ≡ recv) round.wakeups
      → Carried round recv e
      → IsBrought (round ∷ rounds) e
  Carried-IsBrought round rounds recv (knock now msg ip) m h =
      here (Any-map _ _ (λ w same. subst (Brings now msg ip round) (sym same) h) m)
  Carried-IsBrought round rounds recv (black_list req) m h = tt
  Carried-IsBrought round rounds recv (notice junk from_ip req) m h = tt

  later-IsBrought :
      (round : Round Gateway) (rounds : List (Round Gateway)) (e : Event)
      → IsBrought rounds e
      → IsBrought (round ∷ rounds) e
  later-IsBrought round rounds (knock now msg ip) h = there h
  later-IsBrought round rounds (black_list req) h = tt
  later-IsBrought round rounds (notice junk from_ip req) h = tt

  rounds-History :
      {rounds : List (Round Gateway)} {a b : Gateway}
      → ServedRounds Moves rounds a b
      → History rounds a b
  unfolding run
  rounds-History rounds_none = ([], refl, tt)
  rounds-History (rounds_next {round} {rounds} {a} {b} {c} served rest) =
      let (es, history, brought) =
        Served-History round (round ∷ rounds) served (Carried-IsBrought round rounds) in
      let (fs, later, brought') = rounds-History rest in
      (
        es ++ fs,
        run_append env es fs a {g' = b} history later,
        All-append _ es fs brought (All-map _ _ (later-IsBrought round rounds) fs brought'),
      )

-- A wakeup whose datagram is a knock from the address with a ticket for it, at the round's time.
pub record IsKnockFrom {K : Type 0} (env : Env K) (ip : Bytes) (round : Round Gateway) (w : Wakeup)
    : Type 0 where
  pub now : ℕ
  pub bytes : Bytes
  pub port : ℤ
  pub at_time : IsGatewayRound env now round
  pub received : w.recv ≡ datagram bytes ip port
  pub ticketed : IsTicketFor env ip now (drop 4 bytes)

module _ {K : Type 0} (env : Env K) where
  brought_ticket :
      (ip msg : Bytes) (now : ℕ) (rounds : List (Round Gateway))
      → IsTicketFor env ip now msg
      → Any
          (λ (round : Round Gateway).
            Any (λ (w : Wakeup). Brings env now msg ip round w.recv) round.wakeups)
          rounds
      → Any (λ (round : Round Gateway). Any (IsKnockFrom env ip round) round.wakeups) rounds
  brought_ticket ip msg now rounds t h =
      Any-map _ _
        (λ round. Any-map _ _ λ w (is, (bytes, port, got_it, cut)). record {
          now = now;
          bytes = bytes;
          port = port;
          at_time = is;
          received = got_it;
          ticketed = subst (IsTicketFor env ip now) cut t;
        })
        h

  server-History :
      (rounds : List (Round Gateway)) (server server' : ErpcServer Gateway)
      → All (λ round. (now : ℕ) × IsGatewayRound env now round) rounds
      → server_run env rounds server ≡ done (waiting server')
      → History env rounds server.epoll_dispatcher.s server'.epoll_dispatcher.s
  server-History rounds server server' services h =
      rounds-History env (
        served_between env (Moves env) rounds server server' (rounds-IsWithin env rounds services)
          h)

  -- The gateway's server, from its start and with its service registered, whatever the calls that
  -- make its sockets return: if after some rounds of its loop the firewall lets in TCP packets to
  -- the application port from an address other than the two that the start white-lists, one of the
  -- rounds has received a datagram from this address that carries, behind four bytes, a genuine
  -- ticket that names the address and had not expired in that round.
  pub server_lets_in_only_by_knock :
      (unset : ℤ) (tcp udp : SocketCalls) (sh : Shell) (rounds : List (Round Gateway))
      (server : ErpcServer Gateway) (ip : Bytes) (policy : Bool)
      → occurrences ip seeds ≡ 0
      → All (λ round. (now : ℕ) × IsGatewayRound env now round) rounds
      → server_run env rounds (gateway_server unset tcp udp sh) ≡ done (waiting server)
      → lets_in policy ip tcp_port_application
          (chain server.epoll_dispatcher.s.whitelist.iptool.executed)
        ≡ true
      → Any (λ (round : Round Gateway). Any (IsKnockFrom env ip round) round.wakeups) rounds
  server_lets_in_only_by_knock unset tcp udp sh rounds server ip policy unseeded services h passes =
      let (es, history, brought) =
        server-History rounds (gateway_server unset tcp udp sh) server services h in
      let l =
        let_in_only_by_knock env sh es ip {g = server.epoll_dispatcher.s} unseeded
          (subst (λ g. run env es g ≡ done server.epoll_dispatcher.s)
            (gateway_server_state unset tcp udp sh) history)
          policy passes in
      brought_ticket ip l.msg l.now rounds l.ticketed (
        All-middle (IsBrought env rounds) l.before (knock l.now l.msg ip) l.later
          (subst (All (IsBrought env rounds)) l.parts brought))
