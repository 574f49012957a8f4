-- ===== src/Server/Controllers.antt =====
-- The controller's server as a whole: modules/controller behind comm/erpc's loop, from the
-- datagrams and requests that come in to the firewall.
use sdpgateway_verification.Prelude.{
  ℕ, ◌≡◌, ◌∙◌, refl, sym, subst, ap, true, Bool, some, List, arith, ℤ, All, All-map, Any, here,
  there, Bytes, done, bind_done, done-injective, inl, inr, ◌⊎◌,
}
use sdpgateway_verification.Map.{Map}
use sdpgateway_verification.CommDef.{tcp_port_controller}
use sdpgateway_verification.Messages.{AppItem}
use sdpgateway_verification.Env.{Env}
use sdpgateway_verification.Io.{RecvResult}
use sdpgateway_verification.Erpc.Services.{controller_service}
use sdpgateway_verification.Erpc.Within.{IsWithin}
use sdpgateway_verification.Iptables.{Shell, is_ip_in_white_list}
use sdpgateway_verification.Iptables.Rules.{occurrences}
use sdpgateway_verification.Iptables.Chain.{chain, lets_in}
use sdpgateway_verification.Controller.{con_func_get_access, sdp_controller}
use sdpgateway_verification.Controller.Config.{Controller, new_controller_config}
use sdpgateway_verification.Controller.Firewall.{
  IsSetUp, IsGuarded, seeds, start-IsGuarded, start-IsSetUp, start_closed, IsGuarded-lets_in,
}
use sdpgateway_verification.Controller.Vouchers.{
  IsVoucherFrom, IsVouched, con_func_udp_recv-IsVouched, register-IsVouched, unchanged-IsVouched,
}
use sdpgateway_verification.Dispatcher.{Wakeup}
use sdpgateway_verification.Dispatcher.Within.{Served, served_none, served_next}
use sdpgateway_verification.Server.{ErpcServer, Round, waiting, server_run, get_service_obj}
use sdpgateway_verification.Server.Loop.{
  ServedRounds, rounds_none, rounds_next, served_between, registered-IsWithin,
}

module _ {K : Type 0} (env : Env K) where
  -- The controller's service is registered.
  abbrev pub IsControllerRound : Round Controller → Type 0
  IsControllerRound round =
      (stamp : ℕ → ℕ × ℕ) × (round.config.service ≡ some (controller_service env stamp))

  module _ (accounts : Map Bytes Bytes) (ip : Bytes) where
    abbrev IsFine : Controller → Type 0
    IsFine c = IsSetUp accounts c × IsGuarded ip c.whitelist

    abbrev Moves : RecvResult → Controller → Controller → Type 0
    Moves recv c c' = IsFine c → IsVouched env accounts ip recv c c'

    unchanged : (recv : RecvResult) {c c' : Controller} → c ≡ c' → Moves recv c c'
    unchanged recv {c} {c'} same (up, v) =
        subst (IsVouched env accounts ip recv c) same
          (unchanged-IsVouched env accounts ip recv c up v)

    service-IsWithin : (stamp : ℕ → ℕ × ℕ) → IsWithin Moves (controller_service env stamp)
    unfolding controller_service
    service-IsWithin stamp = record {
      stays = λ recv s. unchanged recv refl;
      test_udp = λ bytes ip port s r h. unchanged _ cc;
      reverse = λ recv req info s r h. unchanged recv cc;
      con_udp = λ bytes from_ip port s r h (up, v).
          con_func_udp_recv-IsVouched env accounts ip bytes from_ip port s {r = r} h up v;
      get_access = λ recv req info s r h.
          let (q, eq, e) = bind_done (con_func_get_access env stamp info.ip req s) _ h in
          unchanged recv (ap (λ t. t.2) (done-injective e));
      register_app = λ recv req info s r h (up, v).
          subst (IsVouched env accounts ip recv s) (ap (λ t. t.2) (done-injective h))
            (register-IsVouched env accounts ip recv info.ip req s up v);
      gate_udp = λ bytes ip port s r h. unchanged _ cc;
      black_list_op = λ recv req info s r h. unchanged recv cc;
      gate_notice = λ recv req info s r h. unchanged recv cc;
      https = λ recv req info s r h. unchanged recv cc;
    }

    -- What a sequence of wakeups leads to, for the address.
    abbrev Leads : List Wakeup → Controller → Controller → Type 0
    Leads ws c c' =
        IsFine c'
        × (is_ip_in_white_list ip tcp_port_controller c'.whitelist ≡ true
            → (is_ip_in_white_list ip tcp_port_controller c.whitelist ≡ true)
              ⊎ Any (λ (w : Wakeup). IsVoucherFrom env accounts ip w.recv) ws)

    Served-Leads :
        {ws : List Wakeup} {a b : Controller} → Served Moves ws a b → IsFine a → Leads ws a b
    Served-Leads served_none fine = (fine, λ h. inl h)
    Served-Leads (served_next {w} {ws} {a} {b} {c} move rest) fine =
        let vouched = move fine in
        let (fine', listed) = Served-Leads rest (vouched.set_up, vouched.guarded) in
        (
          fine',
          λ h. elim (listed h) [
            | inr later ↦ inr (there later)
            | inl before ↦ elim (vouched.listed before) [
              | inl earlier ↦ inl earlier
              | inr voucher ↦ inr (here voucher)
            ]
          ],
        )

    abbrev LeadsRounds : List (Round Controller) → Controller → Controller → Type 0
    LeadsRounds rounds c c' =
        IsFine c'
        × (is_ip_in_white_list ip tcp_port_controller c'.whitelist ≡ true
            → (is_ip_in_white_list ip tcp_port_controller c.whitelist ≡ true)
              ⊎ Any
                  (λ (round : Round Controller).
                    Any (λ (w : Wakeup). IsVoucherFrom env accounts ip w.recv) round.wakeups)
                  rounds)

    rounds-Leads :
        {rounds : List (Round Controller)} {a b : Controller}
        → ServedRounds (λ round. Moves) rounds a b
        → IsFine a
        → LeadsRounds rounds a b
    rounds-Leads rounds_none fine = (fine, λ h. inl h)
    rounds-Leads (rounds_next {round} {rounds} {a} {b} {c} served rest) fine =
        let (fine', first) = Served-Leads served fine in
        let (fine'', listed) = rounds-Leads rest fine' in
        (
          fine'',
          λ h. elim (listed h) [
            | inr later ↦ inr (there later)
            | inl before ↦ elim (first before) [
              | inl earlier ↦ inl earlier
              | inr voucher ↦ inr (here voucher)
            ]
          ],
        )

    rounds-IsWithin :
        (rounds : List (Round Controller))
        → All IsControllerRound rounds
        → All (λ round. IsWithin Moves (get_service_obj round.config)) rounds
    rounds-IsWithin rounds h =
        All-map _ _
          (λ round (stamp, eq).
            registered-IsWithin Moves round (controller_service env stamp) eq
              (service-IsWithin stamp))
          rounds h

    server-Leads :
        (rounds : List (Round Controller)) (server server' : ErpcServer Controller)
        → All IsControllerRound rounds
        → server_run env rounds server ≡ done (waiting server')
        → IsFine server.epoll_dispatcher.s
        → LeadsRounds rounds server.epoll_dispatcher.s server'.epoll_dispatcher.s
    server-Leads rounds server server' services h fine =
        rounds-Leads
          (served_between env (λ round. Moves) rounds server server'
            (rounds-IsWithin rounds services) h)
          fine

  -- The controller's server, started and with its service registered, and with whatever
  -- applications and permissions: if after some rounds of its loop the firewall lets in TCP packets
  -- to the controller's port from an address other than the gateway's, which the start white-lists,
  -- one of the rounds has received a datagram from this address that carries, behind four bytes, a
  -- voucher whose digest matches and that holds one of the start's accounts with its password.
  pub server_lets_in_only_by_voucher :
      (sh : Shell) (apps : Map Bytes (List AppItem)) (permissions : Map Bytes (Map Bytes ℤ))
      (rounds : List (Round Controller)) (server server' : ErpcServer Controller) (ip : Bytes)
      (policy : Bool)
      → occurrences ip seeds ≡ 0
      → server.epoll_dispatcher.s ≡ record (sdp_controller (new_controller_config sh)) {
        app_map = apps;
        permission_map = permissions;
      }
      → All IsControllerRound rounds
      → server_run env rounds server ≡ done (waiting server')
      → lets_in policy ip tcp_port_controller
          (chain server'.epoll_dispatcher.s.whitelist.iptool.executed)
        ≡ true
      → Any
          (λ (round : Round Controller).
            Any
              (λ (w : Wakeup).
                IsVoucherFrom env (new_controller_config sh).user_account_map ip w.recv)
              round.wakeups)
          rounds
  server_lets_in_only_by_voucher sh apps permissions rounds server server' ip policy unseeded
        started services h passes =
      let accounts = (new_controller_config sh).user_account_map in
      let up = start-IsSetUp sh in
      let fine : IsFine accounts ip server.epoll_dispatcher.s =
        subst (IsFine accounts ip) (sym started)
          (record { port = up.port; known = up.known }, start-IsGuarded sh ip unseeded) in
      let ((_, v), listed) = server-Leads accounts ip rounds server server' services h fine in
      elim (listed
        (sym (IsGuarded-lets_in ip policy server'.epoll_dispatcher.s.whitelist v) ∙ passes)) [
          | inr voucher ↦ voucher
          | inl old ↦ absurd (
              ground (
                arith,
                old,
                ap (λ c. is_ip_in_white_list ip tcp_port_controller c.whitelist) started,
                start_closed sh ip unseeded,
              ))
        ]
