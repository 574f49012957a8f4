-- ===== src/Server/Applications.antt =====
-- The application's server as a whole: modules/application behind comm/erpc's loop.
use sdpgateway_verification.Prelude.{
  ℕ, ◌+◌, ◌≤◌, ◌≡◌, sym, subst, some, List, arith, ℤ, All, All-map, Bytes, done,
}
use sdpgateway_verification.Map.{bytes_key, find}
use sdpgateway_verification.Env.{Env}
use sdpgateway_verification.Io.{RecvResult}
use sdpgateway_verification.Erpc.Services.{application_service}
use sdpgateway_verification.Erpc.Within.{IsWithin}
use sdpgateway_verification.Erpc.Client.{Network}
use sdpgateway_verification.Application.{Application, new_application_config}
use sdpgateway_verification.Application.Notices.{
  IsNoticed, counted, closing, app_func_https-IsNoticed,
}
use sdpgateway_verification.Dispatcher.{Wakeup}
use sdpgateway_verification.Dispatcher.Sockets.{SocketCalls}
use sdpgateway_verification.Dispatcher.Within.{Served, served_none, served_next}
use sdpgateway_verification.Server.{ErpcServer, Round, waiting, server_run}
use sdpgateway_verification.Server.Loop.{
  ServedRounds, rounds_none, rounds_next, served_between, registered-IsWithin,
}
use sdpgateway_verification.Server.Starts.{sdp_application, sdp_application_state}

-- The application's service is registered, and finds some network and some time.
abbrev pub IsApplicationRound : {K : Type 0} → Env K → Round Application → Type 0
IsApplicationRound env round =
    (network : Network) × (now : ℕ) × (round.config.service
      ≡ some (application_service env network now))

abbrev AllNoticed : Application → Type 0
AllNoticed a = (ip : Bytes) → IsNoticed ip a

abbrev Moves : RecvResult → Application → Application → Type 0
Moves recv a a' = AllNoticed a → AllNoticed a'

unchanged : (a a' : Application) → a ≡ a' → AllNoticed a → AllNoticed a'
unchanged a a' same = subst AllNoticed same

service-IsWithin :
    {K : Type 0} (env : Env K) (network : Network) (now : ℕ)
    → IsWithin Moves (application_service env network now)
unfolding application_service
service-IsWithin env network now = record {
  stays = λ recv s h. h;
  test_udp = λ bytes ip port s r h. unchanged s r.1 cc;
  reverse = λ recv req info s r h. unchanged s r.2 cc;
  con_udp = λ bytes ip port s r h. unchanged s r.1 cc;
  get_access = λ recv req info s r h. unchanged s r.2 cc;
  register_app = λ recv req info s r h. unchanged s r.2 cc;
  gate_udp = λ bytes ip port s r h. unchanged s r.1 cc;
  black_list_op = λ recv req info s r h. unchanged s r.2 cc;
  gate_notice = λ recv req info s r h. unchanged s r.2 cc;
  https = λ recv req info s r h noticed ip.
      app_func_https-IsNoticed env network now req ip info.ip s {r = r} h (noticed ip)
        (noticed info.ip);
}

Served-Moves :
    {ws : List Wakeup} {a b : Application} → Served Moves ws a b → AllNoticed a → AllNoticed b
Served-Moves served_none h = h
Served-Moves (served_next move rest) h = Served-Moves rest (move h)

rounds-Moves :
    {rounds : List (Round Application)} {a b : Application}
    → ServedRounds (λ round. Moves) rounds a b
    → AllNoticed a
    → AllNoticed b
rounds-Moves rounds_none h = h
rounds-Moves (rounds_next served rest) h = rounds-Moves rest (Served-Moves served h)

starts-IsNoticed : (ip : Bytes) → IsNoticed ip new_application_config
unfolding find
starts-IsNoticed ip = omega arith

-- The application's server, from its start and with its service registered, whatever the calls that
-- make its socket return, at whatever times its requests come and whatever becomes of its
-- connections to the gateway: after every round of its loop, for each address, the visits that it
-- counts for the current minute's limit are at most three more than the calls of
-- GateFuncNoticeRequest that it has made to close the port for the address. Whether such a call
-- reaches the gateway is not said.
pub server_notices_every_excess :
    {K : Type 0} (env : Env K) (unset : ℤ) (tcp : SocketCalls) (rounds : List (Round Application))
    (server : ErpcServer Application) (ip : Bytes)
    → All (IsApplicationRound env) rounds
    → server_run env rounds (sdp_application unset tcp) ≡ done (waiting server)
    → counted (find ip server.epoll_dispatcher.s.visist_freq_map)
      ≤ 3 + closing ip server.epoll_dispatcher.s.notices
server_notices_every_excess env unset tcp rounds server ip services h =
    let served =
      served_between env (λ round. Moves) rounds (sdp_application unset tcp) server
        (All-map _ _
          (λ round (network, now, eq).
            registered-IsWithin Moves round (application_service env network now) eq
              (service-IsWithin env network now))
          rounds services)
        h in
    rounds-Moves served (subst AllNoticed (sym (sdp_application_state unset tcp)) starts-IsNoticed)
      ip
