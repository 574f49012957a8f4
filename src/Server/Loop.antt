-- ===== src/Server/Loop.antt =====
-- The endless loop of ErpcServer::Run, of comm/erpc/erpc_server.cpp.
use sdpgateway_verification.Prelude.{
  ◌≡◌, sym, subst, some, List, [], ◌∷◌, All, done, bind_done, done-injective,
}
use sdpgateway_verification.Env.{Env}
use sdpgateway_verification.Io.{RecvResult}
use sdpgateway_verification.Erpc.{Service}
use sdpgateway_verification.Erpc.Within.{IsWithin}
use sdpgateway_verification.Dispatcher.{dispatch}
use sdpgateway_verification.Dispatcher.Within.{Served, dispatch-Served}
use sdpgateway_verification.Server.{
  ErpcServer, Round, Running, waiting, server_run, get_service_obj,
}

-- A state reached by one round after the other, each within what its service may do.
pub data ServedRounds {S : Type 0} (R : Round S → RecvResult → S → S → Type 0)
    : List (Round S) → S → S → Type 0 where
  rounds_none : {s : S} → ServedRounds R [] s s
  rounds_next :
      {round : Round S} {rounds : List (Round S)} {a b c : S}
      → Served (R round) round.wakeups a b
      → ServedRounds R rounds b c
      → ServedRounds R (round ∷ rounds) a c

module _ {K S : Type 0} (env : Env K) (R : Round S → RecvResult → S → S → Type 0) where
  -- Run is back in epoll_wait.
  abbrev pub StillWaits : List (Round S) → S → Running S → Type 0
  StillWaits rounds s running =
      (server : ErpcServer S) × (running ≡ waiting server)
      × ServedRounds R rounds s server.epoll_dispatcher.s

  pub server_run-Served :
      (rounds : List (Round S)) (server : ErpcServer S) {running : Running S}
      → All (λ round. IsWithin (R round) (get_service_obj round.config)) rounds
      → server_run env rounds server ≡ done running
      → StillWaits rounds server.epoll_dispatcher.s running
  unfolding server_run
  server_run-Served [] server {running} laws h = (server, sym (done-injective h), rounds_none)
  server_run-Served (round ∷ rounds) server {running} laws h =
      let ((ret, d), eq, e) =
        bind_done
          (dispatch env (get_service_obj round.config) round.wakeups server.epoll_dispatcher) _ h in
      let (zero_ret, served) =
        dispatch-Served env (get_service_obj round.config) (R round) laws.0 round.wakeups
          server.epoll_dispatcher {r = (ret, d)} eq in
      let (server', same, rest) =
        server_run-Served rounds (record server { epoll_dispatcher = d }) {running = running} laws.1
          (rw zero_ret at e) in
      (server', same, rounds_next served rest)

-- The rounds between two states of a server that is still waiting.
pub served_between :
    {K S : Type 0} (env : Env K) (R : Round S → RecvResult → S → S → Type 0)
    (rounds : List (Round S)) (server server' : ErpcServer S)
    → All (λ round. IsWithin (R round) (get_service_obj round.config)) rounds
    → server_run env rounds server ≡ done (waiting server')
    → ServedRounds R rounds server.epoll_dispatcher.s server'.epoll_dispatcher.s
served_between {K} {S} env R rounds server server' laws h =
    let (last, waits, served) =
      server_run-Served env R rounds server {running = waiting server'} laws h in
    let same : last ≡ server' = cc in
    subst
      (λ (x : ErpcServer S). ServedRounds R rounds server.epoll_dispatcher.s x.epoll_dispatcher.s)
      same served

-- The laws of a registered service are those of the object that Dispatch gets.
pub registered-IsWithin :
    {S : Type 0} (R : RecvResult → S → S → Type 0) (round : Round S) (service : Service S)
    → round.config.service ≡ some service
    → IsWithin R service
    → IsWithin R (get_service_obj round.config)
unfolding get_service_obj
registered-IsWithin R round service eq laws =
    subst (λ o. IsWithin R (get_service_obj (record round.config { service = o }))) (sym eq) laws

-- Any service moves its state within the relation that holds of any two states.
pub any-IsWithin : {S : Type 0} (service : Service S) → IsWithin (λ recv s s'. Unit {0}) service
any-IsWithin service = record {
  stays = λ recv s. tt;
  test_udp = λ bytes ip port s r h. tt;
  reverse = λ recv req info s r h. tt;
  con_udp = λ bytes ip port s r h. tt;
  get_access = λ recv req info s r h. tt;
  register_app = λ recv req info s r h. tt;
  gate_udp = λ bytes ip port s r h. tt;
  black_list_op = λ recv req info s r h. tt;
  gate_notice = λ recv req info s r h. tt;
  https = λ recv req info s r h. tt;
}
