-- ===== src/Gateway.antt =====
-- modules/gateway: the gateway's configuration object, its services and its start. The state is the
-- singleton SDPAppGatewayConfig; `now` is the result of time(NULL).
pub mod Access
pub mod Admission
pub mod Crash
pub mod Firewall
pub mod Guarded
pub mod Perimeter
pub mod Refines
pub mod Replay
use sdpgateway_verification.Prelude.{
  ℕ, ◌+◌, ◌%◌, ◌^◌, ◌≡◌, Bool, true, false, not, Option, none, some, List, [], ◌∷◌, ltb,
  if◌then◌else◌, ℤ, pos, minus_one, int_eq, Bytes, bytes_eq, txt, Outcome, done, fault, ◌>>=◌,
}
use sdpgateway_verification.Tlog.{i_assert}
use sdpgateway_verification.Map.{Map, bytes_key, find, contains, insert, erase}
use sdpgateway_verification.CommDef.{
  ip_appgateway_in, ip_controller_pb, ip_application_pb, tcp_port_appgateway, udp_port_appgateway,
  tcp_port_application, rsa_pub_key_controller, rsa_pri_key_gateway,
}
use sdpgateway_verification.Messages.{
  Ticket, TicketPacket, AppItem, RegisterAppReq, BlackListOpReq, NoticeReq,
}
use sdpgateway_verification.Env.{Env}
use sdpgateway_verification.Spa.{Answer, failed, success, decrypt_ticket}
use sdpgateway_verification.Iptables.{
  WhiteList, Shell, op_white_list, init_white_list, new_white_list, ip_white_list_add,
  ip_white_list_del, ip_black_list_add, ip_black_list_del,
}

-- SDPAppGatewayConfig
pub record Gateway : Type 0 where
  pub whitelist : WhiteList
  pub listen_ip : Bytes
  pub tcp_port : ℤ
  pub udp_port : ℤ
  pub app_tcp_port : ℤ
  pub md5_map : Map Bytes ℤ
  pub controller_black_list : Map Bytes ℤ

unfoldable pub set_listen_info : Bytes → ℤ → ℤ → ℤ → Gateway → Gateway
set_listen_info ip tcp_port udp_port app_tcp_port g = record g {
  listen_ip = ip;
  tcp_port = tcp_port;
  udp_port = udp_port;
  app_tcp_port = app_tcp_port;
}

unfoldable pub query_and_insert_md5 : Bytes → Gateway → ℤ × Gateway
unfolding find insert
query_and_insert_md5 md5 g =
    if contains md5 g.md5_map
    then (minus_one, g)
    else (pos 0, record g { md5_map = insert md5 (pos 1) g.md5_map })

unfoldable pub controller_black_list_op : ℤ → Bytes → ℤ → Gateway → ℤ × Gateway
unfolding insert erase
controller_black_list_op op ip port g =
    if int_eq op ip_black_list_add
    then (pos 0, record g { controller_black_list = insert ip port g.controller_black_list })
    else if int_eq op ip_black_list_del
    then (pos 0, record g { controller_black_list = erase ip g.controller_black_list })
    else (pos 0, g)

abbrev is_port : ℤ → Option ℤ → Bool
is_port port none = false
is_port port (some p) = int_eq p port

unfoldable pub controller_black_list_is_in : Bytes → ℤ → Gateway → Bool
unfolding find
controller_black_list_is_in ip port g = is_port port (find ip g.controller_black_list)

-- timestamp + valid_seconds is a sum of two uint32.
unfoldable pub is_expired : Ticket → ℕ → Bool
is_expired t now = ltb ((t.timestamp + t.valid_seconds) % 2 ^ 32) now

-- GateFuncUdpRecv behind the check of the ticket packet.
unfoldable pub admit_ticket : ℕ → Bytes → TicketPacket → Ticket → Gateway → ℤ × Gateway
unfolding query_and_insert_md5 is_expired op_white_list
admit_ticket now from_ip packet ticket g =
    if not (bytes_eq ticket.ip from_ip)
    then (pos 1, g)
    else if is_expired ticket now
    then (pos 1, g)
    else let (ret, g') = query_and_insert_md5 packet.sign_data g in
      if not (int_eq ret (pos 0)) then (pos 1, g') else (
        pos 0,
        record g' {
          whitelist = (op_white_list ip_white_list_add from_ip g'.app_tcp_port g'.whitelist).1;
        },
      )

-- What follows DecryptTicket in GateFuncUdpRecv.
unfoldable pub admit_answer : ℕ → Bytes → TicketPacket → Gateway → Answer Ticket → ℤ × Gateway
unfolding admit_ticket
admit_answer now from_ip packet g (failed ret) =
    i_assert ret (minus_one, g)
      (admit_ticket now from_ip packet
        (record { ip = []; timestamp = 0; random = 0; valid_seconds = 0 }) g)
admit_answer now from_ip packet g (success ticket) = admit_ticket now from_ip packet ticket g

module _ {K : Type 0} (env : Env K) where
  -- GateFuncUdpRecv
  unfoldable pub gate_func_udp_recv : ℕ → Bytes → Bytes → Gateway → Outcome (ℤ × Gateway)
  unfolding controller_black_list_is_in admit_answer
  gate_func_udp_recv now msg from_ip g =
      if controller_black_list_is_in from_ip g.app_tcp_port g then done (pos 1, g) else do
        let packet = env.ticket_packet.parse msg
        answer ← decrypt_ticket env.ssl env.ticket packet rsa_pub_key_controller rsa_pri_key_gateway
        done (admit_answer now from_ip packet g answer)

-- GateFuncBlackListOp
unfoldable pub gate_func_black_list_op : BlackListOpReq → Gateway → ℤ × Gateway
unfolding controller_black_list_op op_white_list
gate_func_black_list_op req g =
    let g' = (controller_black_list_op req.op req.ip g.app_tcp_port g).1 in
    if int_eq req.op ip_black_list_add
    then (let (ret, w) = op_white_list ip_white_list_del req.ip g.app_tcp_port g'.whitelist in
        i_assert ret (minus_one, record g' { whitelist = w }) (pos 0, record g' { whitelist = w }))
    else (pos 0, g')

-- NoticeOp
abbrev pub app_notice_close_port_for_ip : ℤ
app_notice_close_port_for_ip = pos 1

-- GateFuncNotice. Its last branch has no return statement: `junk` is what the caller reads there.
unfoldable pub gate_func_notice : ℤ → Bytes → NoticeReq → Gateway → ℤ × Gateway
unfolding op_white_list
gate_func_notice junk from_ip req g =
    if not (bytes_eq from_ip ip_application_pb)
    then (pos 1, g)
    else if int_eq req.op app_notice_close_port_for_ip
    then (let (ret, w) = op_white_list ip_white_list_del req.op_ip g.app_tcp_port g.whitelist in
        i_assert ret (minus_one, record g { whitelist = w }) (junk, record g { whitelist = w }))
    else (junk, g)

-- SDPAppGatewayConfig()
unfoldable pub new_gateway_config : Shell → Gateway
unfolding new_white_list
new_gateway_config sh = record {
  whitelist = new_white_list sh;
  listen_ip = [];
  tcp_port = pos 0;
  udp_port = pos 0;
  app_tcp_port = pos 0;
  md5_map = [];
  controller_black_list = [];
}

-- SDPAppGateway() up to the registration of its service: the results of InitWhiteList are dropped.
unfoldable pub sdp_app_gateway : Gateway → Gateway
unfolding set_listen_info init_white_list
sdp_app_gateway g =
    let g' =
      set_listen_info ip_appgateway_in tcp_port_appgateway udp_port_appgateway tcp_port_application
        g in
    let w =
      (init_white_list (ip_controller_pb ∷ ip_application_pb ∷ []) g'.tcp_port g'.whitelist).1 in
    record g' { whitelist = (init_white_list [] g'.app_tcp_port w).1 }

-- The request by which SDPAppGateway() registers its application with the controller.
unfoldable pub register_app_request : RegisterAppReq
register_app_request = record {
  app_list =
      record {
        gate_udp_port = udp_port_appgateway;
        app_tcp_port = tcp_port_application;
        appname = txt "HTTPS";
        description = txt "HTTP over TLS";
      }
      ∷ [];
}

-- The calls that change a gateway, and a run of them; a call that ends the process ends the run.
pub data Event : Type 0 where
  knock : ℕ → Bytes → Bytes → Event
  black_list : BlackListOpReq → Event
  notice : ℤ → Bytes → NoticeReq → Event

module _ {K : Type 0} (env : Env K) where
  unfoldable pub handle : Event → Gateway → Outcome (ℤ × Gateway)
  unfolding gate_func_udp_recv gate_func_black_list_op gate_func_notice
  handle (knock now msg from_ip) g = gate_func_udp_recv env now msg from_ip g
  handle (black_list req) g = done (gate_func_black_list_op req g)
  handle (notice junk from_ip req) g = done (gate_func_notice junk from_ip req g)

  unfoldable pub run : List Event → Gateway → Outcome Gateway
  unfolding handle
  run [] g = done g
  run (e ∷ es) g = handle e g >>= λ r. run es r.1
