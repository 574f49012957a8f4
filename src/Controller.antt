-- ===== src/Controller.antt =====
-- modules/controller: the controller's configuration object, its services and its start. The state
-- is the singleton SDPControllerConfig. `stamp i` is what time(NULL) and GET_RANDOM give for the
-- ticket that is put at place `i` of a response.
pub mod Config
pub mod Admission
pub mod Firewall
pub mod Lockout
pub mod Vouchers
pub mod Access
pub mod Register
pub mod Registered
use sdpgateway_verification.Prelude.{
  ℕ, ◌+◌, ◌%◌, ◌^◌, ◌≡◌, Bool, true, false, not, Option, none, some, List, [], ◌∷◌, ◌++◌,
  if◌then◌else◌, ℤ, pos, minus_one, int_eq, Bytes, bytes_eq, txt, to_string, length, Outcome, done,
  fault, ◌>>=◌,
}
use sdpgateway_verification.Tlog.{i_assert}
use sdpgateway_verification.CommDef.{
  ip_controller_in, ip_appgateway_pb, tcp_port_controller, udp_port_controller,
  rsa_pri_key_controller, rsa_pub_key_gateway,
}
use sdpgateway_verification.Messages.{
  Account, Voucher, VoucherPacket, Ticket, TicketPacket, AppItem, AccessItem, GetAccessReq,
  RegisterAppReq,
}
use sdpgateway_verification.Env.{Env}
use sdpgateway_verification.Spa.{Answer, failed, success, decrypt_voucher, encrypt_ticket}
use sdpgateway_verification.Map.{Map}
use sdpgateway_verification.Iptables.{
  Shell, op_white_list, init_white_list, ip_white_list_add, ip_white_list_del,
}
use Config.{
  Controller, query_and_insert_md5, register_app, update_user_permission_add, check_user_passwd,
  check_user_permission_exists, check_user_permission_allowed, set_listen_info,
}

-- HANDLE_VERIFY_FAILD: the address is taken off the white list.
unfoldable pub handle_verify_failed : Bytes → Controller → ℤ × Controller
unfolding op_white_list
handle_verify_failed ip c =
    (pos 1, record c { whitelist = (op_white_list ip_white_list_del ip c.tcp_port c.whitelist).1 })

-- ConFuncUdpRecv behind DecryptVoucher.
unfoldable pub admit_voucher : Bytes → VoucherPacket → Voucher → Controller → ℤ × Controller
unfolding handle_verify_failed check_user_passwd check_user_permission_exists query_and_insert_md5
    op_white_list
admit_voucher from_ip packet voucher c =
    if not (int_eq (check_user_passwd voucher.account.acc voucher.account.pwd c) (pos 0))
    then handle_verify_failed from_ip c
    else if not (int_eq (check_user_permission_exists voucher.account.acc c) (pos 0))
    then handle_verify_failed from_ip c
    else let (repeat, c') = query_and_insert_md5 packet.md5_data c in
      if not (int_eq repeat (pos 0)) then (pos 1, c') else (
        pos 0,
        record c' {
          whitelist = (op_white_list ip_white_list_add from_ip c'.tcp_port c'.whitelist).1;
        },
      )

abbrev empty_voucher : Voucher
empty_voucher = record {
  account = record { acc = []; pwd = [] };
  mac = [];
  address = [];
  timestamp = 0;
  random = 0;
}

unfoldable pub admit_answer : Bytes → VoucherPacket → Controller → Answer Voucher → ℤ × Controller
unfolding admit_voucher
admit_answer from_ip packet c (failed ret) =
    i_assert ret (minus_one, c) (admit_voucher from_ip packet empty_voucher c)
admit_answer from_ip packet c (success voucher) = admit_voucher from_ip packet voucher c

abbrev empty_packet : TicketPacket
empty_packet = record { enc_data = []; md5_data = []; sign_data = [] }

-- The text by which permissions name an application.
unfoldable pub destination : Bytes → AppItem → Bytes
destination ip item = ip ++ b':' ∷ to_string item.app_tcp_port

-- The ticket of ConFuncGetAccess; its timestamp is a uint32.
unfoldable pub new_ticket : Bytes → ℕ × ℕ → Ticket
new_ticket ip (now, random) = record {
  ip = ip;
  timestamp = now % 2 ^ 32;
  random = random;
  valid_seconds = 30;
}

module _ {K : Type 0} (env : Env K) where
  -- ConFuncUdpRecv
  unfoldable pub con_func_udp_recv : Bytes → Bytes → Controller → Outcome (ℤ × Controller)
  unfolding admit_answer
  con_func_udp_recv msg from_ip c = do
    let packet = env.voucher_packet.parse msg
    answer ← decrypt_voucher env.ssl env.voucher packet rsa_pri_key_controller
    done (admit_answer from_ip packet c answer)

  -- What follows EncryptTicket: the new item is in the response before it has its ticket, and stays
  -- there without one if the call failed.
  unfoldable pub with_ticket :
      AccessItem → List AccessItem → Answer TicketPacket → ℤ × List AccessItem
  with_ticket item rsp (failed ret) =
      i_assert ret (minus_one, rsp ++ item ∷ []) (pos 0, rsp ++ item ∷ [])
  with_ticket item rsp (success packet) =
      (pos 0, rsp ++ record item { ticket_packet = packet } ∷ [])

  -- The body of the loop of ConFuncGetAccess, for an item of a gateway.
  unfoldable pub grant_item :
      (ℕ → ℕ × ℕ)
      → Bytes
      → Bytes
      → Controller
      → Bytes
      → AppItem
      → List AccessItem
      → Outcome (ℤ × List AccessItem)
  unfolding with_ticket destination check_user_permission_allowed new_ticket
  grant_item stamp socket_ip acc c gateway_ip item rsp =
      if not (int_eq (check_user_permission_allowed acc (destination gateway_ip item) c) (pos 0))
      then done (pos 0, rsp)
      else do
        answer ←
            encrypt_ticket env.ssl env.ticket (new_ticket socket_ip (stamp (length rsp)))
              rsa_pri_key_controller rsa_pub_key_gateway
        done (
            with_ticket (record { ip = gateway_ip; app = item; ticket_packet = empty_packet }) rsp
              answer)

  unfoldable pub grant_items :
      (ℕ → ℕ × ℕ)
      → Bytes
      → Bytes
      → Controller
      → Bytes
      → List AppItem
      → List AccessItem
      → Outcome (ℤ × List AccessItem)
  unfolding grant_item
  grant_items stamp socket_ip acc c gateway_ip [] rsp = done (pos 0, rsp)
  grant_items stamp socket_ip acc c gateway_ip (item ∷ items) rsp = do
    (ret, rsp') ← grant_item stamp socket_ip acc c gateway_ip item rsp
    let rest = grant_items stamp socket_ip acc c gateway_ip items rsp'
    i_assert ret (done (minus_one, rsp')) rest

  unfoldable pub grant_apps :
      (ℕ → ℕ × ℕ)
      → Bytes
      → Bytes
      → Controller
      → Map Bytes (List AppItem)
      → List AccessItem
      → Outcome (ℤ × List AccessItem)
  unfolding grant_items
  grant_apps stamp socket_ip acc c [] rsp = done (pos 0, rsp)
  grant_apps stamp socket_ip acc c ((gateway_ip, items) ∷ apps) rsp = do
    (ret, rsp') ← grant_items stamp socket_ip acc c gateway_ip items rsp
    let rest = grant_apps stamp socket_ip acc c apps rsp'
    i_assert ret (done (minus_one, rsp')) rest

  -- ConFuncGetAccess, into an empty response; the state does not change.
  unfoldable pub con_func_get_access :
      (ℕ → ℕ × ℕ) → Bytes → GetAccessReq → Controller → Outcome (ℤ × List AccessItem)
  unfolding grant_apps
  con_func_get_access stamp socket_ip req c =
      grant_apps stamp socket_ip req.account.acc c c.app_map []

-- The user authorisation loop of ConFuncRegisterApp, for the address and its items.
unfoldable pub authorise : Bytes → List AppItem → Controller → Controller
unfolding update_user_permission_add destination
authorise ip [] c = c
authorise ip (item ∷ items) c =
    let per = destination ip item in
    let c1 = (update_user_permission_add (txt "xiaoming") per c).1 in
    let c2 = (update_user_permission_add (txt "xiaohong") per c1).1 in
    authorise ip items (update_user_permission_add (txt "xiaobai") per c2).1

-- ConFuncRegisterApp
unfoldable pub con_func_register_app : Bytes → RegisterAppReq → Controller → ℤ × Controller
unfolding authorise register_app
con_func_register_app socket_ip req c = elim req.app_list [
  | [] ↦ (minus_one, c)
  | item ∷ items ↦
      (pos 0, authorise socket_ip (item ∷ items) (register_app socket_ip (item ∷ items) c))
]

-- SDPController(), from the configuration object that has been built.
unfoldable pub sdp_controller : Controller → Controller
unfolding set_listen_info init_white_list
sdp_controller c =
    let c' = set_listen_info ip_controller_in tcp_port_controller udp_port_controller c in
    record c' { whitelist = (init_white_list (ip_appgateway_pb ∷ []) c'.tcp_port c'.whitelist).1 }
