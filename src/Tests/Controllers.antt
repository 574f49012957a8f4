-- ===== src/Tests/Controllers.antt =====
-- The controller with the stand-in keys.
use sdpgateway_verification.Prelude.{
  length-append, ap, sym, Outcome, length, ◌+◌, ℕ, ◌≤◌, ◌≡◌, ◌≢◌, ◌⊎◌, arith, ◌&&◌, ◌||◌, some,
  if◌then◌else◌, [], ◌∷◌, ℤ, pos, Bytes, txt, bytes_eq, bytes_ltb, to_string, done, All,
}
use mathlib.Core.List.{map}
use sdpgateway_verification.Map.{bytes_key, find}
use sdpgateway_verification.Messages.{
  Voucher, VoucherPacket, TicketPacket, AccessItem, AppItem, Account, GetAccessReq,
}
use sdpgateway_verification.CommDef.{
  rsa_pub_key_controller, rsa_pri_key_controller, rsa_pub_key_gateway, rsa_pri_key_gateway,
}
use sdpgateway_verification.Spa.{
  Answer, success, encrypt_ticket, decrypt_ticket, encrypt_voucher, decrypt_voucher,
}
use sdpgateway_verification.Spa.RoundTrip.{
  decrypt_ticket-encrypt_ticket, decrypt_voucher-encrypt_voucher,
}
use sdpgateway_verification.Controller.Config.{Controller, new_controller_config}
use sdpgateway_verification.Controller.{
  con_func_udp_recv, con_func_get_access, con_func_register_app, new_ticket,
}
use sdpgateway_verification.Controller.Admission.{
  IsAdmissible, admitted, revoked, con_func_udp_recv_cases,
}
use sdpgateway_verification.Controller.Access.{
  HasTicket, app_of, allowed_apps, con_func_get_access_lem,
}
use sdpgateway_verification.Controller.Register.{
  allowed, is_user, is_destination, con_func_register_app_lem,
}
use sdpgateway_verification.Controller.Lockout.{knock, run, at_most_256_pass}
use sdpgateway_verification.Rsa.{rsa_encrypt, rsa_sign, md5_encrypt}
use sdpgateway_verification.Tests.ToyCodec.{
  put, put_items, toy_ticket, toy_ticket-RoundTrips, toy_voucher, toy_voucher-RoundTrips,
  toy_voucher_packet, toy_voucher_packet-RoundTrips,
}
use sdpgateway_verification.Tests.ToyEnv.{
  toy_sign, toy_md5, toy_encrypt, toy_ssl, toy_env, toy_ssl-IsPair, toy_ssl-IsSigningPair,
  toy_ssl-Md5Works, toy_ssl-Holds, toy_ssl-Holds_private,
}

abbrev pub client_ip : Bytes
client_ip = txt "1.2.3.4"

abbrev pub gate_ip : Bytes
gate_ip = txt "5.6.7.8"

abbrev pub https : AppItem
https = record {
  gate_udp_port = pos 6001;
  app_tcp_port = pos 6004;
  appname = txt "HTTPS";
  description = txt "HTTP over TLS";
}

abbrev pub xiaoming : Account
xiaoming = record { acc = txt "xiaoming"; pwd = txt "123456" }

-- A controller with one application, which one account may access.
abbrev pub controller : Controller
controller =
    record (new_controller_config (record { executed = []; status = λ before cmd. pos 0 })) {
      tcp_port = pos 6002;
      app_map = (gate_ip, https ∷ []) ∷ [];
      permission_map = (txt "xiaoming", (txt "5.6.7.8:6004", pos 1) ∷ []) ∷ [];
    }

abbrev pub stamp : ℕ → ℕ × ℕ
stamp i = (1000, 7)

-- A packet of the ticket that the controller makes at the time 1000.
pub made :
    (packet : TicketPacket) × (encrypt_ticket toy_ssl toy_ticket
        (new_ticket client_ip (1000, 7))
        rsa_pri_key_controller
        rsa_pub_key_gateway
      ≡ done (success packet))
    × (decrypt_ticket toy_ssl toy_ticket packet rsa_pub_key_controller rsa_pri_key_gateway
        ≡ done (success (new_ticket client_ip (1000, 7))))
made =
    decrypt_ticket-encrypt_ticket toy_ssl toy_ssl-Md5Works 0 0 toy_ssl-IsPair rsa_pub_key_gateway
      rsa_pri_key_gateway (toy_ssl-Holds rsa_pub_key_gateway)
      (toy_ssl-Holds_private rsa_pri_key_gateway) 0 0 toy_ssl-IsSigningPair rsa_pub_key_controller
      rsa_pri_key_controller (toy_ssl-Holds rsa_pub_key_controller)
      (toy_ssl-Holds_private rsa_pri_key_controller) toy_ticket (new_ticket client_ip (1000, 7))
      toy_ticket-RoundTrips

abbrev measured : Outcome (Answer TicketPacket) → ℕ
measured (done (success p)) = length p.enc_data + length p.md5_data + length p.sign_data
measured _ = 0

-- The packet's three fields have 64, 1 and 64 bytes.
made_size : length made.0.enc_data + length made.0.md5_data + length made.0.sign_data ≡ 129
unfolding encrypt_ticket toy_sign toy_md5 toy_encrypt rsa_encrypt rsa_sign md5_encrypt new_ticket
    made
made_size = ap measured (sym made.1)

abbrev pub granted : AccessItem
granted = record { ip = gate_ip; app = https; ticket_packet = made.0 }

-- The list with this entry alone is short.
pub granted_size :
    length (toy_env.get_access_rsp.serialize (record { access_list = granted ∷ [] })) ≤ 300
unfolding put_items
granted_size =
    let p = granted.ticket_packet in
    omega (
      arith,
      made_size,
      length-append p.enc_data (put p.md5_data (put p.sign_data [])),
      length-append p.md5_data (put p.sign_data []),
      length-append p.sign_data [],
    )

abbrev pub request : GetAccessReq
request = record { account = xiaoming }

pub listed :
    con_func_get_access toy_env stamp client_ip request controller ≡ done (pos 0, granted ∷ [])
unfolding con_func_get_access bytes_eq to_string
listed = ground (arith, made.1)

con_func_get_access_lem_example :
    (map app_of (granted ∷ []) ≡ allowed_apps (txt "xiaoming") controller controller.app_map)
    × All (HasTicket toy_env stamp client_ip (txt "xiaoming") controller) (granted ∷ [])
con_func_get_access_lem_example =
    con_func_get_access_lem toy_env stamp client_ip request controller {rsp = granted ∷ []} listed

con_func_register_app_lem_example :
    let r = con_func_register_app client_ip (record { app_list = https ∷ [] }) controller in
    (r.0 ≡ pos 0)
    × (find gate_ip r.1.app_map ≡ (
        if bytes_eq gate_ip client_ip then some (https ∷ []) else find gate_ip controller.app_map))
    × (allowed (txt "xiaobai") (txt "1.2.3.4:6004") r.1 ≡ (
        is_user (txt "xiaobai") && is_destination (txt "1.2.3.4:6004") client_ip (https ∷ [])
        || allowed (txt "xiaobai") (txt "1.2.3.4:6004") controller))
con_func_register_app_lem_example =
    con_func_register_app_lem client_ip https [] controller (txt "xiaobai") (txt "1.2.3.4:6004")
      gate_ip

-- A voucher of the account, and the packet that the client sends.
abbrev pub voucher : Voucher
voucher = record {
  account = xiaoming;
  mac = [];
  address = txt "ChengDu";
  timestamp = 1000;
  random = 7;
}

pub sent :
    (packet : VoucherPacket) × (encrypt_voucher toy_ssl toy_voucher voucher rsa_pub_key_controller
      ≡ done (success packet))
    × (decrypt_voucher toy_ssl toy_voucher packet rsa_pri_key_controller ≡ done (success voucher))
sent =
    decrypt_voucher-encrypt_voucher toy_ssl toy_ssl-Md5Works 0 0 toy_ssl-IsPair
      rsa_pub_key_controller rsa_pri_key_controller (toy_ssl-Holds rsa_pub_key_controller)
      (toy_ssl-Holds_private rsa_pri_key_controller) toy_voucher voucher toy_voucher-RoundTrips

abbrev pub msg : Bytes
msg = toy_voucher_packet.serialize sent.0

pub back : toy_voucher_packet.parse msg ≡ sent.0
back = toy_voucher_packet-RoundTrips.parse-serialize sent.0

abbrev let_in : Controller
let_in = admitted (toy_voucher_packet.parse msg).md5_data client_ip controller

knocks : con_func_udp_recv toy_env msg client_ip controller ≡ done (pos 0, let_in)
unfolding con_func_udp_recv new_controller_config bytes_eq bytes_ltb
knocks = ground (arith, back, sent.2)

con_func_udp_recv_cases_example :
    ((v : Voucher) × IsAdmissible toy_env msg controller v
      × ◌≡◌ {A = ℤ × Controller} (pos 0, let_in) (pos 0, let_in))
    ⊎ ((pos 0 ≢ pos 0) × ((let_in ≡ controller) ⊎ (let_in ≡ revoked client_ip controller)))
con_func_udp_recv_cases_example =
    con_func_udp_recv_cases toy_env msg client_ip controller {r = (pos 0, let_in)} knocks

one_knock : run toy_env (knock msg client_ip ∷ []) controller ≡ done (1, let_in)
unfolding run
one_knock = ground (arith, knocks)

at_most_256_pass_example : 1 ≤ 256
at_most_256_pass_example =
    at_most_256_pass toy_env toy_ssl-Md5Works (knock msg client_ip ∷ []) controller {n = 1}
      {c' = let_in} one_knock
