-- ===== src/Controller/Vouchers.antt =====
-- The calls of modules/controller against what its firewall lets in, for one address.
use sdpgateway_verification.Prelude.{
  ◌≡◌, ◌∙◌, refl, sym, ap, subst, true, some, List, [], ◌∷◌, arith, ℤ, Bytes, bytes_eq,
  bytes_eq_iff, txt, drop, done, Bool-cases, inl, inr, ◌⊎◌,
}
use sdpgateway_verification.Map.{Map, bytes_key, find}
use sdpgateway_verification.CommDef.{tcp_port_controller, rsa_pri_key_controller}
use sdpgateway_verification.Messages.{Voucher, AppItem, RegisterAppReq}
use sdpgateway_verification.Env.{Env}
use sdpgateway_verification.Spa.{success, decrypt_voucher}
use sdpgateway_verification.Io.{RecvResult, datagram}
use sdpgateway_verification.Iptables.{
  WhiteList, is_ip_in_white_list, op_white_list, ip_white_list_add, ip_white_list_del,
}
use sdpgateway_verification.Iptables.Members.{op_white_list_members}
use sdpgateway_verification.Controller.Config.{Controller, register_app, update_user_permission_add}
use sdpgateway_verification.Controller.{
  con_func_udp_recv, con_func_register_app, authorise, destination,
}
use sdpgateway_verification.Controller.Admission.{
  IsAdmissible, admitted, revoked, con_func_udp_recv_cases,
}
use sdpgateway_verification.Controller.Firewall.{IsSetUp, IsGuarded, op_white_list-IsGuarded}

-- A datagram from the address that carries, behind four bytes for the command, the packet of a
-- voucher whose digest matches, with an account and its password.
pub record IsVoucherFrom {K : Type 0} (env : Env K) (accounts : Map Bytes Bytes) (ip : Bytes)
    (recv : RecvResult) : Type 0 where
  pub bytes : Bytes
  pub port : ℤ
  pub received : recv ≡ datagram bytes ip port
  pub voucher : Voucher
  pub genuine :
      decrypt_voucher env.ssl env.voucher
        (env.voucher_packet.parse (drop 4 bytes))
        rsa_pri_key_controller
      ≡ done (success voucher)
  pub account : find voucher.account.acc accounts ≡ some voucher.account.pwd

-- What a registration leaves alone.
add_keeps :
    (account dst : Bytes) (c : Controller) {accounts : Map Bytes Bytes} {w : WhiteList}
    → IsSetUp accounts c × (c.whitelist ≡ w)
    → IsSetUp accounts (update_user_permission_add account dst c).1
      × ((update_user_permission_add account dst c).1.whitelist ≡ w)
unfolding update_user_permission_add
add_keeps account dst c (h, e) =
    (record { port = ground (arith, h.port); known = ground (arith, h.known) }, ground (arith, e))

authorise_keeps :
    (ip : Bytes) (items : List AppItem) (c : Controller) {accounts : Map Bytes Bytes}
    {w : WhiteList}
    → IsSetUp accounts c × (c.whitelist ≡ w)
    → IsSetUp accounts (authorise ip items c) × ((authorise ip items c).whitelist ≡ w)
unfolding authorise
authorise_keeps ip [] c h = h
authorise_keeps ip (item ∷ items) c h =
    let per = destination ip item in
    authorise_keeps ip items _ (
      add_keeps (txt "xiaobai") per _
        (add_keeps (txt "xiaohong") per _ (add_keeps (txt "xiaoming") per c h)))

register_keeps :
    (ip : Bytes) (items : List AppItem) (c : Controller) {accounts : Map Bytes Bytes}
    → IsSetUp accounts c
    → IsSetUp accounts (con_func_register_app ip (record { app_list = items }) c).1
      × ((con_func_register_app ip (record { app_list = items }) c).1.whitelist ≡ c.whitelist)
unfolding con_func_register_app register_app
register_keeps ip [] c h = (h, refl)
register_keeps ip (item ∷ items) c h =
    authorise_keeps ip (item ∷ items) (register_app ip (item ∷ items) c)
      (record { port = h.port; known = h.known }, refl)

-- What one call does for an address: the port and the accounts stay, the rules stay in step with
-- the white list, and the address gets on the list only by a knock of its own with a voucher.
pub record IsVouched {K : Type 0} (env : Env K) (accounts : Map Bytes Bytes) (ip : Bytes)
    (recv : RecvResult) (c c' : Controller) : Type 0 where
  pub set_up : IsSetUp accounts c'
  pub guarded : IsGuarded ip c'.whitelist
  pub listed :
      is_ip_in_white_list ip tcp_port_controller c'.whitelist ≡ true
      → (is_ip_in_white_list ip tcp_port_controller c.whitelist ≡ true)
        ⊎ IsVoucherFrom env accounts ip recv

module _ {K : Type 0} (env : Env K) (accounts : Map Bytes Bytes) (ip : Bytes) where
  -- A controller whose white list is another's.
  same_list :
      (recv : RecvResult) (c c' : Controller)
      → IsSetUp accounts c'
      → c'.whitelist ≡ c.whitelist
      → IsGuarded ip c.whitelist
      → IsVouched env accounts ip recv c c'
  same_list recv c c' up same v = record {
    set_up = up;
    guarded = subst (IsGuarded ip) (sym same) v;
    listed = λ h. inl (ap (is_ip_in_white_list ip tcp_port_controller) (sym same) ∙ h);
  }

  pub register-IsVouched :
      (recv : RecvResult) (from_ip : Bytes) (req : RegisterAppReq) (c : Controller)
      → IsSetUp accounts c
      → IsGuarded ip c.whitelist
      → IsVouched env accounts ip recv c (con_func_register_app from_ip req c).1
  register-IsVouched recv from_ip req c up v =
      let (up', same) = register_keeps from_ip req.app_list c up in
      same_list recv c (con_func_register_app from_ip req c).1 up' same v

  -- OpWhiteList at the controller's port.
  op-IsGuarded :
      (op : ℤ) (from_ip : Bytes) (c : Controller)
      → IsSetUp accounts c
      → IsGuarded ip c.whitelist
      → IsGuarded ip (op_white_list op from_ip c.tcp_port c.whitelist).1
  op-IsGuarded op from_ip c up v =
      subst (λ p. IsGuarded ip (op_white_list op from_ip p c.whitelist).1) (sym up.port)
        (op_white_list-IsGuarded ip from_ip op c.whitelist v)

  op_listed :
      (op : ℤ) (from_ip : Bytes) (c : Controller)
      → IsSetUp accounts c
      → is_ip_in_white_list ip tcp_port_controller
          (op_white_list op from_ip c.tcp_port c.whitelist).1
        ≡ is_ip_in_white_list ip tcp_port_controller
            (op_white_list op from_ip tcp_port_controller c.whitelist).1
  op_listed op from_ip c up =
      ap
        (λ p. is_ip_in_white_list ip tcp_port_controller (op_white_list op from_ip p c.whitelist).1)
        up.port

  revoked-IsVouched :
      (recv : RecvResult) (from_ip : Bytes) (c : Controller)
      → IsSetUp accounts c
      → IsGuarded ip c.whitelist
      → IsVouched env accounts ip recv c (revoked from_ip c)
  revoked-IsVouched recv from_ip c up v = record {
    set_up = record { port = up.port; known = up.known };
    guarded = op-IsGuarded ip_white_list_del from_ip c up v;
    listed = λ h. inl (
        ground (
          arith,
          h,
          op_listed ip_white_list_del from_ip c up,
          op_white_list_members ip from_ip tcp_port_controller c.whitelist v.step.entry,
        ));
  }

  admitted-IsVouched :
      (bytes from_ip : Bytes) (port : ℤ) (c : Controller) (voucher : Voucher)
      → IsAdmissible env (drop 4 bytes) c voucher
      → IsSetUp accounts c
      → IsGuarded ip c.whitelist
      → IsVouched env accounts ip
          (datagram bytes from_ip port)
          c
          (admitted (env.voucher_packet.parse (drop 4 bytes)).md5_data from_ip c)
  admitted-IsVouched bytes from_ip port c voucher ok up v = record {
    set_up = record { port = up.port; known = up.known };
    guarded = op-IsGuarded ip_white_list_add from_ip c up v;
    listed = λ h. elim (Bool-cases (bytes_eq ip from_ip)) [
      | inl eq ↦ inr (record {
        bytes = bytes;
        port = port;
        received = ap (λ i. datagram bytes i port) (sym ((bytes_eq_iff ip from_ip).0 eq));
        voucher = voucher;
        genuine = ok.genuine;
        account = ap (find voucher.account.acc) (sym up.known) ∙ ok.passwd;
      })
      | inr other ↦ inl (
          ground (
            arith,
            h,
            other,
            op_listed ip_white_list_add from_ip c up,
            op_white_list_members ip from_ip tcp_port_controller c.whitelist v.step.entry,
          ))
    ];
  }

  pub con_func_udp_recv-IsVouched :
      (bytes from_ip : Bytes) (port : ℤ) (c : Controller) {r : ℤ × Controller}
      → con_func_udp_recv env (drop 4 bytes) from_ip c ≡ done r
      → IsSetUp accounts c
      → IsGuarded ip c.whitelist
      → IsVouched env accounts ip (datagram bytes from_ip port) c r.1
  con_func_udp_recv-IsVouched bytes from_ip port c {r} h up v =
      elim (con_func_udp_recv_cases env (drop 4 bytes) from_ip c {r = r} h) [
        | inl (voucher, ok, eq) ↦
            subst
              (λ (q : ℤ × Controller).
                IsVouched env accounts ip (datagram bytes from_ip port) c q.1)
              (sym eq) (admitted-IsVouched bytes from_ip port c voucher ok up v)
        | inr (refused, inl same) ↦
            subst (IsVouched env accounts ip (datagram bytes from_ip port) c) (sym same)
              (same_list (datagram bytes from_ip port) c c up refl v)
        | inr (refused, inr gone) ↦
            subst (IsVouched env accounts ip (datagram bytes from_ip port) c) (sym gone)
              (revoked-IsVouched (datagram bytes from_ip port) from_ip c up v)
      ]

  pub unchanged-IsVouched :
      (recv : RecvResult) (c : Controller)
      → IsSetUp accounts c
      → IsGuarded ip c.whitelist
      → IsVouched env accounts ip recv c c
  unchanged-IsVouched recv c up v = same_list recv c c up refl v
