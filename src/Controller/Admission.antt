-- ===== src/Controller/Admission.antt =====
-- ConFuncUdpRecv of modules/controller: which knocks are admitted.
use sdpgateway_verification.Prelude.{
  ◌≡◌, ◌≢◌, refl, false, some, arith, ℤ, pos, minus_one, int_eq, int_eq_iff, Bytes, bytes_eq_iff,
  done, Outcome-cases, Bool-cases, Option-cases, inl, inr, ◌⊎◌, subst,
}
use sdpgateway_verification.Map.{bytes_key, find, contains, insert}
use sdpgateway_verification.CommDef.{rsa_pri_key_controller}
use sdpgateway_verification.Messages.{Voucher, VoucherPacket}
use sdpgateway_verification.Env.{Env}
use sdpgateway_verification.Spa.{Answer, failed, success, decrypt_voucher}
use sdpgateway_verification.Iptables.{op_white_list, ip_white_list_add, ip_white_list_del}
use sdpgateway_verification.Controller.Config.{
  Controller, check_user_passwd, check_user_permission_exists,
}
use sdpgateway_verification.Controller.{con_func_udp_recv, admit_answer}

-- What a knock needs: a voucher whose digest matches, an account with its password that may access
-- something, and a digest that has not been used.
pub record IsAdmissible {K : Type 0} (env : Env K) (msg : Bytes) (c : Controller)
    (voucher : Voucher) : Type 0 where
  pub genuine :
      decrypt_voucher env.ssl env.voucher (env.voucher_packet.parse msg) rsa_pri_key_controller
      ≡ done (success voucher)
  pub passwd : find voucher.account.acc c.user_account_map ≡ some voucher.account.pwd
  pub permitted : check_user_permission_exists voucher.account.acc c ≡ pos 0
  pub unused : contains (env.voucher_packet.parse msg).md5_data c.md5_map ≡ false

-- The controller after an admitted knock.
abbrev pub admitted : Bytes → Bytes → Controller → Controller
admitted md5_data from_ip c = record c {
  md5_map = insert md5_data (pos 1) c.md5_map;
  whitelist = (op_white_list ip_white_list_add from_ip c.tcp_port c.whitelist).1;
}

-- The controller after a knock that failed for its account: the address has lost its access.
abbrev pub revoked : Bytes → Controller → Controller
revoked from_ip c = record c {
  whitelist = (op_white_list ip_white_list_del from_ip c.tcp_port c.whitelist).1;
}

decrypt_voucher_failed :
    {K : Type 0} (env : Env K) (packet : VoucherPacket) (a : Bytes) {ret : ℤ}
    → decrypt_voucher env.ssl env.voucher packet a ≡ done (failed ret)
    → ret ≡ minus_one
unfolding decrypt_voucher
decrypt_voucher_failed env packet a h = ground arith

passwd_lem :
    (account passwd : Bytes) (c : Controller)
    → check_user_passwd account passwd c ≡ pos 0
    → find account c.user_account_map ≡ some passwd
unfolding check_user_passwd
passwd_lem account passwd c h = elim (Option-cases (find account c.user_account_map)) [
  | inl e ↦ absurd (ground (arith, e))
  | inr (p, e) ↦ ground (arith, e, bytes_eq_iff p passwd)
]

module _ {K : Type 0} (env : Env K) (msg from_ip : Bytes) (c : Controller) where
  abbrev packet : VoucherPacket
  packet = env.voucher_packet.parse msg

  abbrev Passes : ℤ × Controller → Type 0
  Passes r =
      ((voucher : Voucher) × IsAdmissible env msg c voucher
        × (r ≡ (pos 0, admitted packet.md5_data from_ip c)))
      ⊎ ((r.0 ≢ pos 0) × ((r.1 ≡ c) ⊎ (r.1 ≡ revoked from_ip c)))

  answer_cases :
      (answer : Answer Voucher)
      → decrypt_voucher env.ssl env.voucher packet rsa_pri_key_controller ≡ done answer
      → Passes (admit_answer from_ip packet c answer)
  unfolding admit_answer
  answer_cases (failed ret) e = rw (decrypt_voucher_failed env packet _ e) (inr (λ p. cc, inl refl))
  answer_cases (success v) e =
      elim (Bool-cases (int_eq (check_user_passwd v.account.acc v.account.pwd c) (pos 0))) [
        | inr wrong ↦ inr (ground arith, inr (ground arith))
        | inl right ↦
            elim (Bool-cases (int_eq (check_user_permission_exists v.account.acc c) (pos 0))) [
              | inr nothing ↦ inr (ground arith, inr (ground arith))
              | inl permitted ↦ elim (Bool-cases (contains packet.md5_data c.md5_map)) [
                | inl used ↦ inr (ground arith, inl (ground arith))
                | inr fresh ↦ inl (
                  v,
                  record {
                    genuine = e;
                    passwd = passwd_lem v.account.acc v.account.pwd c ((int_eq_iff _ _).0 right);
                    permitted = (int_eq_iff _ _).0 permitted;
                    unused = fresh;
                  },
                  ground arith,
                )
              ]
            ]
      ]

  -- A knock that returns either is admissible, and then it returns 0 and the controller has the
  -- digest and the address; or it returns another code, and the controller is as it was or has
  -- taken the address off its white list.
  pub con_func_udp_recv_cases :
      {r : ℤ × Controller} → con_func_udp_recv env msg from_ip c ≡ done r → Passes r
  unfolding con_func_udp_recv
  con_func_udp_recv_cases {r} h =
      elim (Outcome-cases (decrypt_voucher env.ssl env.voucher packet rsa_pri_key_controller)) [
        | inl (answer, e) ↦
            let same : admit_answer from_ip packet c answer ≡ r = ground (arith, e) in
            subst Passes same (answer_cases answer e)
        | inr (f, e) ↦ absurd (ground (arith, e))
      ]
