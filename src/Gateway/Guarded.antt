-- ===== src/Gateway/Guarded.antt =====
-- What modules/gateway holds for one address: its white list entry, rules and black list entry.
use sdpgateway_verification.Prelude.{
  ◌≡◌, true, false, List, [], ◌∷◌, arith, ℤ, pos, int_eq, Bytes, bytes_eq, bytes_eq_iff, done,
  Outcome-cases, Bool-cases, subst, sym, done-injective, inl, inr, ◌⊎◌,
}
use sdpgateway_verification.Map.{bytes_key, find, insert, erase}
use sdpgateway_verification.Map.Laws.{find-insert, find-erase}
use sdpgateway_verification.CommDef.{tcp_port_application, ip_application_pb}
use sdpgateway_verification.Env.{Env}
use sdpgateway_verification.Messages.{NoticeReq, BlackListOpReq}
use sdpgateway_verification.Iptables.{
  is_ip_in_white_list, op_white_list, ip_white_list_add, ip_white_list_del,
}
use sdpgateway_verification.Iptables.Chain.{fenced, chain, op_white_list-fenced}
use sdpgateway_verification.Iptables.Sync.{InStep, AtPort, op_white_list-InStep}
use sdpgateway_verification.Iptables.Members.{op_white_list_members}
use sdpgateway_verification.Gateway.{
  Gateway, Event, knock, black_list, notice, handle, run, gate_func_black_list_op, gate_func_notice,
  controller_black_list_is_in,
}
use sdpgateway_verification.Gateway.Admission.{admitted, gate_func_udp_recv_cases}

-- For one address: its list entries carry the application port, white list and rules agree, the
-- application port is closed but for the rules, and the address is not on both lists.
pub record IsGuarded (ip : Bytes) (g : Gateway) : Type 0 where
  pub port : g.app_tcp_port ≡ tcp_port_application
  pub step : InStep ip g.app_tcp_port g.whitelist
  pub fence : fenced ip g.app_tcp_port (chain g.whitelist.iptool.executed) ≡ true
  pub black_entry : AtPort g.app_tcp_port (find ip g.controller_black_list)
  pub apart :
      controller_black_list_is_in ip g.app_tcp_port g ≡ true
      → is_ip_in_white_list ip g.app_tcp_port g.whitelist ≡ false

admitted-IsGuarded :
    (ip sign from_ip : Bytes) (g : Gateway)
    → controller_black_list_is_in from_ip g.app_tcp_port g ≡ false
    → IsGuarded ip g
    → IsGuarded ip (admitted sign from_ip g)
unfolding controller_black_list_is_in
admitted-IsGuarded ip sign from_ip g b v = record {
  port = v.port;
  step = op_white_list-InStep ip g.app_tcp_port ip_white_list_add from_ip g.whitelist v.step;
  fence =
      op_white_list-fenced ip g.app_tcp_port ip_white_list_add from_ip g.app_tcp_port g.whitelist
        v.fence;
  black_entry = v.black_entry;
  apart = λ h. ground (
    arith,
    b,
    h,
    v.apart h,
    bytes_eq_iff ip from_ip,
    op_white_list_members ip from_ip g.app_tcp_port g.whitelist v.step.entry,
  );
}

-- Taking an address off the white list, with the black list as it is.
removed-IsGuarded :
    (ip gone : Bytes) (g : Gateway)
    → IsGuarded ip g
    → IsGuarded ip (record g {
      whitelist = (op_white_list ip_white_list_del gone g.app_tcp_port g.whitelist).1;
    })
unfolding controller_black_list_is_in
removed-IsGuarded ip gone g v = record {
  port = v.port;
  step = op_white_list-InStep ip g.app_tcp_port ip_white_list_del gone g.whitelist v.step;
  fence =
      op_white_list-fenced ip g.app_tcp_port ip_white_list_del gone g.app_tcp_port g.whitelist
        v.fence;
  black_entry = v.black_entry;
  apart = λ h.
      ground
        (arith, v.apart h, op_white_list_members ip gone g.app_tcp_port g.whitelist v.step.entry);
}

-- What GateFuncNotice does to the gateway: nothing, or it takes the named address off.
pub gate_func_notice_cases :
    (junk : ℤ) (from_ip : Bytes) (req : NoticeReq) (g : Gateway)
    → ((gate_func_notice junk from_ip req g).1 ≡ g)
      ⊎ ((gate_func_notice junk from_ip req g).1 ≡ record g {
        whitelist = (op_white_list ip_white_list_del req.op_ip g.app_tcp_port g.whitelist).1;
      })
unfolding gate_func_notice
gate_func_notice_cases junk from_ip req g = elim (Bool-cases (bytes_eq from_ip ip_application_pb)) [
  | inr other ↦ inl (ground arith)
  | inl app ↦ elim (Bool-cases (int_eq req.op (pos 1))) [
    | inr kept ↦ inl (ground arith)
    | inl close ↦ inr (ground arith)
  ]
]

gate_func_notice-IsGuarded :
    (junk : ℤ) (from_ip ip : Bytes) (req : NoticeReq) (g : Gateway)
    → IsGuarded ip g
    → IsGuarded ip (gate_func_notice junk from_ip req g).1
gate_func_notice-IsGuarded junk from_ip ip req g v =
    elim (gate_func_notice_cases junk from_ip req g) [
      | inl same ↦ subst (IsGuarded ip) (sym same) v
      | inr removed ↦ subst (IsGuarded ip) (sym removed) (removed-IsGuarded ip req.op_ip g v)
    ]

-- Black-listing an address takes it off the white list too.
abbrev blackened : Bytes → Gateway → Gateway
blackened gone g = record g {
  whitelist = (op_white_list ip_white_list_del gone g.app_tcp_port g.whitelist).1;
  controller_black_list = insert gone g.app_tcp_port g.controller_black_list;
}

blackened-IsGuarded :
    (ip gone : Bytes) (g : Gateway) → IsGuarded ip g → IsGuarded ip (blackened gone g)
unfolding controller_black_list_is_in
blackened-IsGuarded ip gone g v = record {
  port = v.port;
  step = op_white_list-InStep ip g.app_tcp_port ip_white_list_del gone g.whitelist v.step;
  fence =
      op_white_list-fenced ip g.app_tcp_port ip_white_list_del gone g.app_tcp_port g.whitelist
        v.fence;
  black_entry = ground (
    arith,
    v.black_entry,
    find-insert ip gone g.app_tcp_port g.controller_black_list,
    bytes_eq_iff ip gone,
  );
  apart = λ h. ground (
    arith,
    h,
    v.apart,
    v.black_entry,
    bytes_eq_iff ip gone,
    find-insert ip gone g.app_tcp_port g.controller_black_list,
    op_white_list_members ip gone g.app_tcp_port g.whitelist v.step.entry,
  );
}

whitened-IsGuarded :
    (ip gone : Bytes) (g : Gateway)
    → IsGuarded ip g
    → IsGuarded ip (record g { controller_black_list = erase gone g.controller_black_list })
unfolding controller_black_list_is_in
whitened-IsGuarded ip gone g v = record {
  port = v.port;
  step = v.step;
  fence = v.fence;
  black_entry =
      ground
        (arith, v.black_entry, find-erase ip gone g.controller_black_list, bytes_eq_iff ip gone);
  apart = λ h.
      ground (arith, h, v.apart, find-erase ip gone g.controller_black_list, bytes_eq_iff ip gone);
}

gate_func_black_list_op-IsGuarded :
    (ip : Bytes) (req : BlackListOpReq) (g : Gateway)
    → IsGuarded ip g
    → IsGuarded ip (gate_func_black_list_op req g).1
unfolding gate_func_black_list_op
gate_func_black_list_op-IsGuarded ip req g v = elim (Bool-cases (int_eq req.op (pos 3))) [
  | inl add ↦
      let eq : (gate_func_black_list_op req g).1 ≡ blackened req.ip g = ground arith in
      subst (IsGuarded ip) (sym eq) (blackened-IsGuarded ip req.ip g v)
  | inr more ↦ elim (Bool-cases (int_eq req.op (pos 4))) [
    | inl del ↦
        let eq : (gate_func_black_list_op req g).1
            ≡ record g { controller_black_list = erase req.ip g.controller_black_list } =
          ground arith in
        subst (IsGuarded ip) (sym eq) (whitened-IsGuarded ip req.ip g v)
    | inr other ↦
        let eq : (gate_func_black_list_op req g).1 ≡ g = ground arith in
        subst (IsGuarded ip) (sym eq) v
  ]
]

module _ {K : Type 0} (env : Env K) (ip : Bytes) where
  pub handle-IsGuarded :
      (e : Event) (g : Gateway) {r : ℤ × Gateway}
      → handle env e g ≡ done r
      → IsGuarded ip g
      → IsGuarded ip r.1
  unfolding handle
  handle-IsGuarded (knock now msg from_ip) g {r} h v =
      elim (gate_func_udp_recv_cases env now msg from_ip g h) [
        | inl (ticket, ok, e) ↦
            subst (λ (q : ℤ × Gateway). IsGuarded ip q.1) (sym e)
              (admitted-IsGuarded ip (env.ticket_packet.parse msg).sign_data from_ip g ok.not_black
                v)
        | inr (refused, same) ↦ subst (IsGuarded ip) (sym same) v
      ]
  handle-IsGuarded (black_list req) g {r} h v =
      subst (λ (q : ℤ × Gateway). IsGuarded ip q.1) (done-injective h)
        (gate_func_black_list_op-IsGuarded ip req g v)
  handle-IsGuarded (notice junk from_ip req) g {r} h v =
      subst (λ (q : ℤ × Gateway). IsGuarded ip q.1) (done-injective h)
        (gate_func_notice-IsGuarded junk from_ip ip req g v)

  pub run-IsGuarded :
      (es : List Event) (g : Gateway) {g' : Gateway}
      → run env es g ≡ done g'
      → IsGuarded ip g
      → IsGuarded ip g'
  unfolding run
  run-IsGuarded [] g h v = subst (IsGuarded ip) (done-injective h) v
  run-IsGuarded (e ∷ es) g {g'} h v = elim (Outcome-cases (handle env e g)) [
    | inl (r, eq) ↦ run-IsGuarded es r.1 {g' = g'} (ground (arith, eq)) (handle-IsGuarded e g eq v)
    | inr (f, eq) ↦ absurd (ground (arith, eq))
  ]
