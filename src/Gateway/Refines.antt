-- ===== src/Gateway/Refines.antt =====
-- The gateway of modules/gateway against the perimeter, for one address.
use sdpgateway_verification.Prelude.{
  ℕ, ◌≡◌, refl, sym, ap, ◌∙◌, subst, Bool, true, List, [], ◌∷◌, arith, ℤ, Bytes, bytes_eq,
  bytes_eq_iff, done, Outcome-cases, Bool-cases, done-injective, inl, inr,
}
use sdpgateway_verification.Map.{bytes_key, find}
use sdpgateway_verification.CommDef.{tcp_port_application}
use sdpgateway_verification.Env.{Env}
use sdpgateway_verification.Messages.{Ticket, BlackListOpReq, NoticeReq}
use sdpgateway_verification.Iptables.{Shell, is_ip_in_white_list}
use sdpgateway_verification.Iptables.Rules.{occurrences}
use sdpgateway_verification.Iptables.Members.{op_white_list_members}
use sdpgateway_verification.Gateway.{
  Gateway, Event, knock, black_list, notice, handle, run, controller_black_list_is_in,
  gate_func_black_list_op, gate_func_notice, new_gateway_config, sdp_app_gateway,
}
use sdpgateway_verification.Gateway.Admission.{admitted, IsAdmissible, gate_func_udp_recv_cases}
use sdpgateway_verification.Gateway.Guarded.{IsGuarded, handle-IsGuarded}
use sdpgateway_verification.Gateway.Firewall.{
  seeds, start-IsGuarded, start_accepts_none, guarded, firewall_lets_in_white_list,
}
use sdpgateway_verification.Iptables.Chain.{chain, lets_in}
use sdpgateway_verification.Gateway.Access.{access_of, Access_eq, black_list-access, notice-access}
use sdpgateway_verification.Gateway.Perimeter.{
  Access, closed_to, bans, lifts, closes, Step, step_open, step_pass, step_ban, step_lift,
  step_other, step_close, step_stay, Reach, at_end, after, IsLetInBy, Reach-IsLetInBy,
}

module _ {K : Type 0} (env : Env K) (ip : Bytes) where
  moved :
      {e : Event} {a b a' b' : Access} → a ≡ a' → b ≡ b' → Step env ip e a' b' → Step env ip e a b
  moved {e} {a} {b} {a'} {b'} p q s =
      subst (λ x. Step env ip e x b) (sym p) (subst (λ y. Step env ip e a' y) (sym q) s)

  admitted-Step :
      (now : ℕ) (msg from_ip : Bytes) (g : Gateway) (ticket : Ticket)
      → IsAdmissible env now msg from_ip g ticket
      → IsGuarded ip g
      → Step env ip
          (knock now msg from_ip)
          (access_of ip g)
          (access_of ip (admitted (env.ticket_packet.parse msg).sign_data from_ip g))
  unfolding access_of controller_black_list_is_in
  admitted-Step now msg from_ip g ticket ok v =
      let members = op_white_list_members ip from_ip g.app_tcp_port g.whitelist v.step.entry in
      elim (Bool-cases (bytes_eq ip from_ip)) [
        | inl eq ↦
            let same : ip ≡ from_ip = (bytes_eq_iff ip from_ip).0 eq in
            subst
              (λ j.
                Step env ip (knock now msg j) (access_of ip g)
                  (access_of ip (admitted (env.ticket_packet.parse msg).sign_data from_ip g)))
              same
              (moved (Access_eq refl (ground (arith, same, ok.not_black)))
                (Access_eq (ground (arith, members)) (ground (arith, same, ok.not_black)))
                (step_open (record {
                  ticket = ticket;
                  genuine = ok.genuine;
                  names = ok.same_ip ∙ sym same;
                  in_time = ok.in_time;
                })))
        | inr other ↦ moved refl (Access_eq (ground (arith, other, members)) refl) step_pass
      ]

module _ {K : Type 0} (env : Env K) (ip : Bytes) where
  black_list-Step :
      (req : BlackListOpReq) (g : Gateway)
      → IsGuarded ip g
      → Step env ip
          (black_list req)
          (access_of ip g)
          (access_of ip (gate_func_black_list_op req g).1)
  unfolding access_of
  black_list-Step req g v =
      let access = black_list-access ip req g v in
      elim (Bool-cases (bans ip req)) [
        | inl ban ↦
            moved env ip refl (access ∙ Access_eq (ground (arith, ban)) (ground (arith, ban)))
              (step_ban ban)
        | inr no_ban ↦ elim (Bool-cases (lifts ip req)) [
          | inl lift ↦
              moved env ip refl
                (access ∙ Access_eq (ground (arith, no_ban)) (ground (arith, no_ban, lift)))
                (step_lift lift)
          | inr no_lift ↦
              moved env ip refl
                (access ∙ Access_eq (ground (arith, no_ban)) (ground (arith, no_ban, no_lift)))
                (step_other no_ban no_lift)
        ]
      ]

  notice-Step :
      (junk : ℤ) (from_ip : Bytes) (req : NoticeReq) (g : Gateway)
      → IsGuarded ip g
      → Step env ip
          (notice junk from_ip req)
          (access_of ip g)
          (access_of ip (gate_func_notice junk from_ip req g).1)
  unfolding access_of
  notice-Step junk from_ip req g v =
      let access = notice-access ip junk from_ip req g v in
      elim (Bool-cases (closes ip from_ip req)) [
        | inl close ↦
            moved env ip refl (access ∙ Access_eq (ground (arith, close)) refl) (step_close close)
        | inr keep ↦
            moved env ip refl (access ∙ Access_eq (ground (arith, keep)) refl) (step_stay keep)
      ]

  -- Each event that the gateway handles is a step of the perimeter.
  handle-Step :
      (e : Event) (g : Gateway) {r : ℤ × Gateway}
      → handle env e g ≡ done r
      → IsGuarded ip g
      → Step env ip e (access_of ip g) (access_of ip r.1)
  unfolding handle
  handle-Step (knock now msg from_ip) g {r} h v =
      elim (gate_func_udp_recv_cases env now msg from_ip g h) [
        | inl (ticket, ok, eq) ↦
            subst
              (λ (q : ℤ × Gateway).
                Step env ip (knock now msg from_ip) (access_of ip g) (access_of ip q.1))
              (sym eq) (admitted-Step env ip now msg from_ip g ticket ok v)
        | inr (refused, same) ↦ moved env ip refl (ap (access_of ip) same) step_pass
      ]
  handle-Step (black_list req) g {r} h v =
      subst (λ (q : ℤ × Gateway). Step env ip (black_list req) (access_of ip g) (access_of ip q.1))
        (done-injective h) (black_list-Step req g v)
  handle-Step (notice junk from_ip req) g {r} h v =
      subst
        (λ (q : ℤ × Gateway).
          Step env ip (notice junk from_ip req) (access_of ip g) (access_of ip q.1))
        (done-injective h) (notice-Step junk from_ip req g v)

  run-Reach :
      (es : List Event) (g : Gateway) {g' : Gateway}
      → run env es g ≡ done g'
      → IsGuarded ip g
      → Reach env ip es (access_of ip g) (access_of ip g')
  unfolding run
  run-Reach [] g {g'} h v =
      subst (λ x. Reach env ip [] (access_of ip g) (access_of ip x)) (done-injective h) at_end
  run-Reach (e ∷ es) g {g'} h v = elim (Outcome-cases (handle env e g)) [
    | inl (r, eq) ↦
        after (handle-Step e g eq v)
          (run-Reach es r.1 {g' = g'} (ground (arith, eq)) (handle-IsGuarded env ip e g eq v))
    | inr (f, eq) ↦ absurd (ground (arith, eq))
  ]

start_closed :
    (sh : Shell) (ip : Bytes)
    → occurrences ip seeds ≡ 0
    → access_of ip (sdp_app_gateway (new_gateway_config sh)) ≡ closed_to
unfolding access_of sdp_app_gateway new_gateway_config controller_black_list_is_in find
start_closed sh ip h =
    Access_eq (ground (arith, (start-IsGuarded sh ip h).step.rules, start_accepts_none sh ip h))
      refl

module _ {K : Type 0} (env : Env K) (sh : Shell) (es : List Event) (ip : Bytes) {g : Gateway}
    (unseeded : occurrences ip seeds ≡ 0)
    (history : run env es (sdp_app_gateway (new_gateway_config sh)) ≡ done g) where
  -- For an address other than the two that the start white-lists: the events that the gateway
  -- handles after its start are, in their order, steps of the perimeter from the closed port to the
  -- access that the address has then.
  pub gateway_refines_perimeter : Reach env ip es closed_to (access_of ip g)
  gateway_refines_perimeter =
      subst (λ a. Reach env ip es a (access_of ip g)) (start_closed sh ip unseeded)
        (run-Reach env ip es _ {g' = g} history (start-IsGuarded sh ip unseeded))

  -- For an address other than the two that the start white-lists, after any events that the gateway
  -- handles: if its TCP packets to the application port are let in, one of the events was a knock
  -- from this address with a genuine ticket that names it and had not expired, and no later
  -- event black-listed the address or was the application's notice to close the port to it.
  pub let_in_only_by_knock :
      (policy : Bool)
      → lets_in policy ip tcp_port_application (chain g.whitelist.iptool.executed) ≡ true
      → IsLetInBy env ip es
  unfolding access_of
  let_in_only_by_knock policy passes = Reach-IsLetInBy env ip gateway_refines_perimeter refl (
      ap (λ p. is_ip_in_white_list ip p g.whitelist)
        (guarded env sh es ip {g = g} unseeded history).port
      ∙ sym (firewall_lets_in_white_list env sh es ip {g = g} unseeded history policy)
      ∙ passes)
