-- ===== src/Gateway/Admission.antt =====
-- GateFuncUdpRecv of modules/gateway: which knocks are admitted.
use sdpgateway_verification.Prelude.{
  ℕ, ◌≡◌, ◌≢◌, ◌↔◌, refl, false, arith, ℤ, pos, minus_one, Bytes, bytes_eq, bytes_eq_iff, done,
  Outcome-cases, Bool-cases, inl, inr, ◌⊎◌, subst,
}
use sdpgateway_verification.Map.{bytes_key, contains, insert}
use sdpgateway_verification.CommDef.{rsa_pub_key_controller, rsa_pri_key_gateway}
use sdpgateway_verification.Messages.{Ticket, TicketPacket}
use sdpgateway_verification.Env.{Env}
use sdpgateway_verification.Spa.{Answer, failed, success, decrypt_ticket}
use sdpgateway_verification.Iptables.{op_white_list, ip_white_list_add}
use sdpgateway_verification.Gateway.{
  Gateway, gate_func_udp_recv, controller_black_list_is_in, is_expired, admit_answer,
}

-- What a knock needs: its address is not black-listed, the ticket of its packet is genuine, names
-- the address and has not expired, and the signature has not been used.
pub record IsAdmissible {K : Type 0} (env : Env K) (now : ℕ) (msg from_ip : Bytes) (g : Gateway)
    (ticket : Ticket) : Type 0 where
  pub not_black : controller_black_list_is_in from_ip g.app_tcp_port g ≡ false
  pub genuine :
      decrypt_ticket env.ssl env.ticket
        (env.ticket_packet.parse msg)
        rsa_pub_key_controller
        rsa_pri_key_gateway
      ≡ done (success ticket)
  pub same_ip : ticket.ip ≡ from_ip
  pub in_time : is_expired ticket now ≡ false
  pub unused : contains (env.ticket_packet.parse msg).sign_data g.md5_map ≡ false

-- The gateway after an admitted knock.
abbrev pub admitted : Bytes → Bytes → Gateway → Gateway
admitted sign_data from_ip g = record g {
  md5_map = insert sign_data (pos 1) g.md5_map;
  whitelist = (op_white_list ip_white_list_add from_ip g.app_tcp_port g.whitelist).1;
}

-- A ticket tool never reports failure by a code that is not negative.
pub decrypt_ticket_failed :
    {K : Type 0} (env : Env K) (packet : TicketPacket) (a b : Bytes) {ret : ℤ}
    → decrypt_ticket env.ssl env.ticket packet a b ≡ done (failed ret)
    → ret ≡ minus_one
unfolding decrypt_ticket
decrypt_ticket_failed env packet a b h = ground arith

module _ {K : Type 0} (env : Env K) (now : ℕ) (msg from_ip : Bytes) (g : Gateway) where
  pub admissible_passes :
      (ticket : Ticket)
      → IsAdmissible env now msg from_ip g ticket
      → gate_func_udp_recv env now msg from_ip g
        ≡ done (pos 0, admitted (env.ticket_packet.parse msg).sign_data from_ip g)
  unfolding gate_func_udp_recv
  admissible_passes ticket h = ground (
    arith,
    h.not_black,
    h.genuine,
    h.same_ip,
    h.in_time,
    h.unused,
    bytes_eq_iff ticket.ip from_ip,
  )

  abbrev packet : TicketPacket
  packet = env.ticket_packet.parse msg

  abbrev Passes : ℤ × Gateway → Type 0
  Passes r =
      ((ticket : Ticket) × IsAdmissible env now msg from_ip g ticket
        × (r ≡ (pos 0, admitted packet.sign_data from_ip g)))
      ⊎ ((r.0 ≢ pos 0) × (r.1 ≡ g))

  answer_cases :
      (answer : Answer Ticket)
      → controller_black_list_is_in from_ip g.app_tcp_port g ≡ false
      → decrypt_ticket env.ssl env.ticket packet rsa_pub_key_controller rsa_pri_key_gateway
        ≡ done answer
      → Passes (admit_answer now from_ip packet g answer)
  unfolding admit_answer
  answer_cases (failed ret) b e = rw (decrypt_ticket_failed env packet _ _ e) (inr (λ p. cc, refl))
  answer_cases (success ticket) b e = elim (Bool-cases (bytes_eq ticket.ip from_ip)) [
    | inr other ↦ inr (ground arith, ground arith)
    | inl same ↦ elim (Bool-cases (is_expired ticket now)) [
      | inl late ↦ inr (ground arith, ground arith)
      | inr timely ↦ elim (Bool-cases (contains packet.sign_data g.md5_map)) [
        | inl used ↦ inr (ground arith, ground arith)
        | inr fresh ↦ inl (
          ticket,
          record {
            not_black = b;
            genuine = e;
            same_ip = (bytes_eq_iff ticket.ip from_ip).0 same;
            in_time = timely;
            unused = fresh;
          },
          ground arith,
        )
      ]
    ]
  ]

  -- A knock that returns either is admissible, and then it returns 0 and the gateway has the
  -- signature and the address; or it returns another code and leaves the gateway as it was.
  pub gate_func_udp_recv_cases :
      {r : ℤ × Gateway} → gate_func_udp_recv env now msg from_ip g ≡ done r → Passes r
  unfolding gate_func_udp_recv
  gate_func_udp_recv_cases {r} h =
      elim (Bool-cases (controller_black_list_is_in from_ip g.app_tcp_port g)) [
        | inl black ↦ inr (ground arith, ground arith)
        | inr b ↦
            elim (Outcome-cases (
              decrypt_ticket env.ssl env.ticket packet rsa_pub_key_controller
                rsa_pri_key_gateway)) [
                  | inl (answer, e) ↦
                      let same : admit_answer now from_ip packet g answer ≡ r =
                        ground (arith, b, e) in
                      subst Passes same (answer_cases answer b e)
                  | inr (f, e) ↦ absurd (ground (arith, b, e))
                ]
      ]

  -- A knock returns 0 exactly when some ticket makes it admissible.
  pub gate_func_udp_recv_iff :
      ((g' : Gateway) × (gate_func_udp_recv env now msg from_ip g ≡ done (pos 0, g')))
      ↔ ((ticket : Ticket) × IsAdmissible env now msg from_ip g ticket)
  gate_func_udp_recv_iff = (
    λ (g', h). elim (gate_func_udp_recv_cases h) [
      | inl (ticket, ok, _) ↦ (ticket, ok)
      | inr (refused, _) ↦ absurd (refused refl)
    ],
    λ (ticket, ok). (admitted packet.sign_data from_ip g, admissible_passes ticket ok),
  )
