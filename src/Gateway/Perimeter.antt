-- ===== src/Gateway/Perimeter.antt =====
-- The perimeter that modules/gateway promises, for one address: whether the application port is
-- open to it and whether it is black-listed, and the steps by which the gateway's events may change
-- that.
use sdpgateway_verification.Prelude.{
  ℕ, ◌≡◌, refl, ap, Bool, true, false, ◌&&◌, List, [], ◌∷◌, ◌++◌, arith, ℤ, int_eq, Bytes, bytes_eq,
  done, inl, inr, ◌⊎◌, All,
}
use sdpgateway_verification.CommDef.{ip_application_pb, rsa_pub_key_controller, rsa_pri_key_gateway}
use sdpgateway_verification.Messages.{Ticket, BlackListOpReq, NoticeReq}
use sdpgateway_verification.Env.{Env}
use sdpgateway_verification.Spa.{success, decrypt_ticket}
use sdpgateway_verification.Iptables.{ip_black_list_add, ip_black_list_del}
use sdpgateway_verification.Gateway.{
  Event, knock, black_list, notice, is_expired, app_notice_close_port_for_ip,
}

pub record Access : Type 0 where
  pub opened : Bool
  pub banned : Bool

abbrev pub closed_to : Access
closed_to = record { opened = false; banned = false }

-- The packet carries a genuine ticket for the address, not expired at `now`.
pub record IsTicketFor {K : Type 0} (env : Env K) (ip : Bytes) (now : ℕ) (msg : Bytes)
    : Type 0 where
  pub ticket : Ticket
  pub genuine :
      decrypt_ticket env.ssl env.ticket
        (env.ticket_packet.parse msg)
        rsa_pub_key_controller
        rsa_pri_key_gateway
      ≡ done (success ticket)
  pub names : ticket.ip ≡ ip
  pub in_time : is_expired ticket now ≡ false

-- The requests that concern the address: to put it on the black list, to take it off, and the
-- application's notice to close the port to it.
abbrev pub bans : Bytes → BlackListOpReq → Bool
bans ip req = int_eq req.op ip_black_list_add && bytes_eq ip req.ip

abbrev pub lifts : Bytes → BlackListOpReq → Bool
lifts ip req = int_eq req.op ip_black_list_del && bytes_eq ip req.ip

abbrev pub closes : Bytes → Bytes → NoticeReq → Bool
closes ip from_ip req =
    bytes_eq from_ip ip_application_pb
    && (int_eq req.op app_notice_close_port_for_ip && bytes_eq ip req.op_ip)

module _ {K : Type 0} (env : Env K) (ip : Bytes) where
  pub data Step : Event → Access → Access → Type 0 where
    step_open :
        {now : ℕ} {msg : Bytes} {b : Bool}
        → IsTicketFor env ip now msg
        → Step
            (knock now msg ip)
            (record { opened = b; banned = false })
            (record { opened = true; banned = false })
    step_pass : {now : ℕ} {msg from_ip : Bytes} {a : Access} → Step (knock now msg from_ip) a a
    step_ban :
        {req : BlackListOpReq} {a : Access}
        → bans ip req ≡ true
        → Step (black_list req) a (record { opened = false; banned = true })
    step_lift :
        {req : BlackListOpReq} {a : Access}
        → lifts ip req ≡ true
        → Step (black_list req) a (record { opened = a.opened; banned = false })
    step_other :
        {req : BlackListOpReq} {a : Access}
        → bans ip req ≡ false
        → lifts ip req ≡ false
        → Step (black_list req) a a
    step_close :
        {junk : ℤ} {from_ip : Bytes} {req : NoticeReq} {a : Access}
        → closes ip from_ip req ≡ true
        → Step (notice junk from_ip req) a (record { opened = false; banned = a.banned })
    step_stay :
        {junk : ℤ} {from_ip : Bytes} {req : NoticeReq} {a : Access}
        → closes ip from_ip req ≡ false
        → Step (notice junk from_ip req) a a

  -- The steps of a sequence of events.
  pub data Reach : List Event → Access → Access → Type 0 where
    at_end : {a : Access} → Reach [] a a
    after :
        {e : Event} {es : List Event} {a b c : Access}
        → Step e a b
        → Reach es b c
        → Reach (e ∷ es) a c

-- The event closes the port to the address.
abbrev pub shuts : Bytes → Event → Bool
shuts ip (knock now msg from_ip) = false
shuts ip (black_list req) = bans ip req
shuts ip (notice junk from_ip req) = closes ip from_ip req

-- The address is let in because of a knock of its own with a ticket for it, in the sequence, and
-- no later event shut the port to it.
pub record IsLetInBy {K : Type 0} (env : Env K) (ip : Bytes) (es : List Event) : Type 0 where
  pub before : List Event
  pub later : List Event
  pub now : ℕ
  pub msg : Bytes
  pub parts : es ≡ before ++ (knock now msg ip ∷ later)
  pub ticketed : IsTicketFor env ip now msg
  pub unshut : All (λ e. shuts ip e ≡ false) later

module _ {K : Type 0} (env : Env K) (ip : Bytes) where
  -- An address that is open after a step was let in by it, or was open before and not shut.
  Step-open :
      {e : Event} {a b : Access}
      → Step env ip e a b
      → b.opened ≡ true
      → ((now : ℕ) × (msg : Bytes) × (e ≡ knock now msg ip) × IsTicketFor env ip now msg)
        ⊎ ((a.opened ≡ true) × (shuts ip e ≡ false))
  Step-open (step_open {now} {msg} t) h = inl (now, msg, refl, t)
  Step-open step_pass h = inr (h, refl)
  Step-open (step_ban r) h = absurd cc
  Step-open (step_lift {req} r) h = inr (h, ground (arith, r))
  Step-open (step_other r s) h = inr (h, r)
  Step-open (step_close r) h = absurd cc
  Step-open (step_stay r) h = inr (h, r)

  prepend : (e : Event) (es : List Event) → IsLetInBy env ip es → IsLetInBy env ip (e ∷ es)
  prepend e es l = record {
    before = e ∷ l.before;
    later = l.later;
    now = l.now;
    msg = l.msg;
    parts = ap (◌∷◌ e) l.parts;
    ticketed = l.ticketed;
    unshut = l.unshut;
  }

  Reach-open :
      {es : List Event} {a b : Access}
      → Reach env ip es a b
      → b.opened ≡ true
      → IsLetInBy env ip es ⊎ ((a.opened ≡ true) × All (λ e. shuts ip e ≡ false) es)
  Reach-open at_end h = inr (h, tt)
  Reach-open (after {e} {es} step rest) h = elim (Reach-open rest h) [
    | inl l ↦ inl (prepend e es l)
    | inr (o, unshut) ↦ elim (Step-open step o) [
      | inl (now, msg, eq, t) ↦ inl (record {
        before = [];
        later = es;
        now = now;
        msg = msg;
        parts = ap (λ x. x ∷ es) eq;
        ticketed = t;
        unshut = unshut;
      })
      | inr (o', u) ↦ inr (o', (u, unshut))
    ]
  ]

  -- From a closed port, an address becomes open only by a knock of its own.
  pub Reach-IsLetInBy :
      {es : List Event} {a b : Access}
      → Reach env ip es a b
      → a.opened ≡ false
      → b.opened ≡ true
      → IsLetInBy env ip es
  Reach-IsLetInBy r c o = elim (Reach-open r o) [ inl l ↦ l | inr (o', _) ↦ absurd cc ]

  apart-Step :
      {e : Event} {a b : Access}
      → Step env ip e a b
      → (a.banned ≡ true → a.opened ≡ false)
      → b.banned ≡ true
      → b.opened ≡ false
  apart-Step (step_open t) h p = absurd cc
  apart-Step step_pass h p = h p
  apart-Step (step_ban r) h p = refl
  apart-Step (step_lift r) h p = absurd cc
  apart-Step (step_other r s) h p = h p
  apart-Step (step_close r) h p = refl
  apart-Step (step_stay r) h p = h p

  -- No step opens the port to a banned address or leaves it open to one.
  pub Reach_apart :
      {es : List Event} {a b : Access}
      → Reach env ip es a b
      → (a.banned ≡ true → a.opened ≡ false)
      → b.banned ≡ true
      → b.opened ≡ false
  Reach_apart at_end h p = h p
  Reach_apart (after step rest) h p = Reach_apart rest (apart-Step step h) p
