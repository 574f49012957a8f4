-- ===== src/Client/Knocks.antt =====
-- What the client sends and opens: the knocks of the access list, and the HTTPS application.
use sdpgateway_verification.Prelude.{
  ℕ, ◌+◌, ◌≡◌, ◌≢◌, ◌⊎◌, inl, inr, refl, ap, false, none, some, List, [], ◌∷◌, ◌++◌, arith,
  append_assoc, append-nil, if◌then◌else◌, ℤ, pos, minus_one, is_neg, Bytes, txt, bytes_eq,
  bytes_eq_iff, All, done, Bool-cases,
}
use mathlib.Core.List.{map}
use sdpgateway_verification.Messages.{AccessItem}
use sdpgateway_verification.Env.{Env}
use sdpgateway_verification.Packet.{memory_copy_to_string}
use sdpgateway_verification.Erpc.Client.{Network, udp_func_request, app_func_https_request}
use sdpgateway_verification.Client.{
  Sending, Sent, spa_knocking_gateway, knock_gateways, find_https, access_application_https,
}

-- The knock on an application's gateway: the command 201 and the serialized ticket packet, sent to
-- the address and the UDP port of the list's entry.
abbrev pub knock_of : {K : Type 0} → Env K → AccessItem → Sent
knock_of env item = record {
  ip = item.ip;
  port = item.app.gate_udp_port;
  msg = memory_copy_to_string 201 ++ env.ticket_packet.serialize item.ticket_packet;
}

-- A knock is sent and reported so, or it is not sent and reported so.
pub spa_knocking_gateway_cases :
    {K : Type 0} (env : Env K) (sending : Sending) (item : AccessItem)
    → (spa_knocking_gateway env sending item.ticket_packet item.ip item.app.gate_udp_port
        ≡ (pos 0, knock_of env item ∷ []))
      ⊎ (spa_knocking_gateway env sending item.ticket_packet item.ip item.app.gate_udp_port
          ≡ (minus_one, []))
unfolding spa_knocking_gateway udp_func_request
spa_knocking_gateway_cases env sending item = elim (Bool-cases (is_neg sending.fd)) [
  | inl a ↦ inr (ground arith)
  | inr a ↦ elim (Bool-cases (is_neg sending.ret)) [
    | inl b ↦ inr (ground arith)
    | inr b ↦ inl (ground arith)
  ]
]

module _ {K : Type 0} (env : Env K) where
  -- The outcome of knocking for a first part of the entries, once for each and in their order: the
  -- list has grown by these, and the code is 0 if no entry is left and -1 if one is.
  abbrev pub Knocked : List AccessItem → List AccessItem → ℤ × List AccessItem × List Sent → Type 0
  Knocked items list (ret, list', sent) =
      (knocked left : List AccessItem) × (items ≡ knocked ++ left)
      × (list' ≡ list ++ knocked)
      × (sent ≡ map (knock_of env) knocked)
      × (((ret ≡ pos 0) × (left ≡ [])) ⊎ ((ret ≡ minus_one) × (left ≢ [])))

module _ {K : Type 0} (env : Env K) (sendings : ℕ → Sending) where
  -- The loop of GetAccessibleAppList knocks for a first part of the entries, once for each and in
  -- their order; the list grows by these entries; it returns 0 if they are all of them, and -1 if
  -- some are left.
  pub knock_gateways_lem :
      (i : ℕ) (items list : List AccessItem)
      → Knocked env items list (knock_gateways env sendings i items list)
  unfolding knock_gateways
  knock_gateways_lem i [] list =
      ([], [], refl, ground (arith, append-nil list), refl, inl (refl, refl))
  knock_gateways_lem i (item ∷ items) list =
      elim (spa_knocking_gateway_cases env (sendings i) item) [
        | inl e ↦
            let (knocked, left, a, b, c, d) =
              knock_gateways_lem (i + 1) items (list ++ item ∷ []) in
            (
              item ∷ knocked,
              left,
              ap (λ l. item ∷ l) a,
              ground (arith, e, b, append_assoc list (item ∷ []) knocked),
              ground (arith, e, c),
              elim d [
                | inl (z, n) ↦ inl (ground (arith, e, z), n)
                | inr (z, n) ↦ inr (ground (arith, e, z), n)
              ],
            )
        | inr e ↦ (
          [],
          item ∷ items,
          refl,
          ground (arith, e, append-nil list),
          ground (arith, e),
          inr (ground (arith, e), λ p. cc),
        )
      ]

-- Not the name of an HTTPS application.
abbrev pub NotHttps : AccessItem → Type 0
NotHttps item = bytes_eq item.app.appname (txt "HTTPS") ≡ false

-- AccessApplication_HTTPS opens the first entry with the name HTTPS, at its address and its TCP
-- port, and returns 0 or -1 as that request is answered or not; with no such entry it returns -1
-- and sends nothing.
pub access_application_https_lem :
    (junk : ℤ) (network : Network) (before rest : List AccessItem) (item : AccessItem) {ret : ℤ}
    {response sent : Bytes}
    → All NotHttps before
    → item.app.appname ≡ txt "HTTPS"
    → app_func_https_request junk network
        (txt "https://www.sdpverificaton.com/test")
        []
        item.ip
        item.app.app_tcp_port
      ≡ done (ret, response, sent)
    → (access_application_https junk network (before ++ item ∷ rest)
        ≡ done (if is_neg ret then minus_one else pos 0, sent))
      × (access_application_https junk network before ≡ done (minus_one, []))
unfolding access_application_https find_https
access_application_https_lem junk network before rest item no_https name answer =
    (ground (arith, find_first before no_https, answer), ground (arith, find_none before no_https))
  where
    find_none : (l : List AccessItem) → All NotHttps l → find_https l ≡ none
    find_none [] h = refl
    find_none (x ∷ l) h = ground (arith, h.0, find_none l h.1)

    find_first : (l : List AccessItem) → All NotHttps l → find_https (l ++ item ∷ rest) ≡ some item
    find_first [] h = ground (arith, bytes_eq_iff item.app.appname (txt "HTTPS"))
    find_first (x ∷ l) h = ground (arith, h.0, find_first l h.1)
