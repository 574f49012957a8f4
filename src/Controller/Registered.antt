-- ===== src/Controller/Registered.antt =====
-- A registered application in the access list of ConFuncGetAccess, where every ticket can be made.
use sdpgateway_verification.Prelude.{
  ℕ, ◌≡◌, refl, sym, subst, true, some, List, [], ◌∷◌, ◌++◌, arith, pos, Bytes, bytes_eq,
  bytes_eq_iff, Any, here, there, Any-left, Any-right, done, Bool-cases, inl, inr, length,
}
use mathlib.Core.List.{map}
use sdpgateway_verification.Map.{Map, bytes_key, find}
use sdpgateway_verification.CommDef.{rsa_pri_key_controller, rsa_pub_key_gateway}
use sdpgateway_verification.Messages.{AppItem, AccessItem, GetAccessReq, Ticket, TicketPacket}
use sdpgateway_verification.Env.{Env}
use sdpgateway_verification.Spa.{success, encrypt_ticket}
use sdpgateway_verification.Controller.Config.{Controller}
use sdpgateway_verification.Controller.{
  con_func_get_access, grant_apps, grant_items, grant_item, destination, new_ticket,
}
use sdpgateway_verification.Controller.Register.{allowed}
use sdpgateway_verification.Controller.Access.{
  app_of, allowed_items, allowed_apps, con_func_get_access_lem,
}

-- EncryptTicket succeeds with the controller's and the gateway's key files.
abbrev pub MakesTickets : {K : Type 0} → Env K → Type 0
MakesTickets env =
    (ticket : Ticket)
    → (packet : TicketPacket) × (encrypt_ticket env.ssl env.ticket ticket rsa_pri_key_controller
          rsa_pub_key_gateway
        ≡ done (success packet))

module _ {K : Type 0} (env : Env K) (makes : MakesTickets env) (stamp : ℕ → ℕ × ℕ)
    (socket_ip acc : Bytes) (c : Controller) where
  grant_item_succeeds :
      (ip : Bytes) (item : AppItem) (rsp : List AccessItem)
      → (rsp' : List AccessItem) × (grant_item env stamp socket_ip acc c ip item rsp
          ≡ done (pos 0, rsp'))
  unfolding grant_item allowed
  grant_item_succeeds ip item rsp = elim (Bool-cases (allowed acc (destination ip item) c)) [
    | inr denied ↦ (rsp, ground (arith, denied))
    | inl right ↦
        let (packet, made) = makes (new_ticket socket_ip (stamp (length rsp))) in
        (
          rsp ++ record { ip = ip; app = item; ticket_packet = packet } ∷ [],
          ground (arith, right, made),
        )
  ]

  grant_items_succeed :
      (ip : Bytes) (items : List AppItem) (rsp : List AccessItem)
      → (rsp' : List AccessItem) × (grant_items env stamp socket_ip acc c ip items rsp
          ≡ done (pos 0, rsp'))
  unfolding grant_items
  grant_items_succeed ip [] rsp = (rsp, refl)
  grant_items_succeed ip (item ∷ items) rsp =
      let (rsp1, one) = grant_item_succeeds ip item rsp in
      let (rsp2, more) = grant_items_succeed ip items rsp1 in (rsp2, ground (arith, one, more))

  grant_apps_succeed :
      (apps : Map Bytes (List AppItem)) (rsp : List AccessItem)
      → (rsp' : List AccessItem) × (grant_apps env stamp socket_ip acc c apps rsp
          ≡ done (pos 0, rsp'))
  unfolding grant_apps
  grant_apps_succeed [] rsp = (rsp, refl)
  grant_apps_succeed ((ip, items) ∷ apps) rsp =
      let (rsp1, one) = grant_items_succeed ip items rsp in
      let (rsp2, more) = grant_apps_succeed apps rsp1 in (rsp2, ground (arith, one, more))

-- An application that the account may access, registered first at its address, is in the list.
allowed_apps-has :
    (acc ip : Bytes) (item : AppItem) (items : List AppItem) (c : Controller)
    (apps : Map Bytes (List AppItem))
    → allowed acc (destination ip item) c ≡ true
    → find ip apps ≡ some (item ∷ items)
    → Any (λ p. p ≡ (ip, item)) (allowed_apps acc c apps)
unfolding allowed_apps allowed_items find
allowed_apps-has acc ip item items c [] right known = absurd cc
allowed_apps-has acc ip item items c ((j, those) ∷ apps) right known =
    elim (Bool-cases (bytes_eq ip j)) [
      | inl same ↦
          let at : ip ≡ j = (bytes_eq_iff ip j).0 same in
          let first : those ≡ item ∷ items = ground (arith, same, known) in
          Any-left (λ p. p ≡ (ip, item)) (allowed_apps acc c apps)
            (subst (λ l. Any (λ p. p ≡ (ip, item)) (allowed_items acc c j l)) (sym first)
              (subst (λ x. Any (λ p. p ≡ (ip, item)) (allowed_items acc c x (item ∷ items))) at
                (rw right (here refl))))
      | inr other ↦
          Any-right (λ p. p ≡ (ip, item)) (allowed_items acc c j those)
            (allowed_apps-has acc ip item items c apps right (ground (arith, other, known)))
    ]

Any-app_of :
    (p : Bytes × AppItem) (rsp : List AccessItem)
    → Any (λ q. q ≡ p) (map app_of rsp)
    → Any (λ a. app_of a ≡ p) rsp
Any-app_of p [] h = elim h [ ]
Any-app_of p (a ∷ rsp) (here e) = here e
Any-app_of p (a ∷ rsp) (there h) = there (Any-app_of p rsp h)

-- ConFuncGetAccess succeeds, and lists the application for the account.
pub con_func_get_access_lists :
    {K : Type 0} (env : Env K) (stamp : ℕ → ℕ × ℕ) (socket_ip ip : Bytes) (req : GetAccessReq)
    (item : AppItem) (items : List AppItem) (c : Controller)
    → MakesTickets env
    → allowed req.account.acc (destination ip item) c ≡ true
    → find ip c.app_map ≡ some (item ∷ items)
    → (rsp : List AccessItem) × (con_func_get_access env stamp socket_ip req c ≡ done (pos 0, rsp))
      × Any (λ a. app_of a ≡ (ip, item)) rsp
unfolding con_func_get_access
con_func_get_access_lists env stamp socket_ip ip req item items c makes right known =
    let (rsp, made) = grant_apps_succeed env makes stamp socket_ip req.account.acc c c.app_map [] in
    let (same, _) = con_func_get_access_lem env stamp socket_ip req c {rsp = rsp} made in
    (
      rsp,
      made,
      Any-app_of (ip, item) rsp
          (subst (Any (λ q. q ≡ (ip, item))) (sym same)
            (allowed_apps-has req.account.acc ip item items c c.app_map right known)),
    )
