-- ===== src/Controller/Access.antt =====
-- The access list that ConFuncGetAccess builds.
use sdpgateway_verification.Prelude.{
  ℕ, ◌≡◌, refl, ap, sym, subst, ◌∙◌, Bool, true, false, List, [], ◌∷◌, ◌++◌, arith, append_assoc,
  append-nil, if◌then◌else◌, ℤ, pos, minus_one, is_neg, Bytes, length, All, All-append, done,
  Outcome-cases, Bool-cases, inl, inr,
}
use mathlib.Core.List.{map, map-append}
use sdpgateway_verification.Map.{Map}
use sdpgateway_verification.CommDef.{rsa_pri_key_controller, rsa_pub_key_gateway}
use sdpgateway_verification.Messages.{AppItem, AccessItem, GetAccessReq, Ticket}
use sdpgateway_verification.Env.{Env}
use sdpgateway_verification.Spa.{failed, success, encrypt_ticket}
use sdpgateway_verification.Controller.Config.{Controller}
use sdpgateway_verification.Controller.{
  con_func_get_access, grant_apps, grant_items, grant_item, destination, new_ticket,
}
use sdpgateway_verification.Controller.Register.{allowed}

-- The independent description: the applications of the account, gateway by gateway in the order of
-- their addresses, each gateway's in the order of its registration.
unfoldable pub allowed_items : Bytes → Controller → Bytes → List AppItem → List (Bytes × AppItem)
allowed_items acc c ip [] = []
allowed_items acc c ip (item ∷ items) =
    let rest = allowed_items acc c ip items in
    if allowed acc (destination ip item) c then (ip, item) ∷ rest else rest

unfoldable pub allowed_apps : Bytes → Controller → Map Bytes (List AppItem) → List (Bytes × AppItem)
allowed_apps acc c [] = []
allowed_apps acc c ((ip, items) ∷ apps) = allowed_items acc c ip items ++ allowed_apps acc c apps

abbrev pub app_of : AccessItem → Bytes × AppItem
app_of a = (a.ip, a.app)

encrypt_ticket_failed :
    {K : Type 0} (env : Env K) (ticket : Ticket) (a b : Bytes) {ret : ℤ}
    → encrypt_ticket env.ssl env.ticket ticket a b ≡ done (failed ret)
    → ret ≡ minus_one
unfolding encrypt_ticket
encrypt_ticket_failed env ticket a b h = ground arith

module _ {K : Type 0} (env : Env K) (stamp : ℕ → ℕ × ℕ) (socket_ip acc : Bytes)
    (c : Controller) where
  -- The item carries a ticket for the address of the caller, as the ticket tool made it.
  abbrev pub HasTicket : AccessItem → Type 0
  HasTicket a =
      (i : ℕ) × (encrypt_ticket env.ssl env.ticket (new_ticket socket_ip (stamp i))
          rsa_pri_key_controller rsa_pub_key_gateway
        ≡ done (success a.ticket_packet))

  -- A response that has grown by the given applications, each with its ticket.
  abbrev Grown : List AccessItem → List (Bytes × AppItem) → ℤ × List AccessItem → Type 0
  Grown rsp apps r =
      (added : List AccessItem) × (r.1 ≡ rsp ++ added)
      × (map app_of added ≡ apps)
      × All HasTicket added

  grant_item_lem :
      (ip : Bytes) (item : AppItem) (rsp : List AccessItem) {r : ℤ × List AccessItem}
      → grant_item env stamp socket_ip acc c ip item rsp ≡ done r
      → is_neg r.0 ≡ false
      → Grown rsp (if allowed acc (destination ip item) c then (ip, item) ∷ [] else []) r
  unfolding grant_item allowed
  grant_item_lem ip item rsp {r} h z = elim (Bool-cases (allowed acc (destination ip item) c)) [
    | inr denied ↦ ([], ground (arith, append-nil rsp), rw denied, tt)
    | inl right ↦
        elim (Outcome-cases (
          encrypt_ticket env.ssl env.ticket (new_ticket socket_ip (stamp (length rsp)))
            rsa_pri_key_controller rsa_pub_key_gateway)) [
              | inr (f, e) ↦ absurd (ground (arith, e, right))
              | inl (failed ret, e) ↦
                  absurd (ground (arith, e, right, encrypt_ticket_failed env _ _ _ e))
              | inl (success packet, e) ↦ (
                record { ip = ip; app = item; ticket_packet = packet } ∷ [],
                ground (arith, e, right),
                rw right,
                ((length rsp, e), tt),
              )
            ]
  ]

  Grown-step :
      (rsp : List AccessItem) (xs ys : List (Bytes × AppItem)) (q r : ℤ × List AccessItem)
      → Grown rsp xs q
      → Grown q.1 ys r
      → Grown rsp (xs ++ ys) r
  Grown-step rsp xs ys q r (a, ea, ma, ta) (b, eb, mb, tb) = (
    a ++ b,
    eb ∙ ap (λ l. l ++ b) ea ∙ append_assoc rsp a b,
    map-append app_of a b ∙ ap (λ l. l ++ map app_of b) ma ∙ ap (λ l. xs ++ l) mb,
    All-append HasTicket a b ta tb,
  )

  grant_items_lem :
      (ip : Bytes) (items : List AppItem) (rsp : List AccessItem) {r : ℤ × List AccessItem}
      → grant_items env stamp socket_ip acc c ip items rsp ≡ done r
      → is_neg r.0 ≡ false
      → Grown rsp (allowed_items acc c ip items) r
  unfolding grant_items allowed_items
  grant_items_lem ip [] rsp h z = ([], ground (arith, append-nil rsp), refl, tt)
  grant_items_lem ip (item ∷ items) rsp {r} h z =
      elim (Outcome-cases (grant_item env stamp socket_ip acc c ip item rsp)) [
        | inr (f, e) ↦ absurd (ground (arith, e))
        | inl (q, e) ↦ elim (Bool-cases (is_neg q.0)) [
          | inl bad ↦ absurd (ground (arith, e))
          | inr good ↦
              let one : List (Bytes × AppItem) =
                if allowed acc (destination ip item) c then (ip, item) ∷ [] else [] in
              let grown =
                Grown-step rsp one (allowed_items acc c ip items) q r
                  (grant_item_lem ip item rsp {r = q} e good)
                  (grant_items_lem ip items q.1 {r = r} (ground (arith, e)) z) in
              subst (λ l. Grown rsp l r) (one_more (allowed acc (destination ip item) c)) grown
        ]
      ]
    where
      one_more :
          (b : Bool)
          → (if b then (ip, item) ∷ [] else []) ++ allowed_items acc c ip items ≡ (
              if b then (ip, item) ∷ allowed_items acc c ip items else allowed_items acc c ip items)
      one_more true = refl
      one_more false = refl

  grant_apps_lem :
      (apps : Map Bytes (List AppItem)) (rsp : List AccessItem) {r : ℤ × List AccessItem}
      → grant_apps env stamp socket_ip acc c apps rsp ≡ done r
      → is_neg r.0 ≡ false
      → Grown rsp (allowed_apps acc c apps) r
  unfolding grant_apps allowed_apps
  grant_apps_lem [] rsp h z = ([], ground (arith, append-nil rsp), refl, tt)
  grant_apps_lem ((ip, items) ∷ apps) rsp {r} h z =
      elim (Outcome-cases (grant_items env stamp socket_ip acc c ip items rsp)) [
        | inr (f, e) ↦ absurd (ground (arith, e))
        | inl (q, e) ↦ elim (Bool-cases (is_neg q.0)) [
          | inl bad ↦ absurd (ground (arith, e))
          | inr good ↦
              Grown-step rsp (allowed_items acc c ip items) (allowed_apps acc c apps) q r
                (grant_items_lem ip items rsp {r = q} e good)
                (grant_apps_lem apps q.1 {r = r} (ground (arith, e)) z)
        ]
      ]

-- Where ConFuncGetAccess returns 0, the response lists the registered applications that the account
-- may access and no other, in the order of the map and of each registration, and each entry
-- carries a ticket that EncryptTicket made for the address of the caller.
pub con_func_get_access_lem :
    {K : Type 0} (env : Env K) (stamp : ℕ → ℕ × ℕ) (socket_ip : Bytes) (req : GetAccessReq)
    (c : Controller) {rsp : List AccessItem}
    → con_func_get_access env stamp socket_ip req c ≡ done (pos 0, rsp)
    → (map app_of rsp ≡ allowed_apps req.account.acc c c.app_map)
      × All (HasTicket env stamp socket_ip req.account.acc c) rsp
unfolding con_func_get_access
con_func_get_access_lem env stamp socket_ip req c {rsp} h =
    let (added, e, same, tickets) =
      grant_apps_lem env stamp socket_ip req.account.acc c c.app_map [] {r = (pos 0, rsp)} h refl in
    (
      ap (map app_of) e ∙ same,
      subst (All (HasTicket env stamp socket_ip req.account.acc c)) (sym e) tickets,
    )
