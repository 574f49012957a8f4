-- ===== src/Controller/Register.antt =====
-- Permissions: what each update changes, and what the registration of applications gives to whom.
use sdpgateway_verification.Prelude.{
  ◌≡◌, refl, ap, ◌∙◌, Bool, false, not, ◌&&◌, ◌||◌, some, List, [], ◌∷◌, arith, if◌then◌else◌, pos,
  int_eq, Bytes, bytes_eq, bytes_eq_iff, txt,
}
use sdpgateway_verification.Map.{bytes_key, find, contains, insert, erase}
use sdpgateway_verification.Map.Laws.{find-assign, find-insert, find-erase}
use sdpgateway_verification.Messages.{AppItem}
use sdpgateway_verification.Controller.Config.{
  Controller, register_app, update_user_permission_add, update_user_permission_del, permissions_of,
  check_user_permission_allowed,
}
use sdpgateway_verification.Controller.{con_func_register_app, authorise, destination}

-- The account may access the destination.
unfoldable pub allowed : Bytes → Bytes → Controller → Bool
unfolding check_user_permission_allowed
allowed account dst c = int_eq (check_user_permission_allowed account dst c) (pos 0)

allowed_lem :
    (account dst : Bytes) (c : Controller)
    → allowed account dst c ≡ contains dst (permissions_of account c)
unfolding allowed
allowed_lem account dst c = ground arith

-- UpdateUserPerssion_Add allows the account the destination, UpdateUserPerssion_Del takes it away,
-- and neither changes another permission.
pub permission_updates :
    (a d account dst : Bytes) (c : Controller)
    → (allowed a d (update_user_permission_add account dst c).1
        ≡ (bytes_eq a account && bytes_eq d dst || allowed a d c))
      × (allowed a d (update_user_permission_del account dst c).1
          ≡ (not (bytes_eq a account && bytes_eq d dst) && allowed a d c))
unfolding update_user_permission_add update_user_permission_del allowed permissions_of
permission_updates a d account dst c = (
  ground (
    arith,
    bytes_eq_iff a account,
    bytes_eq_iff d dst,
    find-assign a account (insert dst (pos 1) (unfold permissions_of in permissions_of account c))
        c.permission_map,
    find-insert d dst (pos 1) (unfold permissions_of in permissions_of account c),
  ),
  ground (
    arith,
    bytes_eq_iff a account,
    bytes_eq_iff d dst,
    find-assign a account (erase dst (unfold permissions_of in permissions_of account c))
        c.permission_map,
    find-erase d dst (unfold permissions_of in permissions_of account c),
  ),
)

-- The destination is that of one of the items.
unfoldable pub is_destination : Bytes → Bytes → List AppItem → Bool
is_destination d ip [] = false
is_destination d ip (item ∷ items) = bytes_eq d (destination ip item) || is_destination d ip items

-- The accounts that a registration authorises.
unfoldable pub is_user : Bytes → Bool
is_user a = bytes_eq a (txt "xiaoming") || bytes_eq a (txt "xiaohong") || bytes_eq a (txt "xiaobai")

allowed-authorise :
    (a d ip : Bytes) (items : List AppItem) (c : Controller)
    → allowed a d (authorise ip items c) ≡ (is_user a && is_destination d ip items || allowed a d c)
unfolding authorise is_destination is_user
allowed-authorise a d ip [] c = ground arith
allowed-authorise a d ip (item ∷ items) c =
    let per = destination ip item in
    let c1 = (update_user_permission_add (txt "xiaoming") per c).1 in
    let c2 = (update_user_permission_add (txt "xiaohong") per c1).1 in
    ground (
      arith,
      allowed-authorise a d ip items (update_user_permission_add (txt "xiaobai") per c2).1,
      (permission_updates a d (txt "xiaobai") per c2).0,
      (permission_updates a d (txt "xiaohong") per c1).0,
      (permission_updates a d (txt "xiaoming") per c).0,
    )

app_map-add :
    (account dst : Bytes) (c : Controller)
    → (update_user_permission_add account dst c).1.app_map ≡ c.app_map
unfolding update_user_permission_add
app_map-add account dst c = ground arith

app_map-authorise :
    (ip : Bytes) (items : List AppItem) (c : Controller)
    → (authorise ip items c).app_map ≡ c.app_map
unfolding authorise
app_map-authorise ip [] c = refl
app_map-authorise ip (item ∷ items) c =
    app_map-authorise ip items _
    ∙ app_map-add (txt "xiaobai") (destination ip item) _
    ∙ app_map-add (txt "xiaohong") (destination ip item) _
    ∙ app_map-add (txt "xiaoming") (destination ip item) c

-- A registration of some items returns 0. It replaces the applications of its address and of no
-- other, and allows the three accounts the destinations of the items and nothing else.
pub con_func_register_app_lem :
    (ip : Bytes) (item : AppItem) (items : List AppItem) (c : Controller) (a d j : Bytes)
    → let r = con_func_register_app ip (record { app_list = item ∷ items }) c in
      (r.0 ≡ pos 0)
      × (find j r.1.app_map ≡ (if bytes_eq j ip then some (item ∷ items) else find j c.app_map))
      × (allowed a d r.1 ≡ (is_user a && is_destination d ip (item ∷ items) || allowed a d c))
unfolding con_func_register_app register_app
con_func_register_app_lem ip item items c a d j = (
  refl,
  ap (find j) (
        app_map-authorise ip (item ∷ items)
          (unfold register_app in register_app ip (item ∷ items) c))
      ∙ find-assign j ip (item ∷ items) c.app_map,
  allowed-authorise a d ip (item ∷ items) (unfold register_app in register_app ip (item ∷ items) c)
      ∙ ap (λ b. is_user a && is_destination d ip (item ∷ items) || b) (unfold allowed in refl),
)
