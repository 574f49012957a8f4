-- ===== src/Controller/Config.antt =====
-- modules/controller/sdp_controller_config.{h,cpp}: accounts, permissions, applications, digests.
use sdpgateway_verification.Prelude.{
  Bool, true, false, not, Option, none, some, List, [], ◌∷◌, if◌then◌else◌, ℤ, pos, negsuc,
  minus_one, Bytes, bytes_eq, txt,
}
use sdpgateway_verification.Map.{Map, bytes_key, find, contains, assign, insert, erase}
use sdpgateway_verification.Messages.{AppItem}
use sdpgateway_verification.Iptables.{WhiteList, Shell, new_white_list}

pub record Controller : Type 0 where
  pub whitelist : WhiteList
  pub listen_ip : Bytes
  pub tcp_port : ℤ
  pub udp_port : ℤ
  pub md5_map : Map Bytes ℤ
  pub app_map : Map Bytes (List AppItem)
  pub permission_map : Map Bytes (Map Bytes ℤ)
  pub user_account_map : Map Bytes Bytes

-- SDPControllerConfig()
unfoldable pub new_controller_config : Shell → Controller
unfolding new_white_list insert
new_controller_config sh = record {
  whitelist = new_white_list sh;
  listen_ip = [];
  tcp_port = pos 0;
  udp_port = pos 0;
  md5_map = [];
  app_map = [];
  permission_map = [];
  user_account_map =
      insert (txt "xiaobai") (txt "123456")
        (insert (txt "xiaohong") (txt "123456") (insert (txt "xiaoming") (txt "123456") []));
}

unfoldable pub set_listen_info : Bytes → ℤ → ℤ → Controller → Controller
set_listen_info ip tcp_port udp_port c = record c {
  listen_ip = ip;
  tcp_port = tcp_port;
  udp_port = udp_port;
}

unfoldable pub query_and_insert_md5 : Bytes → Controller → ℤ × Controller
unfolding find insert
query_and_insert_md5 md5 c =
    if contains md5 c.md5_map
    then (minus_one, c)
    else (pos 0, record c { md5_map = insert md5 (pos 1) c.md5_map })

unfoldable pub register_app : Bytes → List AppItem → Controller → Controller
unfolding assign
register_app ip [] c = c
register_app ip (item ∷ items) c = record c { app_map = assign ip (item ∷ items) c.app_map }

-- m[account] of a map of maps: an empty map where there is none.
unfoldable pub permissions_of : Bytes → Controller → Map Bytes ℤ
unfolding find
permissions_of account c = elim (find account c.permission_map) [ none ↦ [] | some dsts ↦ dsts ]

unfoldable pub update_user_permission_add : Bytes → Bytes → Controller → ℤ × Controller
unfolding permissions_of assign insert
update_user_permission_add account dst c =
    if contains dst (permissions_of account c) then (pos 1, c) else (
      pos 0,
      record c {
        permission_map =
            assign account (insert dst (pos 1) (permissions_of account c)) c.permission_map;
      },
    )

unfoldable pub update_user_permission_del : Bytes → Bytes → Controller → ℤ × Controller
unfolding permissions_of assign erase
update_user_permission_del account dst c =
    if contains dst (permissions_of account c)
    then (
      pos 0,
      record c {
        permission_map = assign account (erase dst (permissions_of account c)) c.permission_map;
      },
    )
    else (pos 1, c)

abbrev passwd_matches : Bytes → Option Bytes → ℤ
passwd_matches passwd none = minus_one
passwd_matches passwd (some p) = if not (bytes_eq p passwd) then negsuc 1 else pos 0

unfoldable pub check_user_passwd : Bytes → Bytes → Controller → ℤ
unfolding find
check_user_passwd account passwd c = passwd_matches passwd (find account c.user_account_map)

abbrev is_empty : Map Bytes ℤ → Bool
is_empty [] = true
is_empty (x ∷ m) = false

unfoldable pub check_user_permission_exists : Bytes → Controller → ℤ
unfolding permissions_of
check_user_permission_exists account c =
    if not (is_empty (permissions_of account c)) then pos 0 else negsuc 2

unfoldable pub check_user_permission_allowed : Bytes → Bytes → Controller → ℤ
unfolding permissions_of find
check_user_permission_allowed account dst c =
    if contains dst (permissions_of account c) then pos 0 else minus_one
