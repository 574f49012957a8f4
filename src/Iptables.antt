-- ===== src/Iptables.antt =====
-- comm/iptools/iptables_tool.{h,cpp}: the tool that runs iptables commands, and the white list that
-- is meant to stay in step with the rules. Built with IP_TABLES_EXECUTE, as comm_def.h sets it.
pub mod Rules
pub mod Chain
pub mod Sync
pub mod Seeded
pub mod Members
use sdpgateway_verification.Prelude.{
  ◌≡◌, refl, Bool, true, false, not, Option, none, some, List, [], ◌∷◌, ◌++◌, if◌then◌else◌, ℤ, pos,
  minus_one, int_eq, Bytes, txt, to_string,
}
use sdpgateway_verification.Tlog.{i_assert}
use sdpgateway_verification.Map.{Map, bytes_key, find, insert, erase}

-- The commands that the program runs; `render` gives the text of each.
pub data Command : Type 0 where
  zero_counters delete_chains flush : Command
  drop_all_on : ℤ → Command
  accept : Bytes → ℤ → Command
  unaccept : Bytes → ℤ → Command

unfoldable pub render : Command → Bytes
render zero_counters = txt "iptables -Z"
render delete_chains = txt "iptables -X"
render flush = txt "iptables -F"
render (drop_all_on port) =
    txt "iptables -I INPUT -p tcp --dport " ++ to_string port ++ txt " -j DROP"
render (accept ip port) =
    txt "iptables -I INPUT -s "
    ++ ip
    ++ txt " -p tcp --dport "
    ++ to_string port
    ++ txt " -j ACCEPT"
render (unaccept ip port) =
    txt "iptables -D INPUT -s "
    ++ ip
    ++ txt " -p tcp --dport "
    ++ to_string port
    ++ txt " -j ACCEPT"

-- What the shell has been given, newest first, and the status that `system` returns for a text.
pub record Shell : Type 0 where
  pub executed : List Command
  pub status : List Command → Bytes → ℤ

-- _ExecuteCmd
unfoldable pub execute_cmd : Command → Shell → ℤ × Shell
unfolding render
execute_cmd cmd sh =
    let ret = sh.status sh.executed (render cmd) in
    (if int_eq ret (pos 0) then pos 0 else minus_one, record sh { executed = cmd ∷ sh.executed })

-- IptablesTools(): the local `ret` is tested, and stays 0.
unfoldable pub iptables_tools : Shell → Shell
unfolding execute_cmd
iptables_tools sh =
    (execute_cmd flush (execute_cmd delete_chains (execute_cmd zero_counters sh).1).1).1

-- BanUser and UnbanUser return their own `ret`, which is 0, and not that of the command.
unfoldable pub ban_user : Bytes → ℤ → Shell → ℤ × Shell
unfolding execute_cmd
ban_user ip port sh = (pos 0, (execute_cmd (unaccept ip port) sh).1)

unfoldable pub unban_user : Bytes → ℤ → Shell → ℤ × Shell
unfolding execute_cmd
unban_user ip port sh = (pos 0, (execute_cmd (accept ip port) sh).1)

unfoldable pub unban_all : List Bytes → ℤ → Shell → ℤ × Shell
unfolding unban_user
unban_all [] port sh = (pos 0, sh)
unban_all (ip ∷ ips) port sh =
    let (ret, sh') = unban_user ip port sh in
    let rest = unban_all ips port sh' in i_assert ret (minus_one, sh') rest

-- IptablesInit
unfoldable pub iptables_init : List Bytes → ℤ → Shell → ℤ × Shell
unfolding unban_all execute_cmd
iptables_init whitelist port sh = unban_all whitelist port (execute_cmd (drop_all_on port) sh).1

-- IP_TABLE_LIST_OP
abbrev pub ip_white_list_add : ℤ
ip_white_list_add = pos 1

abbrev pub ip_white_list_del : ℤ
ip_white_list_del = pos 2

abbrev pub ip_black_list_add : ℤ
ip_black_list_add = pos 3

abbrev pub ip_black_list_del : ℤ
ip_black_list_del = pos 4

-- IPWhiteList: the map is keyed by the address alone, and holds one port for it.
pub record WhiteList : Type 0 where
  pub ip_white_list : Map Bytes ℤ
  pub iptool : Shell

abbrev has_port : ℤ → Option ℤ → Bool
has_port port none = false
has_port port (some p) = int_eq p port

unfoldable pub is_ip_in_white_list : Bytes → ℤ → WhiteList → Bool
unfolding find
is_ip_in_white_list ip port w = has_port port (find ip w.ip_white_list)

add_rule : Bytes → ℤ → WhiteList → ℤ × WhiteList
unfolding unban_user insert
add_rule ip port w =
    let (ret, sh) = unban_user ip port w.iptool in
    let w' = record w { ip_white_list = insert ip port w.ip_white_list; iptool = sh } in
    i_assert ret (minus_one, w') (pos 0, w')

del_rule : Bytes → ℤ → WhiteList → ℤ × WhiteList
unfolding ban_user erase
del_rule ip port w =
    let (ret, sh) = ban_user ip port w.iptool in
    let w' = record w { ip_white_list = erase ip w.ip_white_list; iptool = sh } in
    i_assert ret (minus_one, w') (pos 0, w')

-- OpWhiteList
unfoldable pub op_white_list : ℤ → Bytes → ℤ → WhiteList → ℤ × WhiteList
unfolding is_ip_in_white_list add_rule del_rule
op_white_list op ip port w =
    let has_rule = is_ip_in_white_list ip port w in
    if int_eq op ip_white_list_add
    then (if has_rule then (minus_one, w) else add_rule ip port w)
    else if int_eq op ip_white_list_del
    then (if not has_rule then (minus_one, w) else del_rule ip port w)
    else (pos 0, w)

-- The loop of InitWhiteList: each address goes in with the value 1.
unfoldable pub seed : List Bytes → Map Bytes ℤ → Map Bytes ℤ
unfolding insert
seed [] m = m
seed (ip ∷ ips) m = seed ips (insert ip (pos 1) m)

-- InitWhiteList
unfoldable pub init_white_list : List Bytes → ℤ → WhiteList → ℤ × WhiteList
unfolding seed iptables_init
init_white_list whitelist port w =
    let (ret, sh) = iptables_init whitelist port w.iptool in
    let w' = record w { ip_white_list = seed whitelist w.ip_white_list; iptool = sh } in
    i_assert ret (minus_one, w') (pos 0, w')

-- A new IPWhiteList: an empty map, and the tool's constructor has run.
unfoldable pub new_white_list : Shell → WhiteList
unfolding iptables_tools
new_white_list sh = record { ip_white_list = []; iptool = iptables_tools sh }
