-- ===== src/Iptables/Seeded.antt =====
-- The entries that InitWhiteList of comm/iptools/iptables_tool.cpp writes.
use sdpgateway_verification.Prelude.{
  ℕ, ◌≤◌, ◌<◌, ◌≡◌, refl, false, none, some, List, [], ◌∷◌, arith, ℤ, pos, int_eq_iff, Bytes,
  bytes_eq, bytes_eq_iff, minus_one, ◌≢◌, Bool-cases, inl, inr,
}
use sdpgateway_verification.Map.{Map, bytes_key, find}
use sdpgateway_verification.Map.Laws.{find-insert, find-erase}
use sdpgateway_verification.Iptables.{
  WhiteList, Shell, op_white_list, is_ip_in_white_list, new_white_list, init_white_list, seed,
  ip_white_list_del, iptables_init, execute_cmd, drop_all_on,
}
use sdpgateway_verification.Iptables.Rules.{accepts, occurrences, unban_all_lem}

-- A call of OpWhiteList: operation, address, port.
pub record Call : Type 0 where
  pub op : ℤ
  pub ip : Bytes
  pub port : ℤ

unfoldable pub calls : List Call → WhiteList → WhiteList
calls [] w = w
calls (c ∷ cs) w = calls cs (op_white_list c.op c.ip c.port w).1

-- No call uses the number 1 as its port.
abbrev pub PortsNotOne : List Call → Type 0
PortsNotOne [] = Unit {0}
PortsNotOne (c ∷ cs) = (c.port ≢ pos 1) × PortsNotOne cs

seed_keeps :
    (ips : List Bytes) (m : Map Bytes ℤ) (ip : Bytes)
    → find ip m ≡ some (pos 1)
    → find ip (seed ips m) ≡ some (pos 1)
unfolding seed
seed_keeps [] m ip h = h
seed_keeps (x ∷ ips) m ip h = seed_keeps ips _ ip (ground (arith, find-insert ip x (pos 1) m))

seed_finds :
    (ips : List Bytes) (m : Map Bytes ℤ) (ip : Bytes)
    → 0 < occurrences ip ips
    → find ip m ≡ none
    → find ip (seed ips m) ≡ some (pos 1)
unfolding seed occurrences
seed_finds [] m ip h f = absurd (omega arith)
seed_finds (x ∷ ips) m ip h f = elim (Bool-cases (bytes_eq ip x)) [
  | inl same ↦ seed_keeps ips _ ip (ground (arith, find-insert ip x (pos 1) m, bytes_eq_iff ip x))
  | inr other ↦ seed_finds ips _ ip (ground arith) (ground (arith, find-insert ip x (pos 1) m))
]

-- The entry has the value 1, and at least `n` rules accept the address on `port`.
record IsStuck (ip : Bytes) (port : ℤ) (n : ℕ) (w : WhiteList) : Type 0 where
  entry : find ip w.ip_white_list ≡ some (pos 1)
  ruled : n ≤ accepts ip port w.iptool.executed

op_white_list-IsStuck :
    (c : Call) (ip : Bytes) (port : ℤ) (n : ℕ) (w : WhiteList)
    → c.port ≢ pos 1
    → IsStuck ip port n w
    → IsStuck ip port n (op_white_list c.op c.ip c.port w).1
unfolding op_white_list accepts
op_white_list-IsStuck c ip port n w p h = record {
  entry = ground (
    arith,
    h.entry,
    find-insert ip c.ip c.port w.ip_white_list,
    find-erase ip c.ip w.ip_white_list,
    bytes_eq_iff ip c.ip,
    int_eq_iff (pos 1) c.port,
  );
  ruled = ground (arith, h.entry, h.ruled, bytes_eq_iff ip c.ip, int_eq_iff (pos 1) c.port);
}

calls-IsStuck :
    (cs : List Call) (ip : Bytes) (port : ℤ) (n : ℕ) (w : WhiteList)
    → PortsNotOne cs
    → IsStuck ip port n w
    → IsStuck ip port n (calls cs w)
unfolding calls
calls-IsStuck [] ip port n w p h = h
calls-IsStuck (c ∷ cs) ip port n w p h =
    calls-IsStuck cs ip port n _ p.1 (op_white_list-IsStuck c ip port n w p.0 h)

init_white_list-IsStuck :
    (ips : List Bytes) (port : ℤ) (sh : Shell) (ip : Bytes)
    → 0 < occurrences ip ips
    → IsStuck ip port (occurrences ip ips) (init_white_list ips port (new_white_list sh)).1
unfolding init_white_list iptables_init new_white_list find
init_white_list-IsStuck ips port sh ip h = record {
  entry = ground (
    arith,
    unban_all_lem ips port (execute_cmd (drop_all_on port) (new_white_list sh).iptool).1 ip,
    seed_finds ips [] ip h refl,
  );
  ruled = ground (
    arith,
    unban_all_lem ips port (execute_cmd (drop_all_on port) (new_white_list sh).iptool).1 ip,
  );
}

-- An address of the initial list, of a port other than 1: whatever calls of OpWhiteList follow, as
-- long as none uses the number 1 as a port, the list does not show it, taking it off fails and
-- changes nothing, and its rules are never fewer than the list had entries of it.
pub seeded_entry_stays :
    (ips : List Bytes) (port : ℤ) (sh : Shell) (ip : Bytes) (cs : List Call)
    → port ≢ pos 1
    → 0 < occurrences ip ips
    → PortsNotOne cs
    → let w = calls cs (init_white_list ips port (new_white_list sh)).1 in
      (is_ip_in_white_list ip port w ≡ false)
      × (op_white_list ip_white_list_del ip port w ≡ (minus_one, w))
      × (occurrences ip ips ≤ accepts ip port w.iptool.executed)
unfolding is_ip_in_white_list op_white_list
seeded_entry_stays ips port sh ip cs q h p =
    let stuck = calls-IsStuck cs ip port _ _ p (init_white_list-IsStuck ips port sh ip h) in
    ground (arith, stuck.entry, stuck.ruled, int_eq_iff (pos 1) port)
