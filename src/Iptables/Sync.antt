-- ===== src/Iptables/Sync.antt =====
-- The white list of comm/iptools/iptables_tool.cpp against the rules, for one address.
use sdpgateway_verification.Prelude.{
  ◌≡◌, refl, Option, none, some, List, [], ◌∷◌, arith, if◌then◌else◌, ℤ, pos, int_eq_iff, Bytes,
  bytes_eq_iff, ◌∙◌,
}
use sdpgateway_verification.Map.{Map, bytes_key, find, insert}
use sdpgateway_verification.Map.Laws.{find-insert, find-erase}
use sdpgateway_verification.Iptables.{
  WhiteList, Shell, op_white_list, is_ip_in_white_list, new_white_list, init_white_list, seed,
  unban_all, unban_user, execute_cmd, drop_all_on,
}
use sdpgateway_verification.Iptables.Rules.{accepts, occurrences, unban_all_ret}

-- An entry of the list, if there is one, carries the port.
abbrev pub AtPort : ℤ → Option ℤ → Type 0
AtPort port none = Unit {0}
AtPort port (some p) = p ≡ port

-- In step for an address: listed at the port and with one rule, or not listed and without a rule.
pub record InStep (ip : Bytes) (port : ℤ) (w : WhiteList) : Type 0 where
  pub entry : AtPort port (find ip w.ip_white_list)
  pub rules : accepts ip port w.iptool.executed ≡ (if is_ip_in_white_list ip port w then 1 else 0)

module _ (ip : Bytes) (port : ℤ) where
  pub new_white_list-InStep : (sh : Shell) → InStep ip port (new_white_list sh)
  unfolding new_white_list find accepts is_ip_in_white_list
  new_white_list-InStep sh = record { entry = tt; rules = refl }

  -- Whatever the operation code and the address, OpWhiteList at the port keeps every address in
  -- step that was.
  pub op_white_list-InStep :
      (op : ℤ) (ip' : Bytes) (w : WhiteList)
      → InStep ip port w
      → InStep ip port (op_white_list op ip' port w).1
  unfolding op_white_list accepts
  op_white_list-InStep op ip' w h = record {
    entry = ground (
      arith,
      h.entry,
      find-insert ip ip' port w.ip_white_list,
      find-erase ip ip' w.ip_white_list,
      bytes_eq_iff ip ip',
    );
    rules = ground (
      arith,
      h.entry,
      h.rules,
      find-insert ip ip' port w.ip_white_list,
      find-erase ip ip' w.ip_white_list,
      bytes_eq_iff ip ip',
      int_eq_iff port port,
    );
  }

  seed_other :
      (ips : List Bytes) (m : Map Bytes ℤ)
      → occurrences ip ips ≡ 0
      → find ip (seed ips m) ≡ find ip m
  unfolding seed occurrences
  seed_other [] m h = refl
  seed_other (x ∷ ips) m h =
      seed_other ips (insert x (pos 1) m) (ground arith)
      ∙ ground (arith, find-insert ip x (pos 1) m, bytes_eq_iff ip x)

  -- Rules for other addresses, at whatever port.
  unban_all_other :
      (ips : List Bytes) (q : ℤ) (sh : Shell)
      → occurrences ip ips ≡ 0
      → accepts ip port (unban_all ips q sh).1.executed ≡ accepts ip port sh.executed
  unfolding unban_all accepts occurrences
  unban_all_other [] q sh h = refl
  unban_all_other (x ∷ ips) q sh h =
      unban_all_other ips q (unban_user x q sh).1 (ground arith) ∙ ground arith

  -- InitWhiteList, for whatever port, keeps the addresses in step that it is not given.
  pub init_white_list-InStep :
      (ips : List Bytes) (q : ℤ) (w : WhiteList)
      → occurrences ip ips ≡ 0
      → InStep ip port w
      → InStep ip port (init_white_list ips q w).1
  unfolding init_white_list accepts is_ip_in_white_list
  init_white_list-InStep ips q w h s = record {
    entry = ground (
      arith,
      s.entry,
      seed_other ips w.ip_white_list h,
      unban_all_ret ips q (execute_cmd (drop_all_on q) w.iptool).1,
    );
    rules = ground (
      arith,
      s.rules,
      seed_other ips w.ip_white_list h,
      unban_all_other ips q (execute_cmd (drop_all_on q) w.iptool).1 h,
      unban_all_ret ips q (execute_cmd (drop_all_on q) w.iptool).1,
    );
  }

  -- InitWhiteList adds no rule for the addresses that it is not given.
  pub accepts-init_white_list :
      (ips : List Bytes) (q : ℤ) (w : WhiteList)
      → occurrences ip ips ≡ 0
      → accepts ip port (init_white_list ips q w).1.iptool.executed
        ≡ accepts ip port w.iptool.executed
  unfolding init_white_list accepts
  accepts-init_white_list ips q w h = ground (
    arith,
    unban_all_other ips q (execute_cmd (drop_all_on q) w.iptool).1 h,
    unban_all_ret ips q (execute_cmd (drop_all_on q) w.iptool).1,
  )

  pub accepts-new_white_list :
      (sh : Shell) → accepts ip port (new_white_list sh).iptool.executed ≡ 0
  unfolding new_white_list accepts
  accepts-new_white_list sh = refl
