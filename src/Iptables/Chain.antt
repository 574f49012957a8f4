-- ===== src/Iptables/Chain.antt =====
-- What iptables documents of the INPUT chain that the commands of comm/iptools/iptables_tool.cpp
-- edit: `-I` puts a rule in front, `-D` takes the first equal rule out, `-F` takes all out, and the
-- first rule that matches a TCP packet decides. Every command is taken to do its work; a `-D`
-- without an equal rule does none.
use sdpgateway_verification.Prelude.{
  ℕ, ◌+◌, ◌-◌, ◌≡◌, refl, Bool, true, false, List, [], ◌∷◌, arith, nat_eq, ltb, if◌then◌else◌, ℤ,
  int_eq, int_eq_iff, Bytes, bytes_eq_iff,
}
use sdpgateway_verification.Iptables.{
  Command, zero_counters, delete_chains, flush, drop_all_on, accept, unaccept, WhiteList,
  op_white_list, init_white_list, Shell, unban_all, unban_user, execute_cmd,
}
use sdpgateway_verification.Iptables.Rules.{same, accepts, unban_all_ret}

pub data Rule : Type 0 where
  allow : Bytes → ℤ → Rule
  deny : ℤ → Rule

-- `-D` of an ACCEPT rule.
unfoldable pub take_out : Bytes → ℤ → List Rule → List Rule
take_out ip port [] = []
take_out ip port (allow ip' port' ∷ c) =
    let rest = take_out ip port c in if same ip port ip' port' then c else allow ip' port' ∷ rest
take_out ip port (deny q ∷ c) = deny q ∷ take_out ip port c

-- The chain after the commands, of which the newest stands first, on an empty chain.
unfoldable pub chain : List Command → List Rule
unfolding take_out
chain [] = []
chain (zero_counters ∷ cs) = chain cs
chain (delete_chains ∷ cs) = chain cs
chain (flush ∷ cs) = []
chain (drop_all_on q ∷ cs) = deny q ∷ chain cs
chain (accept ip port ∷ cs) = allow ip port ∷ chain cs
chain (unaccept ip port ∷ cs) = take_out ip port (chain cs)

-- Whether a TCP packet from `ip` to `port` is let in: by the first rule that matches it, or else by
-- the chain's policy.
unfoldable pub lets_in : Bool → Bytes → ℤ → List Rule → Bool
lets_in policy ip port [] = policy
lets_in policy ip port (allow ip' port' ∷ c) =
    let rest = lets_in policy ip port c in if same ip port ip' port' then true else rest
lets_in policy ip port (deny q ∷ c) =
    let rest = lets_in policy ip port c in if int_eq port q then false else rest

count : Bytes → ℤ → List Rule → ℕ
count ip port [] = 0
count ip port (allow ip' port' ∷ c) = (if same ip port ip' port' then 1 else 0) + count ip port c
count ip port (deny q ∷ c) = count ip port c

-- There is a DROP rule for the port, and below the first of them no ACCEPT rule for the address.
unfoldable pub fenced : Bytes → ℤ → List Rule → Bool
unfolding count
fenced ip port [] = false
fenced ip port (allow ip' port' ∷ c) = fenced ip port c
fenced ip port (deny q ∷ c) =
    let rest = fenced ip port c in if int_eq port q then nat_eq (count ip port c) 0 else rest

module _ (ip : Bytes) (port : ℤ) where
  count-take_out :
      (ip' : Bytes) (port' : ℤ) (c : List Rule)
      → count ip port (take_out ip' port' c)
        ≡ count ip port c - (if same ip port ip' port' then 1 else 0)
  unfolding count take_out
  count-take_out ip' port' [] = ground arith
  count-take_out ip' port' (allow x q ∷ c) = ground (
    arith,
    count-take_out ip' port' c,
    bytes_eq_iff ip x,
    bytes_eq_iff ip ip',
    bytes_eq_iff ip' x,
    int_eq_iff port q,
    int_eq_iff port port',
    int_eq_iff port' q,
  )
  count-take_out ip' port' (deny q ∷ c) = count-take_out ip' port' c

  -- The chain has as many ACCEPT rules for an address as the commands leave.
  count-chain : (cs : List Command) → count ip port (chain cs) ≡ accepts ip port cs
  unfolding count chain accepts
  count-chain [] = refl
  count-chain (zero_counters ∷ cs) = count-chain cs
  count-chain (delete_chains ∷ cs) = count-chain cs
  count-chain (flush ∷ cs) = refl
  count-chain (drop_all_on q ∷ cs) = count-chain cs
  count-chain (accept x q ∷ cs) = rw (count-chain cs)
  count-chain (unaccept x q ∷ cs) = ground (arith, count-chain cs, count-take_out x q (chain cs))

  pub fenced-take_out :
      (ip' : Bytes) (port' : ℤ) (c : List Rule)
      → fenced ip port c ≡ true
      → fenced ip port (take_out ip' port' c) ≡ true
  unfolding fenced take_out
  fenced-take_out ip' port' [] h = h
  fenced-take_out ip' port' (allow x q ∷ c) h = ground (arith, fenced-take_out ip' port' c)
  fenced-take_out ip' port' (deny q ∷ c) h =
      ground (arith, fenced-take_out ip' port' c, count-take_out ip' port' c)

  fenced_lem :
      (policy : Bool) (c : List Rule)
      → fenced ip port c ≡ true
      → lets_in policy ip port c ≡ ltb 0 (count ip port c)
  unfolding fenced lets_in count
  fenced_lem policy [] h = absurd cc
  fenced_lem policy (allow x q ∷ c) h = ground (arith, fenced_lem policy c h)
  fenced_lem policy (deny q ∷ c) h = ground (arith, fenced_lem policy c)

  -- Behind a fence, a packet is let in exactly when a rule accepts its address.
  pub lets_in-chain :
      (policy : Bool) (cs : List Command)
      → fenced ip port (chain cs) ≡ true
      → lets_in policy ip port (chain cs) ≡ ltb 0 (accepts ip port cs)
  lets_in-chain policy cs h = ground (arith, fenced_lem policy (chain cs) h, count-chain cs)

  -- A DROP rule on top fences the port if no rule accepts the address there.
  pub fenced_deny :
      (cs : List Command)
      → accepts ip port cs ≡ 0
      → fenced ip port (chain (drop_all_on port ∷ cs)) ≡ true
  unfolding fenced chain
  fenced_deny cs h = ground (arith, count-chain cs, int_eq_iff port port)

  -- OpWhiteList keeps a fence, whatever it adds or takes off.
  pub op_white_list-fenced :
      (op : ℤ) (ip' : Bytes) (port' : ℤ) (w : WhiteList)
      → fenced ip port (chain w.iptool.executed) ≡ true
      → fenced ip port (chain (op_white_list op ip' port' w).1.iptool.executed) ≡ true
  unfolding op_white_list fenced chain
  op_white_list-fenced op ip' port' w h =
      ground (arith, h, fenced-take_out ip' port' (chain w.iptool.executed))

  unban_all-fenced :
      (ips : List Bytes) (q : ℤ) (sh : Shell)
      → fenced ip port (chain sh.executed) ≡ true
      → fenced ip port (chain (unban_all ips q sh).1.executed) ≡ true
  unfolding unban_all fenced chain
  unban_all-fenced [] q sh h = h
  unban_all-fenced (x ∷ ips) q sh h = ground (arith, unban_all-fenced ips q (unban_user x q sh).1 h)

  -- IptablesInit fences its port for an address that has no rule there yet.
  pub init_white_list-fenced :
      (ips : List Bytes) (w : WhiteList)
      → accepts ip port w.iptool.executed ≡ 0
      → fenced ip port (chain (init_white_list ips port w).1.iptool.executed) ≡ true
  unfolding init_white_list
  init_white_list-fenced ips w h =
      let sh = (execute_cmd (drop_all_on port) w.iptool).1 in
      ground (
        arith,
        unban_all-fenced ips port sh (fenced_deny w.iptool.executed h),
        unban_all_ret ips port sh,
      )
