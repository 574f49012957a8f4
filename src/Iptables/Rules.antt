-- ===== src/Iptables/Rules.antt =====
-- What iptables documents of the commands: `-I` puts a rule in front, `-D` takes one matching rule
-- out and fails if there is none, `-F` takes all out. Here as the number of ACCEPT rules.
use sdpgateway_verification.Prelude.{
  ℕ, ◌+◌, ◌-◌, ◌≡◌, refl, Bool, ◌&&◌, List, [], ◌∷◌, arith, if◌then◌else◌, ℤ, pos, int_eq,
  int_eq_iff, Bytes, bytes_eq,
}
use sdpgateway_verification.Iptables.{
  Command, zero_counters, delete_chains, flush, drop_all_on, accept, unaccept, Shell, unban_user,
  unban_all,
}

-- The same address and port.
abbrev pub same : Bytes → ℤ → Bytes → ℤ → Bool
same ip port ip' port' = bytes_eq ip ip' && int_eq port port'

-- How many rules accept `ip` on `port` after the commands, of which the newest stands first.
unfoldable pub accepts : Bytes → ℤ → List Command → ℕ
accepts ip port [] = 0
accepts ip port (zero_counters ∷ cs) = accepts ip port cs
accepts ip port (delete_chains ∷ cs) = accepts ip port cs
accepts ip port (flush ∷ cs) = 0
accepts ip port (drop_all_on q ∷ cs) = accepts ip port cs
accepts ip port (accept ip' port' ∷ cs) =
    (if same ip port ip' port' then 1 else 0) + accepts ip port cs
accepts ip port (unaccept ip' port' ∷ cs) =
    accepts ip port cs - (if same ip port ip' port' then 1 else 0)

-- How often an address stands in a list.
unfoldable pub occurrences : Bytes → List Bytes → ℕ
occurrences ip [] = 0
occurrences ip (x ∷ xs) = (if bytes_eq ip x then 1 else 0) + occurrences ip xs

-- The loop of IptablesInit ends with 0 and adds a rule for each entry.
pub unban_all_lem :
    (ips : List Bytes) (port : ℤ) (sh : Shell) (ip : Bytes)
    → ((unban_all ips port sh).0 ≡ pos 0)
      × (accepts ip port (unban_all ips port sh).1.executed
          ≡ occurrences ip ips + accepts ip port sh.executed)
unfolding unban_all accepts occurrences
unban_all_lem [] port sh ip = (refl, omega arith)
unban_all_lem (x ∷ ips) port sh ip =
    ground (arith, unban_all_lem ips port (unban_user x port sh).1 ip, int_eq_iff port port)

-- The loop of IptablesInit ends with 0.
pub unban_all_ret : (ips : List Bytes) (port : ℤ) (sh : Shell) → (unban_all ips port sh).0 ≡ pos 0
unban_all_ret ips port sh = (unban_all_lem ips port sh []).0
