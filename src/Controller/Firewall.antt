-- ===== src/Controller/Firewall.antt =====
-- What modules/controller holds for one address: its white list entry and its rules.
use sdpgateway_verification.Prelude.{◌≡◌, refl, Bool, true, false, List, [], ◌∷◌, arith, ℤ, Bytes}
use sdpgateway_verification.Map.{Map, bytes_key}
use sdpgateway_verification.CommDef.{ip_appgateway_pb, tcp_port_controller}
use sdpgateway_verification.Iptables.{
  Shell, WhiteList, is_ip_in_white_list, op_white_list, new_white_list, init_white_list,
}
use sdpgateway_verification.Iptables.Rules.{occurrences}
use sdpgateway_verification.Iptables.Sync.{
  InStep, op_white_list-InStep, new_white_list-InStep, init_white_list-InStep,
  accepts-new_white_list, accepts-init_white_list,
}
use sdpgateway_verification.Iptables.Chain.{
  chain, lets_in, lets_in-chain, fenced, op_white_list-fenced, init_white_list-fenced,
}
use sdpgateway_verification.Controller.Config.{Controller, new_controller_config}
use sdpgateway_verification.Controller.{sdp_controller}

-- The address that SDPController() writes on its white list.
abbrev pub seeds : List Bytes
seeds = ip_appgateway_pb ∷ []

-- What no event of the controller changes: its port, and the accounts.
pub record IsSetUp (accounts : Map Bytes Bytes) (c : Controller) : Type 0 where
  pub port : c.tcp_port ≡ tcp_port_controller
  pub known : c.user_account_map ≡ accounts

-- For one address: white list and rules agree, and the port is closed but for the rules.
pub record IsGuarded (ip : Bytes) (w : WhiteList) : Type 0 where
  pub step : InStep ip tcp_port_controller w
  pub fence : fenced ip tcp_port_controller (chain w.iptool.executed) ≡ true

pub op_white_list-IsGuarded :
    (ip ip' : Bytes) (op : ℤ) (w : WhiteList)
    → IsGuarded ip w
    → IsGuarded ip (op_white_list op ip' tcp_port_controller w).1
op_white_list-IsGuarded ip ip' op w v = record {
  step = op_white_list-InStep ip tcp_port_controller op ip' w v.step;
  fence = op_white_list-fenced ip tcp_port_controller op ip' tcp_port_controller w v.fence;
}

-- Behind the rules, the white list decides.
pub IsGuarded-lets_in :
    (ip : Bytes) (policy : Bool) (w : WhiteList)
    → IsGuarded ip w
    → lets_in policy ip tcp_port_controller (chain w.iptool.executed)
      ≡ is_ip_in_white_list ip tcp_port_controller w
IsGuarded-lets_in ip policy w v =
    ground
      (arith, lets_in-chain ip tcp_port_controller policy w.iptool.executed v.fence, v.step.rules)

start_white_list-IsGuarded :
    (sh : Shell) (ip : Bytes)
    → occurrences ip seeds ≡ 0
    → IsGuarded ip (init_white_list seeds tcp_port_controller (new_white_list sh)).1
start_white_list-IsGuarded sh ip h = record {
  step =
      init_white_list-InStep ip tcp_port_controller seeds tcp_port_controller _ h
        (new_white_list-InStep ip tcp_port_controller sh);
  fence =
      init_white_list-fenced ip tcp_port_controller seeds (new_white_list sh)
        (accepts-new_white_list ip tcp_port_controller sh);
}

-- The controller at its start, for an address other than the gateway's.
pub start-IsGuarded :
    (sh : Shell) (ip : Bytes)
    → occurrences ip seeds ≡ 0
    → IsGuarded ip (sdp_controller (new_controller_config sh)).whitelist
unfolding sdp_controller new_controller_config
start-IsGuarded sh ip h = start_white_list-IsGuarded sh ip h

pub start-IsSetUp :
    (sh : Shell)
    → IsSetUp
        (new_controller_config sh).user_account_map
        (sdp_controller (new_controller_config sh))
unfolding sdp_controller new_controller_config
start-IsSetUp sh = record { port = refl; known = refl }

-- No rule accepts the address at the start.
pub start_closed :
    (sh : Shell) (ip : Bytes)
    → occurrences ip seeds ≡ 0
    → is_ip_in_white_list ip tcp_port_controller
        (sdp_controller (new_controller_config sh)).whitelist
      ≡ false
unfolding sdp_controller new_controller_config
start_closed sh ip h = ground (
  arith,
  (start_white_list-IsGuarded sh ip h).step.rules,
  accepts-init_white_list ip tcp_port_controller seeds tcp_port_controller (new_white_list sh) h,
  accepts-new_white_list ip tcp_port_controller sh,
)
