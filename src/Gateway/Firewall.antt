-- ===== src/Gateway/Firewall.antt =====
-- The black list, the white list and the firewall of modules/gateway, after any events.
use sdpgateway_verification.Prelude.{
  ◌≡◌, refl, ◌∙◌, Bool, true, false, List, [], ◌∷◌, arith, if◌then◌else◌, Bytes, done, subst,
}
use sdpgateway_verification.Map.{bytes_key, find}
use sdpgateway_verification.CommDef.{
  tcp_port_application, tcp_port_appgateway, ip_controller_pb, ip_application_pb,
}
use sdpgateway_verification.Env.{Env}
use sdpgateway_verification.Iptables.{Shell, is_ip_in_white_list, new_white_list, init_white_list}
use sdpgateway_verification.Iptables.Rules.{accepts, occurrences}
use sdpgateway_verification.Iptables.Sync.{
  new_white_list-InStep, init_white_list-InStep, accepts-init_white_list, accepts-new_white_list,
}
use sdpgateway_verification.Iptables.Chain.{chain, lets_in, lets_in-chain, init_white_list-fenced}
use sdpgateway_verification.Gateway.{
  Gateway, Event, run, controller_black_list_is_in, new_gateway_config, sdp_app_gateway,
}
use sdpgateway_verification.Gateway.Guarded.{IsGuarded, run-IsGuarded}

-- The addresses that SDPAppGateway() writes on its white list.
abbrev pub seeds : List Bytes
seeds = ip_controller_pb ∷ ip_application_pb ∷ []

pub start_accepts_none :
    (sh : Shell) (ip : Bytes)
    → occurrences ip seeds ≡ 0
    → accepts ip tcp_port_application
        (sdp_app_gateway (new_gateway_config sh)).whitelist.iptool.executed
      ≡ 0
unfolding sdp_app_gateway new_gateway_config
start_accepts_none sh ip h =
    let first = init_white_list seeds tcp_port_appgateway (new_white_list sh) in
    accepts-init_white_list ip tcp_port_application [] tcp_port_application first.1
      (unfold occurrences in refl)
    ∙ accepts-init_white_list ip tcp_port_application seeds tcp_port_appgateway (new_white_list sh)
        h
    ∙ accepts-new_white_list ip tcp_port_application sh

pub start-IsGuarded :
    (sh : Shell) (ip : Bytes)
    → occurrences ip seeds ≡ 0
    → IsGuarded ip (sdp_app_gateway (new_gateway_config sh))
unfolding sdp_app_gateway new_gateway_config controller_black_list_is_in find
start-IsGuarded sh ip h = record {
  port = refl;
  step =
      init_white_list-InStep ip tcp_port_application [] tcp_port_application _
        (unfold occurrences in refl)
        (init_white_list-InStep ip tcp_port_application seeds tcp_port_appgateway _ h
          (new_white_list-InStep ip tcp_port_application sh));
  fence =
      init_white_list-fenced ip tcp_port_application []
        (init_white_list seeds tcp_port_appgateway (new_white_list sh)).1
        (accepts-init_white_list ip tcp_port_application seeds tcp_port_appgateway
            (new_white_list sh) h
          ∙ accepts-new_white_list ip tcp_port_application sh);
  black_entry = tt;
  apart = λ p. cc;
}

module _ {K : Type 0} (env : Env K) (sh : Shell) (es : List Event) (ip : Bytes) {g : Gateway}
    (unseeded : occurrences ip seeds ≡ 0)
    (history : run env es (sdp_app_gateway (new_gateway_config sh)) ≡ done g) where
  pub guarded : IsGuarded ip g
  guarded = run-IsGuarded env ip es _ {g' = g} history (start-IsGuarded sh ip unseeded)

  -- For an address other than the two that the start white-lists, after any events that the gateway
  -- handles: it has one ACCEPT rule on the application port if it is white-listed there, and none
  -- if it is not.
  rules_match_white_list :
      accepts ip g.app_tcp_port g.whitelist.iptool.executed
      ≡ (if is_ip_in_white_list ip g.app_tcp_port g.whitelist then 1 else 0)
  rules_match_white_list = guarded.step.rules

  -- For an address other than the two that the start white-lists, after any events that the gateway
  -- handles and whatever the policy of the INPUT chain: the first rule that matches its TCP packets
  -- to the application port lets them in exactly when the address is white-listed there.
  pub firewall_lets_in_white_list :
      (policy : Bool)
      → lets_in policy ip tcp_port_application (chain g.whitelist.iptool.executed)
        ≡ is_ip_in_white_list ip tcp_port_application g.whitelist
  firewall_lets_in_white_list policy =
      subst
        (λ p.
          lets_in policy ip p (chain g.whitelist.iptool.executed)
          ≡ is_ip_in_white_list ip p g.whitelist)
        guarded.port
        (ground (
          arith,
          lets_in-chain ip g.app_tcp_port policy g.whitelist.iptool.executed guarded.fence,
          rules_match_white_list,
        ))

  -- For an address other than the two that the start white-lists, after any events that the gateway
  -- handles and whatever the policy of the INPUT chain: while the address is black-listed, its TCP
  -- packets to the application port are dropped.
  pub black_listed_is_dropped :
      (policy : Bool)
      → controller_black_list_is_in ip tcp_port_application g ≡ true
      → lets_in policy ip tcp_port_application (chain g.whitelist.iptool.executed) ≡ false
  black_listed_is_dropped policy black =
      let apart =
        subst
          (λ p.
            controller_black_list_is_in ip p g ≡ true
            → is_ip_in_white_list ip p g.whitelist ≡ false)
          guarded.port guarded.apart in
      firewall_lets_in_white_list policy ∙ apart black
