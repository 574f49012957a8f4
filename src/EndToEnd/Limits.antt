-- ===== src/EndToEnd/Limits.antt =====
-- modules/application and modules/gateway together: what becomes of a client that the application
-- turns away.
use sdpgateway_verification.Prelude.{
  ℕ, ◌≡◌, ◌≢◌, ◌∙◌, refl, sym, ap, Bool, false, List, [], ◌∷◌, ◌++◌, arith, ℤ, pos, Bytes,
  bytes_eq_refl, done, inl, inr,
}
use sdpgateway_verification.CommDef.{tcp_port_application, ip_application_pb}
use sdpgateway_verification.Env.{Env}
use sdpgateway_verification.Iptables.{Shell, is_ip_in_white_list}
use sdpgateway_verification.Iptables.Rules.{occurrences}
use sdpgateway_verification.Iptables.Chain.{chain, lets_in}
use sdpgateway_verification.Gateway.{
  Gateway, Event, notice, handle, run, gate_func_notice, new_gateway_config, sdp_app_gateway,
}
use sdpgateway_verification.Gateway.Replay.{run_append}
use sdpgateway_verification.Gateway.Firewall.{seeds, guarded, firewall_lets_in_white_list}
use sdpgateway_verification.Gateway.Access.{access_of, notice-access}
use sdpgateway_verification.Application.{Application, Notice, app_func_https}
use sdpgateway_verification.Application.Answers.{app_func_https_cases}
use sdpgateway_verification.Application.Ways.{close_notice}
use sdpgateway_verification.Erpc.Client.{Network}

module _ {K : Type 0} (env : Env K) (sh : Shell) (es : List Event) (ip : Bytes) {g : Gateway}
    (unseeded : occurrences ip seeds ≡ 0)
    (history : run env es (sdp_app_gateway (new_gateway_config sh)) ≡ done g) where
  -- The application's notice takes the address off the white list.
  notice_unlists :
      (junk : ℤ)
      → is_ip_in_white_list ip
          (gate_func_notice junk ip_application_pb (close_notice ip) g).1.app_tcp_port
          (gate_func_notice junk ip_application_pb (close_notice ip) g).1.whitelist
        ≡ false
  unfolding access_of
  notice_unlists junk =
      ap (λ a. a.opened)
        (notice-access ip junk ip_application_pb (close_notice ip) g
          (guarded env sh es ip {g = g} unseeded history))
      ∙ ground (arith, bytes_eq_refl ip, bytes_eq_refl ip_application_pb)

  notice_history :
      (junk : ℤ)
      → run env
          (es ++ notice junk ip_application_pb (close_notice ip) ∷ [])
          (sdp_app_gateway (new_gateway_config sh))
        ≡ done (gate_func_notice junk ip_application_pb (close_notice ip) g).1
  unfolding run handle
  notice_history junk = run_append env es _ _ {g' = g} history refl

  noticed_is_dropped :
      (junk : ℤ) (policy : Bool)
      → lets_in policy ip tcp_port_application (
          chain
            (gate_func_notice junk ip_application_pb
              (close_notice ip)
              g).1.whitelist.iptool.executed)
        ≡ false
  noticed_is_dropped junk policy =
      let es' = es ++ notice junk ip_application_pb (close_notice ip) ∷ [] in
      let g' = (gate_func_notice junk ip_application_pb (close_notice ip) g).1 in
      firewall_lets_in_white_list env sh es' ip {g = g'} unseeded (notice_history junk) policy
      ∙ ap (λ p. is_ip_in_white_list ip p g'.whitelist)
          (sym (guarded env sh es' ip {g = g'} unseeded (notice_history junk)).port)
      ∙ notice_unlists junk

  -- A gateway that has handled whatever events since its start, and an application that turns a
  -- request away, whatever it has stored: its newest call of GateFuncNoticeRequest has a request
  -- that, once the gateway handles it, shuts out the client, unless its address is one of the two
  -- that the start white-lists: its TCP packets to the application port are dropped.
  pub turned_away_is_shut_out :
      (network : Network) (now : ℕ) (request : Bytes) (a : Application)
      {r : ℤ × Bytes × Application} (junk : ℤ) (policy : Bool)
      → app_func_https env network now request ip a ≡ done r
      → r.0 ≢ pos 0
      → (n : Notice) × (r.2.notices ≡ n ∷ a.notices)
        × (lets_in policy ip tcp_port_application
              (chain (gate_func_notice junk ip_application_pb n.req g).1.whitelist.iptool.executed)
            ≡ false)
  turned_away_is_shut_out network now request a {r} junk policy h refused =
      elim (app_func_https_cases env network now request ip a {r = r} h) [
        | inl (served, _, _) ↦ absurd (refused served)
        | inr (turned, empty, (n, asks, sent)) ↦ (n, sent, rw asks (noticed_is_dropped junk policy))
      ]
