-- ===== src/Erpc/Services.antt =====
-- The service objects of the modules: what each class overrides of ErpcService. The time and the
-- random numbers of a call are given to the object.

use sdpgateway_verification.Prelude.{ℕ, ℤ, done, ◌>>=◌}
use sdpgateway_verification.Env.{Env}
use sdpgateway_verification.Erpc.{Service, erpc_service}
use sdpgateway_verification.Controller.Config.{Controller}
use sdpgateway_verification.Controller.{
  con_func_udp_recv, con_func_get_access, con_func_register_app,
}
use sdpgateway_verification.Gateway.{
  Gateway, gate_func_udp_recv, gate_func_black_list_op, gate_func_notice,
}
use sdpgateway_verification.Erpc.Client.{Network}
use sdpgateway_verification.Application.{Application, app_func_https}

module _ {K : Type 0} (env : Env K) where
  -- SDPControllerErpcServiceImpl
  unfoldable pub controller_service : (ℕ → ℕ × ℕ) → Service Controller
  unfolding erpc_service con_func_udp_recv con_func_get_access con_func_register_app
  controller_service stamp = record erpc_service {
    con_func_udp_recv = λ msg ip port c. con_func_udp_recv env msg ip c;
    con_func_get_access = λ req info c. do
      (ret, access_list) ← con_func_get_access env stamp info.ip req c
      done (ret, record { access_list = access_list }, c);
    con_func_register_app = λ req info c.
        let (ret, c') = con_func_register_app info.ip req c in done (ret, record {}, c');
  }

  -- SDPAppGatewayErpcServiceImpl
  unfoldable pub gateway_service : ℕ → ℤ → Service Gateway
  unfolding erpc_service gate_func_udp_recv gate_func_black_list_op gate_func_notice
  gateway_service now junk = record erpc_service {
    gate_func_udp_recv = λ msg ip port g. gate_func_udp_recv env now msg ip g;
    gate_func_black_list_op =
        λ req info g. let (ret, g') = gate_func_black_list_op req g in done (ret, record {}, g');
    gate_func_notice = λ req info g.
        let (ret, g') = gate_func_notice junk info.ip req g in done (ret, record {}, g');
  }

  -- SDPApplicationErpcServiceImpl, with the network to the gateway.
  unfoldable pub application_service : Network → ℕ → Service Application
  unfolding erpc_service app_func_https
  application_service network now = record erpc_service {
    app_func_https = λ request info a. app_func_https env network now request info.ip a;
  }
