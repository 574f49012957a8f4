-- ===== src/Tests/Registrations.antt =====
-- The registration of a gateway with the controller, with the stand-in keys.
use sdpgateway_verification.Prelude.{
  ℕ, ◌+◌, ◌≡◌, refl, arith, true, List, [], ◌∷◌, pos, Bytes, bytes_eq, length, done, Any, ◌≤◌,
}
use sdpgateway_verification.Messages.{AccessItem, GetAccessRsp}
use sdpgateway_verification.Io.{got, wrote, buffer_room, rd_buf_size}
use sdpgateway_verification.Io.Write.{after_interrupts}
use sdpgateway_verification.Erpc.{SocketInfo, handle_rpc_request}
use sdpgateway_verification.Erpc.Services.{controller_service}
use sdpgateway_verification.Erpc.Reply.{answering}
use sdpgateway_verification.Gateway.{register_app_request}
use sdpgateway_verification.Controller.{con_func_get_access}
use sdpgateway_verification.Controller.Access.{app_of}
use sdpgateway_verification.Controller.Config.{Controller, new_controller_config}
use sdpgateway_verification.Controller.Register.{is_user}
use sdpgateway_verification.Server.Starts.{gateway_registers}
use sdpgateway_verification.EndToEnd.Registration.{
  https_item, registered, registration_lists_application,
}
use sdpgateway_verification.Tests.ToyApps.{put_apps, toy_register_app_req-RoundTrips}
use sdpgateway_verification.Tests.ToyCodec.{toy_ticket-RoundTrips, toy_empty_rsp-RoundTrips}
use sdpgateway_verification.Tests.ToyEnv.{toy_env, toy_env-Keys}
use sdpgateway_verification.Tests.Controllers.{client_ip, gate_ip, stamp, request, granted}

-- A controller that no gateway has registered with.
abbrev empty : Controller
empty = new_controller_config (record { executed = []; status = λ before cmd. pos 0 })

abbrev gateway_info : SocketInfo
gateway_info = record { ip = gate_ip; port = pos 5001 }

abbrev room : ℕ
room = 100 + length (toy_env.register_app_req.serialize register_app_request)

room_fits : room ≤ rd_buf_size
unfolding put_apps register_app_request
room_fits = omega (arith, buffer_room)

registration_lists_application_example :
    ((bytes answer : Bytes) × (gateway_registers toy_env (λ ip port. answering 1 room answer)
        ≡ done bytes)
      × (handle_rpc_request toy_env
            (controller_service toy_env stamp)
            true
            gateway_info
            (got bytes)
            (after_interrupts 1 (wrote room ∷ []))
            empty
          ≡ done (pos 0, answer, registered gate_ip empty)))
    × ((list : List AccessItem) × (con_func_get_access toy_env stamp client_ip request
            (registered gate_ip empty)
          ≡ done (pos 0, list))
        × Any (λ (a : AccessItem). app_of a ≡ (gate_ip, https_item)) list)
unfolding is_user bytes_eq
registration_lists_application_example =
    registration_lists_application toy_env toy_env-Keys toy_ticket-RoundTrips
      toy_register_app_req-RoundTrips toy_empty_rsp-RoundTrips stamp gateway_info 1 room empty
      request client_ip (omega arith) (omega arith) room_fits refl

-- The list of the client after the registration.
abbrev listing : GetAccessRsp
listing = record { access_list = granted ∷ [] }

abbrev client_info : SocketInfo
client_info = record { ip = client_ip; port = pos 5000 }

-- Enough for each of the packets.
abbrev wide : ℕ
wide = room + length (toy_env.get_access_rsp.serialize listing)
