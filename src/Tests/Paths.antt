-- ===== src/Tests/Paths.antt =====
-- Whole paths: the knock on the gateway, remote calls, and the loops of client and server.
use sdpgateway_verification.Prelude.{
  ◌≤◌, ℕ, ◌+◌, ◌≡◌, refl, arith, true, [], ◌∷◌, ◌++◌, pos, negsuc, minus_one, Bytes, txt, length,
  done,
}
use sdpgateway_verification.Map.{bytes_key, int_key}
use sdpgateway_verification.Messages.{GetAccessRsp}
use sdpgateway_verification.Packet.{Header, memory_copy_to_string, ret_msg_field}
use sdpgateway_verification.Io.{got, wrote, buffer_room, rd_buf_size}
use sdpgateway_verification.Io.Write.{after_interrupts}
use sdpgateway_verification.Gateway.{Gateway, new_gateway_config, sdp_app_gateway}
use sdpgateway_verification.Controller.Config.{Controller}
use sdpgateway_verification.Erpc.{SocketInfo, Service, handle_rpc_request, request_forward_with_cmd}
use sdpgateway_verification.Erpc.Services.{controller_service}
use sdpgateway_verification.Erpc.Client.{con_func_get_access_request}
use sdpgateway_verification.Erpc.Dispatch.{handle_rpc_request_rejects}
use sdpgateway_verification.Erpc.Reply.{answering, con_func_get_access_request_remote}
use sdpgateway_verification.Tests.ToyCodec.{
  toy_get_access_req-RoundTrips, toy_get_access_rsp-RoundTrips,
}
use sdpgateway_verification.Tests.ToyEnv.{toy_env}
use sdpgateway_verification.Tests.Controllers.{
  client_ip, controller, stamp, granted, granted_size, request, listed,
}

abbrev gateway : Gateway
gateway =
    sdp_app_gateway (new_gateway_config (record { executed = []; status = λ before cmd. pos 0 }))

abbrev client_info : SocketInfo
client_info = record { ip = client_ip; port = pos 5000 }

abbrev service : Service Controller
service = controller_service toy_env stamp

abbrev listing : GetAccessRsp
listing = record { access_list = granted ∷ [] }

abbrev no_header : Header
no_header = record { ret_code = pos 0; ret_msg = [] }

-- As many bytes as the two packets have, which is how many the connections take.
abbrev room : ℕ
room = 100 + length (toy_env.get_access_rsp.serialize listing)

room_fits : room ≤ rd_buf_size
room_fits = omega (arith, buffer_room, granted_size)

gets_access :
    service.con_func_get_access request client_info controller ≡ done (pos 0, listing, controller)
unfolding controller_service
gets_access = ground (arith, listed)

con_func_get_access_request_remote_example :
    (bytes answer : Bytes) × (handle_rpc_request toy_env service true client_info
        (got bytes)
        (after_interrupts 2 (wrote room ∷ []))
        controller
      ≡ done (pos 0, answer, controller))
    × (con_func_get_access_request toy_env
          (λ ip port. answering 2 room answer)
          request
          (record { access_list = [] })
          no_header
        ≡ done (
          pos 0,
          listing,
          record { ret_code = pos 0; ret_msg = ret_msg_field (txt "Request OK") },
          bytes,
        ))
con_func_get_access_request_remote_example =
    con_func_get_access_request_remote toy_env service request listing (record { access_list = [] })
      no_header client_info (pos 0) 2 room controller controller toy_get_access_req-RoundTrips
      toy_get_access_rsp-RoundTrips gets_access (omega arith) (omega arith) room_fits

-- An unknown command.
forwards_nothing :
    request_forward_with_cmd toy_env service (pos 7) [] client_info controller
    ≡ done (negsuc 500, [], controller)
unfolding request_forward_with_cmd
forwards_nothing = refl

handle_rpc_request_rejects_example :
    (handle_rpc_request toy_env service true client_info
        (got (memory_copy_to_string 7 ++ txt "body"))
        []
        controller
      ≡ done (minus_one, [], controller))
    × (handle_rpc_request toy_env service true client_info (got (txt "abc")) [] controller
        ≡ done (minus_one, [], controller))
handle_rpc_request_rejects_example =
    handle_rpc_request_rejects toy_env service (txt "body") 7 (txt "abc") client_info [] controller
      (omega arith) refl (omega arith) (omega arith)
