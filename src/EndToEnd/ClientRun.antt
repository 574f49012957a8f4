-- ===== src/EndToEnd/ClientRun.antt =====
-- The client of modules/client with the controller's server at the other end of its request and an
-- application's gateway at the end of its knocks.
use sdpgateway_verification.Prelude.{
  ℕ, ◌+◌, ◌≡◌, false, List, [], ◌∷◌, ◌++◌, arith, pos, is_neg, Bytes, append_assoc, append-nil,
  done,
}
use mathlib.Core.List.{map}
use sdpgateway_verification.Map.{bytes_key}
use sdpgateway_verification.CommDef.{ip_controller_pb, udp_port_controller, rsa_pub_key_controller}
use sdpgateway_verification.Messages.{AccessItem, Voucher, VoucherPacket}
use sdpgateway_verification.Erpc.Client.{Network, con_func_get_access_request}
use sdpgateway_verification.Env.{Env}
use sdpgateway_verification.Packet.{Header, memory_copy_to_string, new_packet}
use sdpgateway_verification.Spa.{success, encrypt_voucher}
use sdpgateway_verification.Erpc.Client.{udp_func_request}
use sdpgateway_verification.Gateway.{Gateway}
use sdpgateway_verification.Controller.Config.{Controller}
use sdpgateway_verification.Client.{
  Sending, Sent, spa_knocking_gateway, spa_knocking_controller, knock_controller, knock_gateways,
  get_accessible_app_list,
}
use sdpgateway_verification.Client.Knocks.{knock_of}

-- Both system calls of a datagram succeed.
abbrev pub IsSent : Sending → Type 0
IsSent sending = (is_neg sending.fd ≡ false) × (is_neg sending.ret ≡ false)

-- The client's knock on the controller.
abbrev pub controller_knock : {K : Type 0} → Env K → VoucherPacket → Sent
controller_knock env packet = record {
  ip = ip_controller_pb;
  port = udp_port_controller;
  msg = memory_copy_to_string 101 ++ env.voucher_packet.serialize packet;
}

module _ {K : Type 0} (env : Env K) (sendings : ℕ → Sending)
    (sends : (i : ℕ) → IsSent (sendings i)) where
  all_knocks :
      (i : ℕ) (items list : List AccessItem)
      → knock_gateways env sendings i items list ≡ (pos 0, list ++ items, map (knock_of env) items)
  unfolding knock_gateways spa_knocking_gateway udp_func_request
  all_knocks i [] list = ground (arith, append-nil list)
  all_knocks i (item ∷ items) list = ground (
    arith,
    (sends i).0,
    (sends i).1,
    all_knocks (i + 1) items (list ++ item ∷ []),
    append_assoc list (item ∷ []) items,
  )

  knocks_controller :
      (voucher : Voucher) (packet : VoucherPacket)
      → encrypt_voucher env.ssl env.voucher voucher rsa_pub_key_controller ≡ done (success packet)
      → spa_knocking_controller env (sendings 0) voucher ip_controller_pb udp_port_controller
        ≡ done (pos 0, controller_knock env packet ∷ [])
  unfolding spa_knocking_controller knock_controller udp_func_request
  knocks_controller voucher packet made = ground (arith, made, (sends 0).0, (sends 0).1)

  -- GetAccessibleAppList over a network whose controller gives the list.
  pub lists :
      (network : Network) (voucher : Voucher) (packet : VoucherPacket) (items : List AccessItem)
      {header : Header} {sent : Bytes}
      → encrypt_voucher env.ssl env.voucher voucher rsa_pub_key_controller ≡ done (success packet)
      → con_func_get_access_request env network
          (record { account = voucher.account })
          (record { access_list = [] })
          new_packet.header
        ≡ done (pos 0, record { access_list = items }, header, sent)
      → get_accessible_app_list env sendings network voucher []
        ≡ done (pos 0, items, controller_knock env packet ∷ map (knock_of env) items)
  unfolding get_accessible_app_list
  lists network voucher packet items encrypted called =
      ground (arith, knocks_controller voucher packet encrypted, called, all_knocks 1 items [])
