-- ===== src/EndToEnd/Session.antt =====
-- A run of modules/client/client_test.cpp, with the controller's server and the application's
-- server at the other ends of its two connections.
use sdpgateway_verification.Prelude.{
  ℕ, ◌%◌, ◌^◌, ◌&&◌, List, ℤ, pos, minus_one, is_neg, int_eq, if◌then◌else◌, Bytes, bytes_eq, txt,
}
use sdpgateway_verification.CommDef.{ip_controller_pb, tcp_port_controller}
use sdpgateway_verification.Messages.{Voucher}
use sdpgateway_verification.Env.{Env}
use sdpgateway_verification.Erpc.Client.{Link, Network}
use sdpgateway_verification.Application.{Application}
use sdpgateway_verification.Controller.Config.{Controller}

-- A network that has the link at the controller's address and port.
abbrev pub at_controller : Link → Network → Network
at_controller link others ip port =
    if bytes_eq ip ip_controller_pb && int_eq port tcp_port_controller then link else others ip port

-- The voucher that Access_Test fills in.
abbrev pub access_voucher : Bytes → ℕ × ℕ → Bytes → Bytes → Voucher
access_voucher mac (now, random) acc passwd = record {
  account = record { acc = acc; pwd = passwd };
  mac = mac;
  address = txt "ChengDu";
  timestamp = now % 2 ^ 32;
  random = random;
}

-- The early returns -1 and the results 0 along the way keep the sign.
abbrev sign : ℤ → ℤ
sign i = if is_neg i then minus_one else pos 0
