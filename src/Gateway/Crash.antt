-- ===== src/Gateway/Crash.antt =====
-- GateFuncUdpRecv of modules/gateway on a short ciphertext.
use sdpgateway_verification.Prelude.{
  ℕ, ◌+◌, ◌<◌, ◌≡◌, false, arith, [], ◌∷◌, Bytes, length, fault, over_read,
}
use sdpgateway_verification.CommDef.{rsa_pri_key_gateway}
use sdpgateway_verification.OpenSsl.{OpenSsl}
use sdpgateway_verification.Rsa.{rsa_decrypt}
use sdpgateway_verification.Rsa.RoundTrip.{Holds}
use sdpgateway_verification.Env.{Env}
use sdpgateway_verification.Spa.{decrypt_ticket}
use sdpgateway_verification.Gateway.{Gateway, gate_func_udp_recv, controller_black_list_is_in}

rsa_decrypt_over_reads :
    {K : Type 0} (ssl : OpenSsl K) (key : K) (path text : Bytes)
    → Holds ssl.fopen ssl.read_private_key path key
    → 0 < length text
    → length text + 1 < ssl.rsa_size key
    → rsa_decrypt ssl text path ≡ fault over_read
unfolding rsa_decrypt
rsa_decrypt_over_reads ssl key path [] file nonempty short = absurd (omega arith)
rsa_decrypt_over_reads ssl key path (x ∷ xs) file nonempty short =
    ground (arith, file.opens, file.reads)

-- With its private key in its file, the gateway reads behind the end of a string if a datagram of
-- any address that is not black-listed carries a packet whose ciphertext is not empty and shorter
-- than a block by more than one byte.
pub gate_func_udp_recv_over_reads :
    {K : Type 0} (env : Env K) (key : K) (now : ℕ) (msg from_ip : Bytes) (g : Gateway)
    → Holds env.ssl.fopen env.ssl.read_private_key rsa_pri_key_gateway key
    → 0 < length (env.ticket_packet.parse msg).enc_data
    → length (env.ticket_packet.parse msg).enc_data + 1 < env.ssl.rsa_size key
    → controller_black_list_is_in from_ip g.app_tcp_port g ≡ false
    → gate_func_udp_recv env now msg from_ip g ≡ fault over_read
unfolding gate_func_udp_recv decrypt_ticket
gate_func_udp_recv_over_reads env key now msg from_ip g file nonempty short white = ground (
  arith,
  white,
  rsa_decrypt_over_reads env.ssl key rsa_pri_key_gateway (env.ticket_packet.parse msg).enc_data file
      nonempty short,
)
