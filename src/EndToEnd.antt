-- ===== src/EndToEnd.antt =====
-- The parts together: a ticket of the controller, sent by the client, opens the gateway.
pub mod ClientRun
pub mod Limits
pub mod Pages
pub mod Registration
pub mod Scans
pub mod Session
pub mod System
use sdpgateway_verification.Prelude.{
  ℕ, ◌+◌, ◌^◌, ◌≤◌, ◌<◌, ◌≡◌, refl, false, List, [], ◌∷◌, ◌++◌, arith, ℤ, pos, Bytes, All,
  All-middle, done, ap, ◌∙◌,
}
use sdpgateway_verification.Map.{bytes_key, contains}
use sdpgateway_verification.OpenSsl.{IsPair, IsSigningPair, Md5Works}
use sdpgateway_verification.Rsa.RoundTrip.{Holds}
use sdpgateway_verification.CommDef.{
  rsa_pub_key_controller, rsa_pri_key_controller, rsa_pub_key_gateway, rsa_pri_key_gateway,
}
use sdpgateway_verification.Messages.{RoundTrips, AccessItem, TicketPacket, Ticket, GetAccessReq}
use sdpgateway_verification.Env.{Env}
use sdpgateway_verification.Spa.{success, encrypt_ticket, decrypt_ticket}
use sdpgateway_verification.Spa.RoundTrip.{decrypt_ticket-encrypt_ticket}
use sdpgateway_verification.Packet.{memory_copy_to_string}
use sdpgateway_verification.Packet.RoundTrip.{memory_corp_to_object-copy}
use sdpgateway_verification.Io.{datagram, udp_recv-datagram}
use sdpgateway_verification.Gateway.{
  Gateway, controller_black_list_is_in, is_expired, gate_func_udp_recv,
}
use sdpgateway_verification.Gateway.Admission.{admitted, admissible_passes}
use sdpgateway_verification.Controller.{new_ticket, con_func_get_access}
use sdpgateway_verification.Controller.Config.{Controller}
use sdpgateway_verification.Controller.Access.{HasTicket, con_func_get_access_lem}
use sdpgateway_verification.Erpc.{handle_udp_request}
use sdpgateway_verification.Erpc.Services.{gateway_service}
use sdpgateway_verification.Client.Knocks.{knock_of}

-- The keys of an installation: the gateway's pair encrypts, the controller's pair signs, and each
-- is in its file.
pub record Keys {K : Type 0} (env : Env K) : Type 0 where
  pub gate_pub : K
  pub gate_pri : K
  pub con_pub : K
  pub con_pri : K
  pub md5_works : Md5Works env.ssl
  pub encrypting : IsPair env.ssl gate_pub gate_pri
  pub signing : IsSigningPair env.ssl con_pub con_pri
  pub gate_pub_file : Holds env.ssl.fopen env.ssl.read_pubkey rsa_pub_key_gateway gate_pub
  pub gate_pri_file : Holds env.ssl.fopen env.ssl.read_private_key rsa_pri_key_gateway gate_pri
  pub con_pub_file : Holds env.ssl.fopen env.ssl.read_pubkey rsa_pub_key_controller con_pub
  pub con_pri_file : Holds env.ssl.fopen env.ssl.read_private_key rsa_pri_key_controller con_pri

new_ticket_ip : (ip : Bytes) (stamp : ℕ × ℕ) → (new_ticket ip stamp).ip ≡ ip
unfolding new_ticket
new_ticket_ip ip (now, random) = refl

-- A ticket that is made before the clock wraps is good for thirty seconds.
new_ticket_timely :
    (ip : Bytes) (stamp : ℕ × ℕ) (now : ℕ)
    → stamp.0 + 30 < 2 ^ 32
    → now ≤ stamp.0 + 30
    → is_expired (new_ticket ip stamp) now ≡ false
unfolding new_ticket is_expired
new_ticket_timely ip (made, random) now small late = ground arith

module _ {K : Type 0} (env : Env K) (keys : Keys env) (ticket_codec : RoundTrips env.ticket)
    (packet_codec : RoundTrips env.ticket_packet) where
  -- The gateway decrypts what the controller encrypted.
  ticket_decrypts :
      (ticket : Ticket) (packet : TicketPacket)
      → encrypt_ticket env.ssl env.ticket ticket rsa_pri_key_controller rsa_pub_key_gateway
        ≡ done (success packet)
      → decrypt_ticket env.ssl env.ticket packet rsa_pub_key_controller rsa_pri_key_gateway
        ≡ done (success ticket)
  ticket_decrypts ticket packet h =
      let (made, enc, dec) =
        decrypt_ticket-encrypt_ticket env.ssl keys.md5_works keys.gate_pub keys.gate_pri
          keys.encrypting rsa_pub_key_gateway rsa_pri_key_gateway keys.gate_pub_file
          keys.gate_pri_file keys.con_pub keys.con_pri keys.signing rsa_pub_key_controller
          rsa_pri_key_controller keys.con_pub_file keys.con_pri_file env.ticket ticket
          ticket_codec in
      ground (arith, enc, dec)

  -- The packet of a ticket for its sender, on a gateway that has neither black-listed the address
  -- nor seen the signature, in the ticket's time.
  ticket_admits :
      (ticket : Ticket) (packet : TicketPacket) (ip : Bytes) (now : ℕ) (g : Gateway)
      → encrypt_ticket env.ssl env.ticket ticket rsa_pri_key_controller rsa_pub_key_gateway
        ≡ done (success packet)
      → ticket.ip ≡ ip
      → is_expired ticket now ≡ false
      → controller_black_list_is_in ip g.app_tcp_port g ≡ false
      → contains packet.sign_data g.md5_map ≡ false
      → gate_func_udp_recv env now (env.ticket_packet.serialize packet) ip g
        ≡ done (pos 0, admitted packet.sign_data ip g)
  ticket_admits ticket packet ip now g made same timely white fresh =
      let msg = env.ticket_packet.serialize packet in
      let back = packet_codec.parse-serialize packet in
      admissible_passes env now msg ip g ticket (record {
        not_black = white;
        genuine = rw back (ticket_decrypts ticket packet made);
        same_ip = same;
        in_time = timely;
        unused = rw back fresh;
      })
      ∙ ap (λ (p : TicketPacket). done (pos 0, admitted p.sign_data ip g)) back

  -- An entry of the list that ConFuncGetAccess has made for the address, in the same way.
  pub listed_admits :
      (stamp : ℕ → ℕ × ℕ) (ip : Bytes) (req : GetAccessReq) (c : Controller) (now : ℕ) (g : Gateway)
      (before after : List AccessItem) (a : AccessItem)
      → con_func_get_access env stamp ip req c ≡ done (pos 0, before ++ a ∷ after)
      → ((i : ℕ) → ((stamp i).0 + 30 < 2 ^ 32) × (now ≤ (stamp i).0 + 30))
      → controller_black_list_is_in ip g.app_tcp_port g ≡ false
      → contains a.ticket_packet.sign_data g.md5_map ≡ false
      → gate_func_udp_recv env now (env.ticket_packet.serialize a.ticket_packet) ip g
        ≡ done (pos 0, admitted a.ticket_packet.sign_data ip g)
  listed_admits stamp ip req c now g before after a listed timely white fresh =
      let (i, made) =
        All-middle (HasTicket env stamp ip req.account.acc c) before a after
          (con_func_get_access_lem env stamp ip req c listed).1 in
      ticket_admits (new_ticket ip (stamp i)) a.ticket_packet ip now g made
        (new_ticket_ip ip (stamp i)) (new_ticket_timely ip (stamp i) now (timely i).0 (timely i).1)
        white fresh

  -- With the keys in their files and codecs that round-trip, the knock for an entry `a` of the list
  -- that ConFuncGetAccess has made for the address `ip`: if the clock stays below 2^32, the knock
  -- comes in at most thirty seconds after the entry's ticket was made, and the gateway has neither
  -- black-listed the address nor seen the signature, then the gateway handles the datagram with the
  -- result 0 and has opened its port for the address.
  pub access_opens_gateway :
      (stamp : ℕ → ℕ × ℕ) (ip : Bytes) (req : GetAccessReq) (c : Controller) (now : ℕ)
      (junk port : ℤ) (g : Gateway) (before after : List AccessItem) (a : AccessItem)
      → con_func_get_access env stamp ip req c ≡ done (pos 0, before ++ a ∷ after)
      → ((i : ℕ) → ((stamp i).0 + 30 < 2 ^ 32) × (now ≤ (stamp i).0 + 30))
      → controller_black_list_is_in ip g.app_tcp_port g ≡ false
      → contains a.ticket_packet.sign_data g.md5_map ≡ false
      → handle_udp_request env
          (gateway_service env now junk)
          (datagram (knock_of env a).msg ip port)
          g
        ≡ done (pos 0, admitted a.ticket_packet.sign_data ip g)
  unfolding handle_udp_request gateway_service memory_copy_to_string
  access_opens_gateway stamp ip req c now junk port g before after a listed timely white fresh =
      ground (
        arith,
        memory_corp_to_object-copy 201 (omega arith),
        udp_recv-datagram (knock_of env a).msg ip port,
        listed_admits stamp ip req c now g before after a listed timely white fresh,
      )
