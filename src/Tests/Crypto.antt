-- ===== src/Tests/Crypto.antt =====
-- The cryptographic tools with the stand-in keys.
use sdpgateway_verification.Prelude.{
  ◌≢◌, arith, fault, pending, ◌≡◌, refl, [], ◌++◌, pos, Bytes, txt, take, done,
}
use sdpgateway_verification.Messages.{Voucher, VoucherPacket, Ticket, TicketPacket}
use sdpgateway_verification.CommDef.{
  rsa_pub_key_controller, rsa_pri_key_controller, rsa_pub_key_gateway, rsa_pri_key_gateway,
}
use sdpgateway_verification.Rsa.{rsa_encrypt, rsa_decrypt, rsa_sign, rsa_verify}
use sdpgateway_verification.Rsa.RoundTrip.{rsa_decrypt-rsa_encrypt}
use sdpgateway_verification.Rsa.Termination.{rsa_tools_end}
use sdpgateway_verification.Rsa.Signature.{rsa_verify-rsa_sign, rsa_verify_any_tail}
use sdpgateway_verification.Spa.{
  success, encrypt_voucher, decrypt_voucher, encrypt_ticket, decrypt_ticket,
}
use sdpgateway_verification.Spa.RoundTrip.{
  decrypt_voucher-encrypt_voucher, decrypt_ticket-encrypt_ticket,
}
use sdpgateway_verification.Prelude.{List}
use sdpgateway_verification.Rsa.Blocks.{IsBlocks, concat, encrypt_blocks, rsa_encrypt_by-IsBlocks}
use sdpgateway_verification.Tests.ToyCodec.{
  toy_voucher, toy_voucher-RoundTrips, toy_ticket, toy_ticket-RoundTrips,
}
use sdpgateway_verification.Tests.ToyEnv.{
  toy_ssl, toy_sign, toy_ssl-IsPair, toy_ssl-IsSigningPair, toy_ssl-Md5Works, toy_ssl-Holds,
  toy_ssl-Holds_private,
}

-- A text of three blocks.
abbrev long_text : Bytes
long_text = txt "0123456789abcdefghij0123456789abcdefghij0123456789"

abbrev pub alice : Voucher
alice = record {
  account = record { acc = txt "xiaoming"; pwd = txt "123456" };
  mac = txt "00:16:3e";
  address = txt "ChengDu";
  timestamp = 1000;
  random = 7;
}

abbrev a_ticket : Ticket
a_ticket = record { ip = txt "1.2.3.4"; timestamp = 1000; random = 7; valid_seconds = 30 }

rsa_decrypt-rsa_encrypt_example :
    (cipher : Bytes) × (rsa_encrypt toy_ssl long_text (txt "pub.pem") ≡ done (pos 0, cipher))
    × (rsa_decrypt toy_ssl cipher (txt "pri.pem") ≡ done (pos 0, long_text))
rsa_decrypt-rsa_encrypt_example =
    rsa_decrypt-rsa_encrypt toy_ssl 0 0 toy_ssl-IsPair (txt "pub.pem") (txt "pri.pem")
      (toy_ssl-Holds (txt "pub.pem")) (toy_ssl-Holds_private (txt "pri.pem")) long_text

rsa_verify-rsa_sign_example :
    (sig : Bytes) × (rsa_sign toy_ssl long_text (txt "pri.pem") ≡ done (pos 0, sig))
    × (rsa_verify toy_ssl sig long_text (txt "pub.pem") ≡ done (pos 0))
rsa_verify-rsa_sign_example =
    rsa_verify-rsa_sign toy_ssl 0 0 toy_ssl-IsSigningPair (txt "pub.pem") (txt "pri.pem")
      (toy_ssl-Holds (txt "pub.pem")) (toy_ssl-Holds_private (txt "pri.pem")) long_text

rsa_verify_any_tail_example :
    rsa_verify toy_ssl
      (toy_sign (take 22 long_text))
      (take 22 long_text ++ txt "anything")
      (txt "pub.pem")
    ≡ done (pos 0)
rsa_verify_any_tail_example =
    rsa_verify_any_tail toy_ssl 0 0 toy_ssl-IsSigningPair (txt "pub.pem")
      (toy_ssl-Holds (txt "pub.pem")) (take 22 long_text) (txt "anything") refl

decrypt_voucher-encrypt_voucher_example :
    (packet : VoucherPacket) × (encrypt_voucher toy_ssl toy_voucher alice rsa_pub_key_controller
      ≡ done (success packet))
    × (decrypt_voucher toy_ssl toy_voucher packet rsa_pri_key_controller ≡ done (success alice))
decrypt_voucher-encrypt_voucher_example =
    decrypt_voucher-encrypt_voucher toy_ssl toy_ssl-Md5Works 0 0 toy_ssl-IsPair
      rsa_pub_key_controller rsa_pri_key_controller (toy_ssl-Holds rsa_pub_key_controller)
      (toy_ssl-Holds_private rsa_pri_key_controller) toy_voucher alice toy_voucher-RoundTrips

decrypt_ticket-encrypt_ticket_example :
    (packet : TicketPacket) × (encrypt_ticket toy_ssl toy_ticket a_ticket rsa_pri_key_controller
        rsa_pub_key_gateway
      ≡ done (success packet))
    × (decrypt_ticket toy_ssl toy_ticket packet rsa_pub_key_controller rsa_pri_key_gateway
        ≡ done (success a_ticket))
decrypt_ticket-encrypt_ticket_example =
    decrypt_ticket-encrypt_ticket toy_ssl toy_ssl-Md5Works 0 0 toy_ssl-IsPair rsa_pub_key_gateway
      rsa_pri_key_gateway (toy_ssl-Holds rsa_pub_key_gateway)
      (toy_ssl-Holds_private rsa_pri_key_gateway) 0 0 toy_ssl-IsSigningPair rsa_pub_key_controller
      rsa_pri_key_controller (toy_ssl-Holds rsa_pub_key_controller)
      (toy_ssl-Holds_private rsa_pri_key_controller) toy_ticket a_ticket toy_ticket-RoundTrips

rsa_tools_end_example :
    (rsa_encrypt toy_ssl long_text (txt "a.pem") ≢ fault pending)
    × (rsa_decrypt toy_ssl long_text (txt "a.pem") ≢ fault pending)
    × (rsa_sign toy_ssl long_text (txt "a.pem") ≢ fault pending)
    × (rsa_verify toy_ssl (txt "sig") long_text (txt "a.pem") ≢ fault pending)
rsa_tools_end_example =
    rsa_tools_end toy_ssl (λ key. omega arith) long_text (txt "sig") (txt "a.pem")

rsa_encrypt_by-IsBlocks_example :
    (bs : List Bytes) × IsBlocks 22 bs
    × (concat bs ≡ long_text)
    × (rsa_encrypt toy_ssl long_text (txt "pub.pem") ≡ done (encrypt_blocks toy_ssl 0 bs []))
rsa_encrypt_by-IsBlocks_example =
    rsa_encrypt_by-IsBlocks toy_ssl 0 (txt "pub.pem") (omega arith) (toy_ssl-Holds (txt "pub.pem"))
      long_text
