-- ===== src/Spa/RoundTrip.antt =====
-- The decrypting tools of comm/spatools/spa_tool.cpp against the encrypting ones.
use sdpgateway_verification.Prelude.{◌≡◌, arith, Bytes, bytes_eq_refl, done}
use sdpgateway_verification.OpenSsl.{OpenSsl, IsPair, IsSigningPair, Md5Works}
use sdpgateway_verification.Rsa.{md5_encrypt}
use sdpgateway_verification.Rsa.RoundTrip.{Holds, rsa_decrypt-rsa_encrypt}
use sdpgateway_verification.Rsa.Signature.{rsa_verify-rsa_sign}
use sdpgateway_verification.Messages.{
  Codec, RoundTrips, Voucher, VoucherPacket, Ticket, TicketPacket,
}
use sdpgateway_verification.Spa.{
  encrypt_voucher, decrypt_voucher, encrypt_ticket, decrypt_ticket, success,
}
use sdpgateway_verification.Spa.Digest.{length-md5_encrypt}

module _ {K : Type 0} (ssl : OpenSsl K) (works : Md5Works ssl) (pub_key pri_key : K)
    (pair : IsPair ssl pub_key pri_key) (pub_path pri_path : Bytes)
    (hp : Holds ssl.fopen ssl.read_pubkey pub_path pub_key)
    (hs : Holds ssl.fopen ssl.read_private_key pri_path pri_key) where
  -- With working MD5 calls, one key pair in its two files and a codec that round-trips, for a
  -- voucher of any size: EncryptVoucher with the public key file succeeds, and DecryptVoucher of
  -- the packet with the private key file gives the voucher back.
  pub decrypt_voucher-encrypt_voucher :
      (codec : Codec Voucher) (voucher : Voucher)
      → RoundTrips codec
      → (packet : VoucherPacket) × (encrypt_voucher ssl codec voucher pub_path
          ≡ done (success packet))
        × (decrypt_voucher ssl codec packet pri_path ≡ done (success voucher))
  unfolding encrypt_voucher decrypt_voucher
  decrypt_voucher-encrypt_voucher codec voucher trips =
      let text = codec.serialize voucher in
      let (cipher, enc, dec) =
        rsa_decrypt-rsa_encrypt ssl pub_key pri_key pair pub_path pri_path hp hs text in
      let digest = length-md5_encrypt ssl works text in
      (
        record { enc_data = cipher; md5_data = (md5_encrypt ssl text).1 },
        ground (arith, enc, digest),
        ground (
          arith,
          dec,
          digest,
          bytes_eq_refl (md5_encrypt ssl text).1,
          trips.parse-serialize voucher,
        ),
      )

  -- With working MD5 calls, a key pair for encryption and one for signatures in their files and a
  -- codec that round-trips, for a ticket of any size: EncryptTicket succeeds, and
  -- DecryptTicket with the opposite key files accepts the signature and gives the ticket back.
  pub decrypt_ticket-encrypt_ticket :
      (sign_pub sign_pri : K)
      → IsSigningPair ssl sign_pub sign_pri
      → (sign_pub_path sign_pri_path : Bytes)
      → Holds ssl.fopen ssl.read_pubkey sign_pub_path sign_pub
      → Holds ssl.fopen ssl.read_private_key sign_pri_path sign_pri
      → (codec : Codec Ticket) (ticket : Ticket) → RoundTrips codec
      → (packet : TicketPacket) × (encrypt_ticket ssl codec ticket sign_pri_path pub_path
          ≡ done (success packet))
        × (decrypt_ticket ssl codec packet sign_pub_path pri_path ≡ done (success ticket))
  unfolding encrypt_ticket decrypt_ticket
  decrypt_ticket-encrypt_ticket sign_pub sign_pri signing spub spri hsp hss codec ticket trips =
      let text = codec.serialize ticket in
      let (cipher, enc, dec) =
        rsa_decrypt-rsa_encrypt ssl pub_key pri_key pair pub_path pri_path hp hs text in
      let (sig, signs, verifies) =
        rsa_verify-rsa_sign ssl sign_pub sign_pri signing spub spri hsp hss text in
      let digest = length-md5_encrypt ssl works text in
      (
        record { enc_data = cipher; md5_data = (md5_encrypt ssl text).1; sign_data = sig },
        ground (arith, enc, digest, signs),
        ground (
          arith,
          dec,
          digest,
          verifies,
          bytes_eq_refl (md5_encrypt ssl text).1,
          trips.parse-serialize ticket,
        ),
      )
