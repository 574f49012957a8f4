-- ===== src/Spa.antt =====
-- comm/spatools/spa_tool.cpp: packets of vouchers and tickets. An output parameter that a failed
-- call leaves alone or half written is not read by any caller, so a failure gives the code only.
pub mod Digest
pub mod RoundTrip
use sdpgateway_verification.Prelude.{
  ◌≡◌, Bool, Option, none, some, not, if◌then◌else◌, ℤ, pos, minus_one, is_neg, Bytes, bytes_eq,
  Outcome, done, fault, ◌>>=◌,
}
use sdpgateway_verification.Tlog.{i_assert}
use sdpgateway_verification.OpenSsl.{OpenSsl}
use sdpgateway_verification.Rsa.{rsa_encrypt, rsa_decrypt, rsa_sign, rsa_verify, md5_encrypt}
use sdpgateway_verification.Messages.{Codec, Voucher, VoucherPacket, Ticket, TicketPacket}

-- What a tool returns: a negative code, or 0 with its output.
pub data Answer (A : Type 0) : Type 0 where
  failed : ℤ → Answer A
  success : A → Answer A

module _ {K : Type 0} (ssl : OpenSsl K) where
  -- EncryptVoucher
  unfoldable pub encrypt_voucher : Codec Voucher → Voucher → Bytes → Outcome (Answer VoucherPacket)
  encrypt_voucher codec voucher key = do
    let text = codec.serialize voucher
    (ret, rsa_en_text) ← rsa_encrypt ssl text key
    i_assert ret (done (failed minus_one)) (
        let (ret2, md5_en_text) = md5_encrypt ssl text in
        i_assert ret2 (done (failed minus_one))
          (done (success (record { enc_data = rsa_en_text; md5_data = md5_en_text }))))

  -- DecryptVoucher
  unfoldable pub decrypt_voucher : Codec Voucher → VoucherPacket → Bytes → Outcome (Answer Voucher)
  decrypt_voucher codec packet key = do
    (ret, rsa_de_text) ← rsa_decrypt ssl packet.enc_data key
    i_assert ret (done (failed minus_one)) (
        let (ret2, md5_en_text_new) = md5_encrypt ssl rsa_de_text in
        i_assert ret2 (done (failed minus_one)) (
          if not (bytes_eq md5_en_text_new packet.md5_data)
          then done (failed minus_one)
          else done (success (codec.parse rsa_de_text))))

  -- EncryptTicket
  unfoldable pub encrypt_ticket :
      Codec Ticket → Ticket → Bytes → Bytes → Outcome (Answer TicketPacket)
  encrypt_ticket codec ticket sign_pri_key enc_pub_key = do
    let text = codec.serialize ticket
    (ret, rsa_en_text) ← rsa_encrypt ssl text enc_pub_key
    i_assert ret (done (failed minus_one)) (
        let (ret2, md5_en_text) = md5_encrypt ssl text in
        i_assert ret2 (done (failed minus_one)) (do
          (ret3, rsa_sign_text) ← rsa_sign ssl text sign_pri_key
          i_assert ret3 (done (failed minus_one)) (
              done (
                success (record {
                  enc_data = rsa_en_text;
                  md5_data = md5_en_text;
                  sign_data = rsa_sign_text;
                })))))

  -- DecryptTicket
  unfoldable pub decrypt_ticket :
      Codec Ticket → TicketPacket → Bytes → Bytes → Outcome (Answer Ticket)
  decrypt_ticket codec packet sign_pub_key enc_pri_key = do
    (ret, rsa_de_text) ← rsa_decrypt ssl packet.enc_data enc_pri_key
    i_assert ret (done (failed minus_one)) (
        let (ret2, md5_en_text_new) = md5_encrypt ssl rsa_de_text in
        i_assert ret2 (done (failed minus_one)) (
          if not (bytes_eq md5_en_text_new packet.md5_data) then done (failed minus_one) else do
            ret3 ← rsa_verify ssl packet.sign_data rsa_de_text sign_pub_key
            i_assert ret3 (done (failed minus_one)) (done (success (codec.parse rsa_de_text)))))
