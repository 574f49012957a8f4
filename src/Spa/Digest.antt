-- ===== src/Spa/Digest.antt =====
-- MD5Encrypt and the digests of voucher packets.
use sdpgateway_verification.Prelude.{
  ℕ, ◌≡◌, refl, ap, [], ◌∷◌, arith, ℤ, pos, Bytes, bytes_eq_iff, length, take, done, length-take,
  inl, inr, Outcome-cases, All, subst, sym, ◌∙◌, ◌<◌,
}
use sdpgateway_verification.OpenSsl.{OpenSsl, Md5Works}
use sdpgateway_verification.Rsa.{rsa_decrypt, md5_encrypt}
use sdpgateway_verification.Messages.{Codec, Voucher, VoucherPacket}
use sdpgateway_verification.Spa.{decrypt_voucher, success}

module _ {K : Type 0} (ssl : OpenSsl K) (works : Md5Works ssl) where
  pub md5_encrypt_lem : (text : Bytes) → md5_encrypt ssl text ≡ (pos 0, take 1 (ssl.md5 text))
  unfolding md5_encrypt
  md5_encrypt_lem text = rw (works.init_ok, works.update_ok, works.final_ok)

  -- Where the MD5 calls succeed, MD5Encrypt returns 0 and a text of one byte.
  pub length-md5_encrypt :
      (text : Bytes) → ((md5_encrypt ssl text).0 ≡ pos 0) × (length (md5_encrypt ssl text).1 ≡ 1)
  length-md5_encrypt text =
      rw md5_encrypt_lem (refl, omega (arith, length-take 1 (ssl.md5 text), works.digest_size text))

-- What an accepted voucher packet is: its data decrypts to a text with its digest.
pub decrypt_voucher_success :
    {K : Type 0} (ssl : OpenSsl K) (codec : Codec Voucher) (packet : VoucherPacket) (key : Bytes)
    {v : Voucher}
    → decrypt_voucher ssl codec packet key ≡ done (success v)
    → (ret : ℤ) × (text : Bytes) × (rsa_decrypt ssl packet.enc_data key ≡ done (ret, text))
      × ((md5_encrypt ssl text).1 ≡ packet.md5_data)
      × (v ≡ codec.parse text)
unfolding decrypt_voucher
decrypt_voucher_success ssl codec packet key h =
    elim (Outcome-cases (rsa_decrypt ssl packet.enc_data key)) [
      | inl ((ret, text), e) ↦ (
        ret,
        text,
        e,
        ground (arith, e, bytes_eq_iff (md5_encrypt ssl text).1 packet.md5_data),
        ground (arith, e),
      )
      | inr (f, e) ↦ absurd (ground (arith, e))
    ]

-- A list of one byte.
abbrev pub OneByte : Bytes → Type 0
OneByte t = (b : ℕ) × (b < 256) × (t ≡ b ∷ [])

one_byte : (t : Bytes) → length t ≡ 16 → All (λ b. b < 256) t → OneByte (take 1 t)
one_byte [] h a = absurd (omega arith)
one_byte (b ∷ t) h a = (b, a.0, refl)

-- Where the MD5 calls work, the digest of a packet that DecryptVoucher accepts is one byte long.
pub decrypt_voucher_digest :
    {K : Type 0} (ssl : OpenSsl K)
    → Md5Works ssl
    → (codec : Codec Voucher) (packet : VoucherPacket) (key : Bytes) {v : Voucher}
    → decrypt_voucher ssl codec packet key ≡ done (success v)
    → OneByte packet.md5_data
decrypt_voucher_digest ssl works codec packet key h =
    let (ret, text, e, digest, parsed) = decrypt_voucher_success ssl codec packet key h in
    subst OneByte (ap (λ (r : ℤ × Bytes). r.1) (sym (md5_encrypt_lem ssl works text)) ∙ digest)
      (one_byte (ssl.md5 text) (works.digest_size text) (works.digest_bytes text))
