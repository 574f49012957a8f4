-- ===== src/Rsa.antt =====
-- SSLTools of comm/ssltools/ssl_tool.cpp: encryption, decryption, signature and its check in
-- blocks, and the digest. A key of under 336 bits, where `limit_size` would be negative, is not
-- modelled. Each loop has the length of its text, and one, as fuel; `pending` is its end.
pub mod RoundTrip
pub mod Blocks
pub mod Signature
pub mod Termination
use sdpgateway_verification.Prelude.{
  ℕ, zero, suc, ◌+◌, ◌-◌, ◌≡◌, Bool, true, false, Option, none, some, List, [], ◌∷◌, ◌++◌, ltb, leb,
  nat_eq, if◌then◌else◌, ℤ, pos, negsuc, minus_one, is_neg, Bytes, length, take, drop, Outcome,
  done, fault, out_of_range, over_read, over_write, pending, ◌>>=◌,
}
use sdpgateway_verification.Tlog.{i_assert}
use sdpgateway_verification.OpenSsl.{OpenSsl}

module _ {K : Type 0} (ssl : OpenSsl K) where
  open ssl use {
    fopen, read_pubkey, read_private_key, rsa_size, public_encrypt, private_decrypt, sign, verify,
    md5_init, md5_update, md5_final, md5,
  }

  -- fopen and PEM_read: with no key the caller returns -1.
  with_key : {A : Type 0} → (Bytes → Option K) → Bytes → A → (K → A) → A
  with_key read path failed f =
      if fopen path then elim (read path) [ none ↦ failed | some key ↦ f key ] else failed

  abbrev pub limit_size : K → ℕ
  limit_size key = rsa_size key - 42

  -- The rounds of RSAEncrypt, with the text left and the output so far.
  unfoldable pub encrypt_loop : ℕ → K → Bytes → Bytes → Outcome (ℤ × Bytes)
  encrypt_loop zero key src to_text = fault pending
  encrypt_loop (suc fuel) key [] to_text = done (pos 0, to_text)
  encrypt_loop (suc fuel) key (x ∷ xs) to_text =
      elim (public_encrypt key (take (limit_size key) (x ∷ xs))) [
        | none ↦ done (minus_one, to_text)
        | some to ↦
            let rest = encrypt_loop fuel key (drop (limit_size key) (x ∷ xs)) (to_text ++ to) in
            if leb (length (x ∷ xs)) (limit_size key) then done (pos 0, to_text ++ to) else rest
      ]

  unfoldable pub rsa_encrypt : Bytes → Bytes → Outcome (ℤ × Bytes)
  unfolding encrypt_loop with_key
  rsa_encrypt text path =
      with_key read_pubkey path (done (minus_one, []))
        λ key. encrypt_loop (suc (length text)) key text []

  -- RSA_private_decrypt reads `rsa_size` bytes of a C string, so its end is one byte past the text,
  -- and may write more than the `limit_size` bytes of its buffer.
  unfoldable pub decrypt_loop : ℕ → K → Bytes → Bytes → Outcome (ℤ × Bytes)
  decrypt_loop zero key src to_text = fault pending
  decrypt_loop (suc fuel) key [] to_text = done (pos 0, to_text)
  decrypt_loop (suc fuel) key (x ∷ xs) to_text =
      let rest =
        λ (to : Bytes). decrypt_loop fuel key (drop (rsa_size key) (x ∷ xs)) (to_text ++ to) in
      if ltb (length (x ∷ xs) + 1) (rsa_size key)
      then fault over_read
      else elim (private_decrypt key (take (rsa_size key) ((x ∷ xs) ++ 0 ∷ []))) [
        | none ↦ done (minus_one, to_text)
        | some to ↦
            if ltb (limit_size key) (length to)
            then fault over_write
            else if ltb (length (x ∷ xs)) (rsa_size key)
            then fault out_of_range
            else rest to
      ]

  unfoldable pub rsa_decrypt : Bytes → Bytes → Outcome (ℤ × Bytes)
  unfolding decrypt_loop with_key
  rsa_decrypt text path =
      with_key read_private_key path (done (minus_one, []))
        λ key. decrypt_loop (suc (length text)) key text []

  -- The result of RSA_sign is dropped: only the size that it reports is used.
  unfoldable pub sign_loop : ℕ → K → Bytes → Bytes → Outcome (ℤ × Bytes)
  sign_loop zero key src sig_text = fault pending
  sign_loop (suc fuel) key [] sig_text = done (pos 0, sig_text)
  sign_loop (suc fuel) key (x ∷ xs) sig_text =
      let sig = sig_text ++ sign key (take (limit_size key) (x ∷ xs)) in
      let rest = sign_loop fuel key (drop (limit_size key) (x ∷ xs)) sig in
      if leb (length (x ∷ xs)) (limit_size key) then done (pos 0, sig) else rest

  unfoldable pub rsa_sign : Bytes → Bytes → Outcome (ℤ × Bytes)
  unfolding sign_loop with_key
  rsa_sign text path =
      with_key read_private_key path (done (minus_one, []))
        λ key. sign_loop (suc (length text)) key text []

  -- The rounds of RSAVerify, with the text and the signature left. `substr` behind the end throws.
  unfoldable pub verify_loop : ℕ → K → Bytes → Bytes → Outcome ℤ
  verify_loop zero key src sig = fault pending
  verify_loop (suc fuel) key [] sig = done (pos 0)
  verify_loop (suc fuel) key (x ∷ xs) sig =
      let rest = verify_loop fuel key (drop (limit_size key) (x ∷ xs)) (drop (rsa_size key) sig) in
      if ltb (length sig + 1) (rsa_size key)
      then fault over_read
      else if verify key (take (limit_size key) (x ∷ xs)) (take (rsa_size key) (sig ++ 0 ∷ []))
      then (if nat_eq (length sig) (rsa_size key)
          then done (pos 0)
          else if ltb (length (x ∷ xs)) (limit_size key)
          then fault out_of_range
          else if ltb (length sig) (rsa_size key)
          then fault out_of_range
          else rest)
      else done minus_one

  unfoldable pub rsa_verify : Bytes → Bytes → Bytes → Outcome ℤ
  unfolding verify_loop with_key
  rsa_verify sig_text src_text path =
      with_key read_pubkey path (done minus_one)
        λ key. verify_loop (suc (length src_text)) key src_text sig_text

  -- MD5Encrypt: the result of MD5_Final, a success flag, serves as the length of the digest.
  unfoldable pub md5_encrypt : Bytes → ℤ × Bytes
  md5_encrypt text =
      i_assert md5_init (minus_one, [])
        (i_assert md5_update (minus_one, [])
          (elim md5_final [ pos n ↦ (pos 0, take n (md5 text)) | negsuc n ↦ (minus_one, []) ]))
