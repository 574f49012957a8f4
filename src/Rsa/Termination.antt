-- ===== src/Rsa/Termination.antt =====
-- The loops of SSLTools, of comm/ssltools/ssl_tool.cpp, and their fuel.
use sdpgateway_verification.Prelude.{
  ℕ, zero, suc, ◌<◌, ◌≢◌, Option, Option-cases, [], ◌∷◌, ◌++◌, arith, inl, inr, Bytes, length, take,
  drop, length-drop, Outcome, done, fault, pending,
}
use sdpgateway_verification.OpenSsl.{OpenSsl}
use sdpgateway_verification.Rsa.{
  encrypt_loop, rsa_encrypt, decrypt_loop, rsa_decrypt, sign_loop, rsa_sign, verify_loop,
  rsa_verify, limit_size, with_key,
}

module _ {K : Type 0} (ssl : OpenSsl K) (key : K) (room : 42 < ssl.rsa_size key) where
  encrypt_ends :
      (f : ℕ) (src acc : Bytes) → length src < f → encrypt_loop ssl f key src acc ≢ fault pending
  unfolding encrypt_loop
  encrypt_ends zero src acc h e = absurd (omega arith)
  encrypt_ends (suc f) [] acc h e = cc
  encrypt_ends (suc f) (x ∷ xs) acc h e =
      elim (Option-cases (ssl.public_encrypt key (take (limit_size ssl key) (x ∷ xs)))) [
        | inl bad ↦ ground (arith, bad)
        | inr (block, good) ↦ ground (
          arith,
          good,
          length-drop (limit_size ssl key) (x ∷ xs),
          encrypt_ends f (drop (limit_size ssl key) (x ∷ xs)) (acc ++ block),
        )
      ]

  decrypt_ends :
      (f : ℕ) (src acc : Bytes) → length src < f → decrypt_loop ssl f key src acc ≢ fault pending
  unfolding decrypt_loop
  decrypt_ends zero src acc h e = absurd (omega arith)
  decrypt_ends (suc f) [] acc h e = cc
  decrypt_ends (suc f) (x ∷ xs) acc h e =
      elim (Option-cases (ssl.private_decrypt key (take (ssl.rsa_size key) ((x ∷ xs) ++ 0 ∷ [])))) [
        | inl bad ↦ ground (arith, bad)
        | inr (to, good) ↦ ground (
          arith,
          good,
          length-drop (ssl.rsa_size key) (x ∷ xs),
          decrypt_ends f (drop (ssl.rsa_size key) (x ∷ xs)) (acc ++ to),
        )
      ]

  sign_ends :
      (f : ℕ) (src acc : Bytes) → length src < f → sign_loop ssl f key src acc ≢ fault pending
  unfolding sign_loop
  sign_ends zero src acc h e = absurd (omega arith)
  sign_ends (suc f) [] acc h e = cc
  sign_ends (suc f) (x ∷ xs) acc h e =
      let n = limit_size ssl key in
      ground (
        arith,
        length-drop n (x ∷ xs),
        sign_ends f (drop n (x ∷ xs)) (acc ++ ssl.sign key (take n (x ∷ xs))),
      )

  verify_ends :
      (f : ℕ) (src sig : Bytes) → length src < f → verify_loop ssl f key src sig ≢ fault pending
  unfolding verify_loop
  verify_ends zero src sig h e = absurd (omega arith)
  verify_ends (suc f) [] sig h e = cc
  verify_ends (suc f) (x ∷ xs) sig h e =
      let n = limit_size ssl key in
      ground (
        arith,
        length-drop n (x ∷ xs),
        verify_ends f (drop n (x ∷ xs)) (drop (ssl.rsa_size key) sig),
      )

with_key_ends :
    {K A : Type 0} (ssl : OpenSsl K) (read : Bytes → Option K) (path : Bytes) (a : A)
    (f : K → Outcome A)
    → ((key : K) → f key ≢ fault pending)
    → with_key ssl read path (done a) f ≢ fault pending
unfolding with_key
with_key_ends ssl read path a f h e = elim (Option-cases (read path)) [
  | inl missing ↦ ground (arith, missing)
  | inr (key, there) ↦ ground (arith, there, h key)
]

-- With keys of more than 42 bytes, the four tools end on every text, signature and path: they never
-- run out of the fuel that stands for their loops.
pub rsa_tools_end :
    {K : Type 0} (ssl : OpenSsl K)
    → ((key : K) → 42 < ssl.rsa_size key)
    → (text sig path : Bytes)
    → (rsa_encrypt ssl text path ≢ fault pending)
      × (rsa_decrypt ssl text path ≢ fault pending)
      × (rsa_sign ssl text path ≢ fault pending)
      × (rsa_verify ssl sig text path ≢ fault pending)
unfolding rsa_encrypt rsa_decrypt rsa_sign rsa_verify
rsa_tools_end ssl room text sig path = (
  with_key_ends ssl ssl.read_pubkey path _ _
      (λ key. encrypt_ends ssl key (room key) (suc (length text)) text [] (omega arith)),
  with_key_ends ssl ssl.read_private_key path _ _
      (λ key. decrypt_ends ssl key (room key) (suc (length text)) text [] (omega arith)),
  with_key_ends ssl ssl.read_private_key path _ _
      (λ key. sign_ends ssl key (room key) (suc (length text)) text [] (omega arith)),
  with_key_ends ssl ssl.read_pubkey path _ _
      (λ key. verify_ends ssl key (room key) (suc (length text)) text sig (omega arith)),
)
