-- ===== src/Rsa/Signature.antt =====
-- RSAVerify against RSASign, of comm/ssltools/ssl_tool.cpp.
use sdpgateway_verification.Prelude.{
  ℕ, zero, suc, ◌≤◌, ◌<◌, ◌≡◌, refl, sym, ap, ◌∙◌, true, [], ◌∷◌, ◌++◌, arith, ltb, leb, nat_eq,
  if◌then◌else◌, ℤ, pos, Bytes, length, take, drop, Outcome, done, fault, out_of_range, ◌⊎◌, ◌≢◌,
  length-append, length-take, length-drop, take-append, drop-append, append_assoc, append-nil,
  Bool-cases, inl, inr,
}
use sdpgateway_verification.OpenSsl.{OpenSsl, IsSigningPair}
use sdpgateway_verification.Rsa.{sign_loop, verify_loop, rsa_sign, rsa_verify, limit_size}
use sdpgateway_verification.Rsa.RoundTrip.{Holds}

module _ {K : Type 0} (ssl : OpenSsl K) (pub_key pri_key : K)
    (pair : IsSigningPair ssl pub_key pri_key) where
  abbrev size : ℕ
  size = limit_size ssl pub_key

  -- One round of the check, on a block that verifies and what follows it.
  verify_block :
      (fuel x : ℕ) (xs block rest : Bytes)
      → length block ≡ ssl.rsa_size pub_key
      → ssl.verify pub_key (take size (x ∷ xs)) block ≡ true
      → verify_loop ssl (suc fuel) pub_key (x ∷ xs) (block ++ rest) ≡ (
          if nat_eq (length rest) 0
          then done (pos 0)
          else if ltb (length (x ∷ xs)) size
          then fault out_of_range
          else verify_loop ssl fuel pub_key (drop size (x ∷ xs)) rest)
  unfolding verify_loop
  verify_block fuel x xs block rest len ok = ground (
    arith,
    len,
    ok,
    length-append block rest,
    append_assoc block rest (0 ∷ []),
    take-append (ssl.rsa_size pub_key) block (rest ++ 0 ∷ []) len,
    drop-append (ssl.rsa_size pub_key) block rest len,
  )

  -- What the loop of RSASign adds for a text, and that RSAVerify accepts it.
  abbrev Accepted : Bytes → Bytes → Outcome (ℤ × Bytes) → Type 0
  Accepted src acc r =
      (added : Bytes) × (r ≡ done (pos 0, acc ++ added))
      × ((src ≡ []) ⊎ (0 < length added))
      × ((g : ℕ) → length src < g → verify_loop ssl g pub_key src added ≡ done (pos 0))

  take_fits : (text : Bytes) → length (take size text) ≤ size
  take_fits text = omega (arith, length-take size text)

  last_signature :
      (x : ℕ) (xs acc : Bytes)
      → length (x ∷ xs) ≤ size
      → Accepted (x ∷ xs) acc (done (pos 0, acc ++ ssl.sign pri_key (take size (x ∷ xs))))
  last_signature x xs acc h = (
    block,
    refl,
    inr (omega (arith, pair.block_size text (take_fits (x ∷ xs)), pair.room)),
    checks,
  )
    where
      text : Bytes
      text = take size (x ∷ xs)

      block : Bytes
      block = ssl.sign pri_key text

      checks :
          (g : ℕ) → length (x ∷ xs) < g → verify_loop ssl g pub_key (x ∷ xs) block ≡ done (pos 0)
      checks zero k = absurd (omega arith)
      checks (suc g) k =
          ap (verify_loop ssl (suc g) pub_key (x ∷ xs)) (sym (append-nil block))
          ∙ verify_block g x xs block [] (pair.block_size text (take_fits (x ∷ xs)))
              (pair.verifies text (take_fits (x ∷ xs)))

  one_more_signature :
      (x : ℕ) (xs acc : Bytes) (r : Outcome (ℤ × Bytes))
      → size < length (x ∷ xs)
      → Accepted (drop size (x ∷ xs)) (acc ++ ssl.sign pri_key (take size (x ∷ xs))) r
      → Accepted (x ∷ xs) acc r
  one_more_signature x xs acc r h (added, eq, filled, rest) = (
    block ++ added,
    eq ∙ ap (λ t. done (pos 0, t)) (append_assoc acc block added),
    inr (
        omega
          (arith, pair.block_size text (take_fits (x ∷ xs)), pair.room, length-append block added)),
    checks,
  )
    where
      text : Bytes
      text = take size (x ∷ xs)

      block : Bytes
      block = ssl.sign pri_key text

      some_left : 0 < length added
      some_left = elim filled [
        | inl e ↦ absurd (omega (arith, ap length e, length-drop size (x ∷ xs)))
        | inr p ↦ p
      ]

      checks :
          (g : ℕ)
          → length (x ∷ xs) < g
          → verify_loop ssl g pub_key (x ∷ xs) (block ++ added) ≡ done (pos 0)
      checks zero k = absurd (omega arith)
      checks (suc g) k =
          verify_block g x xs block added (pair.block_size text (take_fits (x ∷ xs)))
            (pair.verifies text (take_fits (x ∷ xs)))
          ∙ ground (arith, some_left, rest g (omega (arith, length-drop size (x ∷ xs), pair.room)))

  -- A round of the signing loop, with the size of the public key.
  sign_block :
      (f x : ℕ) (xs acc : Bytes)
      → sign_loop ssl (suc f) pri_key (x ∷ xs) acc ≡ (
          if leb (length (x ∷ xs)) size
          then done (pos 0, acc ++ ssl.sign pri_key (take size (x ∷ xs)))
          else sign_loop ssl f pri_key
              (drop size (x ∷ xs))
              (acc ++ ssl.sign pri_key (take size (x ∷ xs))))
  unfolding sign_loop
  sign_block f x xs acc = rw pair.same_size

  sign_end : (f : ℕ) (acc : Bytes) → Accepted [] acc (sign_loop ssl (suc f) pri_key [] acc)
  unfolding sign_loop
  sign_end f acc = ([], ap (λ t. done (pos 0, t)) (sym (append-nil acc)), inl refl, checks)
    where
      checks : (g : ℕ) → 0 < g → verify_loop ssl g pub_key [] [] ≡ done (pos 0)
      checks zero k = absurd (omega arith)
      checks (suc g) k = unfold verify_loop in refl

  signed :
      (f : ℕ) (src acc : Bytes)
      → length src < f
      → Accepted src acc (sign_loop ssl f pri_key src acc)
  signed zero src acc h = absurd (omega arith)
  signed (suc f) [] acc h = sign_end f acc
  signed (suc f) (x ∷ xs) acc h = elim (Bool-cases (leb (length (x ∷ xs)) size)) [
    | inl small ↦ rw (sign_block f x xs acc, small) (last_signature x xs acc (ground arith))
    | inr large ↦
        rw (sign_block f x xs acc, large)
          (one_more_signature x xs acc _ (ground arith)
            (signed f (drop size (x ∷ xs)) _ (omega (arith, length-drop size (x ∷ xs), pair.room))))
  ]

-- With the two files of one key pair, RSASign returns 0 on a text of any length, and RSAVerify
-- accepts its output for that text.
pub rsa_verify-rsa_sign :
    {K : Type 0} (ssl : OpenSsl K) (pub_key pri_key : K)
    → IsSigningPair ssl pub_key pri_key
    → (pub_path pri_path : Bytes) → Holds ssl.fopen ssl.read_pubkey pub_path pub_key
    → Holds ssl.fopen ssl.read_private_key pri_path pri_key
    → (text : Bytes)
    → (sig : Bytes) × (rsa_sign ssl text pri_path ≡ done (pos 0, sig))
      × (rsa_verify ssl sig text pub_path ≡ done (pos 0))
unfolding rsa_sign rsa_verify
rsa_verify-rsa_sign ssl pub_key pri_key pair pub_path pri_path hp hs text =
    let (sig, e, filled, checks) =
      signed ssl pub_key pri_key pair (suc (length text)) text [] (omega arith) in
    (
      sig,
      ground (arith, hs.opens, hs.reads, e),
      ground (arith, hp.opens, hp.reads, checks (suc (length text)) (omega arith)),
    )

-- With the file of the public key of a pair: the signature of a text that fills one block is
-- accepted for this text with anything behind it.
pub rsa_verify_any_tail :
    {K : Type 0} (ssl : OpenSsl K) (pub_key pri_key : K)
    → IsSigningPair ssl pub_key pri_key
    → (pub_path : Bytes) → Holds ssl.fopen ssl.read_pubkey pub_path pub_key
    → (text tail : Bytes) → length text ≡ limit_size ssl pub_key
    → rsa_verify ssl (ssl.sign pri_key text) (text ++ tail) pub_path ≡ done (pos 0)
unfolding rsa_verify
rsa_verify_any_tail ssl pub_key pri_key pair pub_path hp [] tail len =
    absurd (omega (arith, pair.room))
rsa_verify_any_tail ssl pub_key pri_key pair pub_path hp (x ∷ xs) tail len = ground (
  arith,
  hp.opens,
  hp.reads,
  ap (verify_loop ssl (suc (length (x ∷ xs ++ tail))) pub_key (x ∷ xs ++ tail))
      (append-nil (ssl.sign pri_key (x ∷ xs))),
  verify_block ssl pub_key pri_key pair (length (x ∷ xs ++ tail)) x (xs ++ tail)
      (ssl.sign pri_key (x ∷ xs)) [] (pair.block_size (x ∷ xs) (omega (arith, len)))
      (rw (take-append (limit_size ssl pub_key) (x ∷ xs) tail len)
        (pair.verifies (x ∷ xs) (omega (arith, len)))),
)

-- With the file of a public key, a text that is not empty is accepted only with a signature whose
-- first block verifies its first block.
pub rsa_verify_sound :
    {K : Type 0} (ssl : OpenSsl K) (pub_key : K) (pub_path : Bytes)
    → Holds ssl.fopen ssl.read_pubkey pub_path pub_key
    → (sig text : Bytes) → text ≢ []
    → rsa_verify ssl sig text pub_path ≡ done (pos 0)
    → ssl.verify pub_key
        (take (limit_size ssl pub_key) text)
        (take (ssl.rsa_size pub_key) (sig ++ 0 ∷ []))
      ≡ true
unfolding rsa_verify verify_loop
rsa_verify_sound ssl pub_key pub_path hp sig [] h e = absurd (h refl)
rsa_verify_sound ssl pub_key pub_path hp sig (x ∷ xs) h e = ground (arith, hp.opens, hp.reads)
