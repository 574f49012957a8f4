-- ===== src/Rsa/RoundTrip.antt =====
-- RSADecrypt against RSAEncrypt, of comm/ssltools/ssl_tool.cpp.
use sdpgateway_verification.Prelude.{
  ℕ, zero, suc, ◌<◌, ◌≤◌, ◌≡◌, refl, sym, ap, ◌∙◌, Bool, true, Option, some, [], ◌∷◌, ◌++◌, arith,
  leb, ℤ, pos, Bytes, length, take, drop, Outcome, done, length-append, length-take, length-drop,
  take-append, drop-append, take_all, take-append-drop, append_assoc, append-nil, Option-cases,
  Bool-cases, inl, inr,
}
use sdpgateway_verification.OpenSsl.{OpenSsl, IsPair}
use sdpgateway_verification.Rsa.{encrypt_loop, decrypt_loop, rsa_encrypt, rsa_decrypt, limit_size}

module _ {K : Type 0} (ssl : OpenSsl K) (pub_key pri_key : K)
    (pair : IsPair ssl pub_key pri_key) where
  -- A round of the decryption on a block of the key's size and what follows it.
  decrypt_block :
      (fuel : ℕ) (block rest text out : Bytes)
      → ssl.public_encrypt pub_key text ≡ some block
      → length text ≤ limit_size ssl pub_key
      → decrypt_loop ssl (suc fuel) pri_key (block ++ rest) out
        ≡ decrypt_loop ssl fuel pri_key rest (out ++ text)
  unfolding decrypt_loop
  decrypt_block fuel [] rest text out e short =
      absurd (omega (arith, pair.room, pair.block_size text [] e))
  decrypt_block fuel (y ∷ ys) rest text out e short =
      let size : length (y ∷ ys) ≡ ssl.rsa_size pri_key =
        pair.block_size text (y ∷ ys) e ∙ sym pair.same_size in
      ground (
        arith,
        size,
        pair.same_size,
        short,
        length-append ys rest,
        pair.decrypts text (y ∷ ys) e,
        take-append (ssl.rsa_size pri_key) (y ∷ ys) (rest ++ 0 ∷ []) size,
        drop-append (ssl.rsa_size pri_key) (y ∷ ys) rest size,
        append_assoc ys rest (0 ∷ []),
      )

  decrypt_then :
      (fuel : ℕ) (block rest text out : Bytes) {r : Outcome (ℤ × Bytes)}
      → ssl.public_encrypt pub_key text ≡ some block
      → length text ≤ limit_size ssl pub_key
      → length (block ++ rest) < fuel
      → ((g : ℕ) → length rest < g → decrypt_loop ssl g pri_key rest (out ++ text) ≡ r)
      → decrypt_loop ssl fuel pri_key (block ++ rest) out ≡ r
  decrypt_then zero block rest text out e short h k = absurd (omega arith)
  decrypt_then (suc f) block rest text out e short h k =
      decrypt_block f block rest text out e short
      ∙ k f (omega (arith, pair.room, pair.block_size text block e, length-append block rest))

  decrypt_end :
      (fuel : ℕ) (out : Bytes) → 0 < fuel → decrypt_loop ssl fuel pri_key [] out ≡ done (pos 0, out)
  unfolding decrypt_loop
  decrypt_end zero out h = absurd (omega arith)
  decrypt_end (suc f) out h = refl

  -- Encryption adds to its output what the decryption of the added part turns back.
  abbrev Undone : Bytes → Bytes → Bytes → Type 0
  Undone src acc cipher =
      (added : Bytes) × (cipher ≡ acc ++ added)
      × ((g : ℕ) (out : Bytes)
          → length added < g
          → decrypt_loop ssl g pri_key added out ≡ done (pos 0, out ++ src))

  last_block :
      (src acc block cipher : Bytes)
      → ssl.public_encrypt pub_key src ≡ some block
      → length src ≤ limit_size ssl pub_key
      → cipher ≡ acc ++ block
      → Undone src acc cipher
  last_block src acc block cipher e short h = (
    block,
    h,
    λ g out k.
        ap (λ b. decrypt_loop ssl g pri_key b out) (sym (append-nil block))
        ∙ decrypt_then g block [] src out e short (rw append-nil k)
            (λ g' k'. decrypt_end g' (out ++ src) (omega arith)),
  )

  one_more_block :
      (src rest acc block cipher : Bytes)
      → ssl.public_encrypt pub_key src ≡ some block
      → length src ≤ limit_size ssl pub_key
      → Undone rest (acc ++ block) cipher
      → Undone (src ++ rest) acc cipher
  one_more_block src rest acc block cipher e short (added, eq, undo) = (
    block ++ added,
    eq ∙ append_assoc acc block added,
    λ g out k.
        decrypt_then g block added src out e short k (λ g' k'.
          undo g' (out ++ src) k' ∙ ap (λ t. done (pos 0, t)) (append_assoc out src rest)),
  )

  loops :
      (f : ℕ) (src acc cipher : Bytes)
      → encrypt_loop ssl f pub_key src acc ≡ done (pos 0, cipher)
      → Undone src acc cipher
  unfolding encrypt_loop
  loops zero src acc cipher h = cc
  loops (suc f) [] acc cipher h = (
    [],
    ground (arith, append-nil acc),
    λ g out k. decrypt_end g out k ∙ ap (λ t. done (pos 0, t)) (sym (append-nil out)),
  )
  loops (suc f) (x ∷ xs) acc cipher h =
      let size = limit_size ssl pub_key in
      elim (Option-cases (ssl.public_encrypt pub_key (take size (x ∷ xs)))) [
        | inl e ↦ absurd (ground arith)
        | inr (block, e) ↦ elim (Bool-cases (leb (length (x ∷ xs)) size)) [
          | inl small ↦
              let all : take size (x ∷ xs) ≡ x ∷ xs = take_all size (x ∷ xs) (ground arith) in
              last_block (x ∷ xs) acc block cipher (rw all at e) (ground arith) (ground arith)
          | inr large ↦ rw (← take-append-drop size (x ∷ xs)) (
              one_more_block (take size (x ∷ xs)) (drop size (x ∷ xs)) acc block cipher e
                (omega (arith, length-take size (x ∷ xs)))
                (loops f (drop size (x ∷ xs)) (acc ++ block) cipher (ground arith)))
        ]
      ]

  -- The fuel is enough, and no round fails.
  encrypt_total :
      (f : ℕ) (src acc : Bytes)
      → length src < f
      → (cipher : Bytes) × (encrypt_loop ssl f pub_key src acc ≡ done (pos 0, cipher))
  unfolding encrypt_loop
  encrypt_total zero src acc h = absurd (omega arith)
  encrypt_total (suc f) [] acc h = (acc, refl)
  encrypt_total (suc f) (x ∷ xs) acc h =
      let size = limit_size ssl pub_key in
      let (block, e) =
        pair.encrypts (take size (x ∷ xs)) (omega (arith, length-take size (x ∷ xs))) in
      elim (Bool-cases (leb (length (x ∷ xs)) size)) [
        | inl small ↦ (acc ++ block, ground (arith, e))
        | inr large ↦
            let (cipher, rest) =
              encrypt_total f (drop size (x ∷ xs)) (acc ++ block)
                (omega (arith, length-drop size (x ∷ xs), pair.room)) in
            (cipher, ground (arith, e, rest))
      ]

-- A key file that opens and holds the key.
pub record Holds {K : Type 0} (fopen : Bytes → Bool) (read : Bytes → Option K) (path : Bytes)
    (key : K) : Type 0 where
  pub opens : fopen path ≡ true
  pub reads : read path ≡ some key

-- With the two files of one key pair, RSAEncrypt returns 0 on a text of any length, and RSADecrypt
-- of its output returns 0 and the text.
pub rsa_decrypt-rsa_encrypt :
    {K : Type 0} (ssl : OpenSsl K) (pub_key pri_key : K)
    → IsPair ssl pub_key pri_key
    → (pub_path pri_path : Bytes) → Holds ssl.fopen ssl.read_pubkey pub_path pub_key
    → Holds ssl.fopen ssl.read_private_key pri_path pri_key
    → (text : Bytes)
    → (cipher : Bytes) × (rsa_encrypt ssl text pub_path ≡ done (pos 0, cipher))
      × (rsa_decrypt ssl cipher pri_path ≡ done (pos 0, text))
unfolding rsa_encrypt rsa_decrypt
rsa_decrypt-rsa_encrypt ssl pub_key pri_key pair pub_path pri_path hp hs text =
    let (cipher, e) =
      encrypt_total ssl pub_key pri_key pair (suc (length text)) text [] (omega arith) in
    let (added, same, undo) = loops ssl pub_key pri_key pair (suc (length text)) text [] cipher e in
    (
      cipher,
      ground (arith, hp.opens, hp.reads, e),
      ap (λ c. rsa_decrypt ssl c pri_path) same
          ∙ ground (arith, hs.opens, hs.reads, undo (suc (length added)) [] (omega arith)),
    )
