-- ===== src/Rsa/Blocks.antt =====
-- RSAEncrypt and RSASign of comm/ssltools/ssl_tool.cpp against an account of them by blocks.
use mathlib.Core.List.{map}
use sdpgateway_verification.Prelude.{
  ℕ, zero, suc, ◌<◌, ◌≤◌, ◌≡◌, ◌∙◌, refl, ap, false, none, some, List, [], ◌∷◌, ◌++◌, arith, leb, ℤ,
  pos, minus_one, Bytes, length, take, drop, done, length-take, length-drop, take_all,
  take-append-drop, append-nil, append_assoc, Bool-cases, Option-cases, inl, inr,
}
use sdpgateway_verification.OpenSsl.{OpenSsl}
use sdpgateway_verification.Rsa.{encrypt_loop, sign_loop, rsa_encrypt, rsa_sign, limit_size}
use sdpgateway_verification.Rsa.RoundTrip.{Holds}

abbrev pub concat : List Bytes → Bytes
concat [] = []
concat (b ∷ bs) = b ++ concat bs

-- Blocks of the size `n`, but for the last one, which has at least one byte and at most `n`.
abbrev pub IsBlocks : ℕ → List Bytes → Type 0
IsBlocks n [] = Unit {0}
IsBlocks n (b ∷ []) = (0 < length b) × (length b ≤ n)
IsBlocks n (b ∷ c ∷ bs) = (length b ≡ n) × IsBlocks n (c ∷ bs)

cons-IsBlocks :
    (n : ℕ) (b : Bytes) (bs : List Bytes)
    → 0 < n
    → length b ≡ n
    → IsBlocks n bs
    → IsBlocks n (b ∷ bs)
cons-IsBlocks n b [] small size h = (omega arith, omega arith)
cons-IsBlocks n b (c ∷ bs) small size h = (size, h)

module _ {K : Type 0} (ssl : OpenSsl K) (key : K) where
  -- Block after block, up to the first that OpenSSL does not encrypt.
  unfoldable pub encrypt_blocks : List Bytes → Bytes → ℤ × Bytes
  encrypt_blocks [] out = (pos 0, out)
  encrypt_blocks (b ∷ bs) out = elim (ssl.public_encrypt key b) [
    | none ↦ (minus_one, out)
    | some to ↦ encrypt_blocks bs (out ++ to)
  ]

module _ {K : Type 0} (ssl : OpenSsl K) (key : K) (room : 42 < ssl.rsa_size key) where
  full :
      (x : ℕ) (xs : Bytes)
      → leb (length (x ∷ xs)) (limit_size ssl key) ≡ false
      → length (take (limit_size ssl key) (x ∷ xs)) ≡ limit_size ssl key
  full x xs large = ground (arith, length-take (limit_size ssl key) (x ∷ xs))

  -- The blocks of a text, and what the signing loop makes of them.
  sign-IsBlocks :
      (f : ℕ) (src out : Bytes)
      → length src < f
      → (bs : List Bytes) × IsBlocks (limit_size ssl key) bs
        × (concat bs ≡ src)
        × (sign_loop ssl f key src out ≡ done (pos 0, out ++ concat (map (ssl.sign key) bs)))
  unfolding sign_loop
  sign-IsBlocks zero src out h = absurd (omega arith)
  sign-IsBlocks (suc f) [] out h = ([], tt, refl, ground (arith, append-nil out))
  sign-IsBlocks (suc f) (x ∷ xs) out h =
      let size = limit_size ssl key in
      elim (Bool-cases (leb (length (x ∷ xs)) size)) [
        | inl small ↦ (
          (x ∷ xs) ∷ [],
          (omega arith, ground arith),
          append-nil (x ∷ xs),
          ground (arith, take_all size (x ∷ xs) (ground arith), append-nil (ssl.sign key (x ∷ xs))),
        )
        | inr large ↦
            let (bs, blocks, whole, signed) =
              sign-IsBlocks f (drop size (x ∷ xs)) (out ++ ssl.sign key (take size (x ∷ xs)))
                (omega (arith, length-drop size (x ∷ xs), room)) in
            (
              take size (x ∷ xs) ∷ bs,
              cons-IsBlocks size (take size (x ∷ xs)) bs (omega (arith, room)) (full x xs large)
                  blocks,
              ap (◌++◌ (take size (x ∷ xs))) whole ∙ take-append-drop size (x ∷ xs),
              ground (
                arith,
                signed,
                append_assoc out (ssl.sign key (take size (x ∷ xs)))
                    (concat (map (ssl.sign key) bs)),
              ),
            )
      ]

  encrypt_loop-IsBlocks :
      (f : ℕ) (src : Bytes)
      → length src < f
      → (bs : List Bytes) × IsBlocks (limit_size ssl key) bs
        × (concat bs ≡ src)
        × ((out : Bytes) → encrypt_loop ssl f key src out ≡ done (encrypt_blocks ssl key bs out))
  unfolding encrypt_loop encrypt_blocks
  encrypt_loop-IsBlocks zero src h = absurd (omega arith)
  encrypt_loop-IsBlocks (suc f) [] h = ([], tt, refl, λ o. refl)
  encrypt_loop-IsBlocks (suc f) (x ∷ xs) h =
      let size = limit_size ssl key in
      elim (Bool-cases (leb (length (x ∷ xs)) size)) [
        | inl small ↦ (
          (x ∷ xs) ∷ [],
          (omega arith, ground arith),
          append-nil (x ∷ xs),
          λ o. elim (Option-cases (ssl.public_encrypt key (x ∷ xs))) [
            | inl e ↦ ground (arith, e, take_all size (x ∷ xs) (ground arith))
            | inr (c, e) ↦ ground (arith, e, take_all size (x ∷ xs) (ground arith))
          ],
        )
        | inr large ↦
            let (bs, blocks, whole, encrypted) =
              encrypt_loop-IsBlocks f (drop size (x ∷ xs))
                (omega (arith, length-drop size (x ∷ xs), room)) in
            (
              take size (x ∷ xs) ∷ bs,
              cons-IsBlocks size (take size (x ∷ xs)) bs (omega (arith, room)) (full x xs large)
                  blocks,
              ap (◌++◌ (take size (x ∷ xs))) whole ∙ take-append-drop size (x ∷ xs),
              λ o. elim (Option-cases (ssl.public_encrypt key (take size (x ∷ xs)))) [
                | inl e ↦ ground (arith, e)
                | inr (c, e) ↦ ground (arith, e, encrypted (o ++ c))
              ],
            )
      ]

-- With a key file that opens and holds a key of more than 42 bytes, a text of any length is a
-- sequence of blocks of the size that the key leaves room for, the last one possibly shorter, such
-- that RSASign returns 0 and the signatures of the blocks, one after the other.
pub rsa_sign_by-IsBlocks :
    {K : Type 0} (ssl : OpenSsl K) (key : K) (path : Bytes)
    → 42 < ssl.rsa_size key
    → Holds ssl.fopen ssl.read_private_key path key
    → (text : Bytes)
    → (bs : List Bytes) × IsBlocks (limit_size ssl key) bs
      × (concat bs ≡ text)
      × (rsa_sign ssl text path ≡ done (pos 0, concat (map (ssl.sign key) bs)))
unfolding rsa_sign
rsa_sign_by-IsBlocks ssl key path room h text =
    let (bs, blocks, whole, signed) =
      sign-IsBlocks ssl key room (suc (length text)) text [] (omega arith) in
    (bs, blocks, whole, ground (arith, h.opens, h.reads, signed))

-- With a key file that opens and holds a key of more than 42 bytes, a text of any length is a
-- sequence of blocks of the size that the key leaves room for, the last one possibly shorter, such
-- that RSAEncrypt returns what encrypting block after block gives: 0 and all blocks, or -1 and the
-- blocks before the first that fails.
pub rsa_encrypt_by-IsBlocks :
    {K : Type 0} (ssl : OpenSsl K) (key : K) (path : Bytes)
    → 42 < ssl.rsa_size key
    → Holds ssl.fopen ssl.read_pubkey path key
    → (text : Bytes)
    → (bs : List Bytes) × IsBlocks (limit_size ssl key) bs
      × (concat bs ≡ text)
      × (rsa_encrypt ssl text path ≡ done (encrypt_blocks ssl key bs []))
unfolding rsa_encrypt
rsa_encrypt_by-IsBlocks ssl key path room h text =
    let (bs, blocks, whole, encrypted) =
      encrypt_loop-IsBlocks ssl key room (suc (length text)) text (omega arith) in
    (bs, blocks, whole, ground (arith, h.opens, h.reads, encrypted []))
