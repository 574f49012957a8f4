-- ===== src/OpenSsl.antt =====
-- The OpenSSL calls of comm/ssltools/ssl_tool.cpp, as a parameter: `K` is what an RSA pointer
-- stands for, paths are byte strings. The fields say what each call returns; the laws are
-- hypotheses.
use sdpgateway_verification.Prelude.{
  ℕ, ◌-◌, ◌≤◌, ◌<◌, ◌≡◌, Bool, true, Option, some, ℤ, pos, Bytes, length, All,
}

pub record OpenSsl (K : Type 0) : Type 0 where
  -- fopen(path, "r") != NULL
  pub fopen : Bytes → Bool
  -- PEM_read_RSA_PUBKEY and PEM_read_RSAPrivateKey of the file
  pub read_pubkey : Bytes → Option K
  pub read_private_key : Bytes → Option K
  pub rsa_size : K → ℕ
  -- `none` is a negative result
  pub public_encrypt : K → Bytes → Option Bytes
  pub private_decrypt : K → Bytes → Option Bytes
  -- what RSA_sign leaves in its buffer, of the length that it reports
  pub sign : K → Bytes → Bytes
  -- RSA_verify returns 1
  pub verify : K → Bytes → Bytes → Bool
  -- the results of MD5_Init, MD5_Update and MD5_Final, and the digest
  pub md5_init : ℤ
  pub md5_update : ℤ
  pub md5_final : ℤ
  pub md5 : Bytes → Bytes

-- A public and a private key of one pair: what one encrypts in a block the other decrypts.
pub record IsPair {K : Type 0} (ssl : OpenSsl K) (pub_key pri_key : K) : Type 0 where
  pub same_size : ssl.rsa_size pri_key ≡ ssl.rsa_size pub_key
  pub room : 42 < ssl.rsa_size pub_key
  pub encrypts :
      (text : Bytes)
      → length text ≤ ssl.rsa_size pub_key - 42
      → (block : Bytes) × (ssl.public_encrypt pub_key text ≡ some block)
  pub block_size :
      (text block : Bytes)
      → ssl.public_encrypt pub_key text ≡ some block
      → length block ≡ ssl.rsa_size pub_key
  pub decrypts :
      (text block : Bytes)
      → ssl.public_encrypt pub_key text ≡ some block
      → ssl.private_decrypt pri_key block ≡ some text

-- The other use of a pair: what one signs the other verifies, by blocks of the key's size, for
-- texts that leave room for the padding.
pub record IsSigningPair {K : Type 0} (ssl : OpenSsl K) (pub_key pri_key : K) : Type 0 where
  pub same_size : ssl.rsa_size pri_key ≡ ssl.rsa_size pub_key
  pub room : 42 < ssl.rsa_size pub_key
  pub block_size :
      (text : Bytes)
      → length text ≤ ssl.rsa_size pub_key - 42
      → length (ssl.sign pri_key text) ≡ ssl.rsa_size pub_key
  pub verifies :
      (text : Bytes)
      → length text ≤ ssl.rsa_size pub_key - 42
      → ssl.verify pub_key text (ssl.sign pri_key text) ≡ true

-- What the MD5 calls document: each returns 1, and a digest has 16 bytes (of eight bits).
pub record Md5Works {K : Type 0} (ssl : OpenSsl K) : Type 0 where
  pub init_ok : ssl.md5_init ≡ pos 1
  pub update_ok : ssl.md5_update ≡ pos 1
  pub final_ok : ssl.md5_final ≡ pos 1
  pub digest_size : (text : Bytes) → length (ssl.md5 text) ≡ 16
  pub digest_bytes : (text : Bytes) → All (λ b. b < 256) (ssl.md5 text)
