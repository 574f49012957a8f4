-- ===== src/Tests/ToyEnv.antt =====
-- A stand-in for OpenSSL, with one key of 64 bytes: a block is the length of its text, the text and
-- zero bytes; a signature is the text, filled up or cut to 64 bytes.
use sdpgateway_verification.Prelude.{
  ℕ, zero, suc, ◌-◌, ◌%◌, ◌≤◌, ◌<◌, ◌≡◌, refl, true, Option, none, some, [], ◌∷◌, ◌++◌, arith, leb,
  if◌then◌else◌, pos, Bytes, bytes_eq, bytes_eq_refl, length, take, replicate, All, length-append,
  length-take, length-replicate, take-append,
}
use sdpgateway_verification.OpenSsl.{OpenSsl, IsPair, IsSigningPair, Md5Works}
use sdpgateway_verification.Rsa.RoundTrip.{Holds}
use sdpgateway_verification.CommDef.{
  rsa_pub_key_controller, rsa_pri_key_controller, rsa_pub_key_gateway, rsa_pri_key_gateway,
}
use sdpgateway_verification.Env.{Env}
use sdpgateway_verification.EndToEnd.{Keys}
use sdpgateway_verification.Tests.ToyApps.{toy_register_app_req}
use sdpgateway_verification.Tests.ToyCodec.{
  toy_ticket, toy_ticket_packet, toy_voucher, toy_voucher_packet, toy_get_access_req,
  toy_get_access_rsp, toy_black_list_op_req, toy_notice_req, toy_reverse_req, toy_reverse_rsp,
  toy_empty_rsp,
}

unfoldable pub toy_block : Bytes → Bytes
toy_block text = length text ∷ text ++ replicate (63 - length text) 0

unfoldable pub toy_encrypt : Bytes → Option Bytes
unfolding toy_block
toy_encrypt text = if leb (length text) 22 then some (toy_block text) else none

unfoldable pub toy_decrypt : Bytes → Option Bytes
toy_decrypt [] = none
toy_decrypt (n ∷ block) = some (take n block)

unfoldable pub toy_sign : Bytes → Bytes
toy_sign text = take 64 (text ++ replicate 64 0)

unfoldable pub toy_md5 : Bytes → Bytes
toy_md5 text = (length text % 256) ∷ replicate 15 0

abbrev pub toy_ssl : OpenSsl ℕ
toy_ssl = record {
  fopen = λ path. true;
  read_pubkey = λ path. some 0;
  read_private_key = λ path. some 0;
  rsa_size = λ key. 64;
  public_encrypt = λ key text. toy_encrypt text;
  private_decrypt = λ key block. toy_decrypt block;
  sign = λ key text. toy_sign text;
  verify = λ key text sig. bytes_eq sig (toy_sign text);
  md5_init = pos 1;
  md5_update = pos 1;
  md5_final = pos 1;
  md5 = toy_md5;
}

block_of :
    (text block : Bytes)
    → toy_encrypt text ≡ some block
    → (block ≡ toy_block text) × (length text ≤ 22)
unfolding toy_encrypt
block_of text block e = (ground arith, ground arith)

length-toy_block : (text : Bytes) → length text ≤ 22 → length (toy_block text) ≡ 64
unfolding toy_block
length-toy_block text h = omega (
  arith,
  length-append text (replicate (63 - length text) 0),
  length-replicate {A = ℕ} (63 - length text) 0,
)

toy_decrypt-block : (text : Bytes) → toy_decrypt (toy_block text) ≡ some text
unfolding toy_decrypt toy_block
toy_decrypt-block text =
    ground (arith, take-append (length text) text (replicate (63 - length text) 0) refl)

toy_fits : (text : Bytes) → length text ≤ 22 → toy_encrypt text ≡ some (toy_block text)
unfolding toy_encrypt
toy_fits text h = ground arith

length-toy_sign : (text : Bytes) → length (toy_sign text) ≡ 64
unfolding toy_sign
length-toy_sign text = omega (
  arith,
  length-take 64 (text ++ replicate 64 0),
  length-append text (replicate 64 0),
  length-replicate {A = ℕ} 64 0,
)

pub toy_ssl-IsPair : IsPair toy_ssl 0 0
toy_ssl-IsPair = record {
  same_size = refl;
  room = omega arith;
  encrypts = λ text h. (toy_block text, toy_fits text h);
  block_size = λ text block e.
      rw (block_of text block e).0 (length-toy_block text (block_of text block e).1);
  decrypts = λ text block e. rw (block_of text block e).0 (toy_decrypt-block text);
}

pub toy_ssl-IsSigningPair : IsSigningPair toy_ssl 0 0
toy_ssl-IsSigningPair = record {
  same_size = refl;
  room = omega arith;
  block_size = λ text h. length-toy_sign text;
  verifies = λ text h. bytes_eq_refl (toy_sign text);
}

small_digit : (n : ℕ) → n % 256 < 256
small_digit n = omega arith

pub toy_ssl-Md5Works : Md5Works toy_ssl
unfolding toy_md5
toy_ssl-Md5Works = record {
  init_ok = refl;
  update_ok = refl;
  final_ok = refl;
  digest_size = λ text. refl;
  digest_bytes = λ text. (small_digit (length text), zeros 15);
}
  where
    zeros : (n : ℕ) → All (λ b. b < 256) (replicate n 0)
    zeros zero = tt
    zeros (suc n) = (omega arith, zeros n)

pub toy_ssl-Holds : (path : Bytes) → Holds toy_ssl.fopen toy_ssl.read_pubkey path 0
toy_ssl-Holds path = record { opens = refl; reads = refl }

pub toy_ssl-Holds_private : (path : Bytes) → Holds toy_ssl.fopen toy_ssl.read_private_key path 0
toy_ssl-Holds_private path = record { opens = refl; reads = refl }

abbrev pub toy_env : Env ℕ
toy_env = record {
  ssl = toy_ssl;
  voucher = toy_voucher;
  voucher_packet = toy_voucher_packet;
  ticket = toy_ticket;
  ticket_packet = toy_ticket_packet;
  get_access_req = toy_get_access_req;
  get_access_rsp = toy_get_access_rsp;
  register_app_req = toy_register_app_req;
  black_list_op_req = toy_black_list_op_req;
  notice_req = toy_notice_req;
  reverse_req = toy_reverse_req;
  reverse_rsp = toy_reverse_rsp;
  empty_rsp = toy_empty_rsp;
}

pub toy_env-Keys : Keys toy_env
toy_env-Keys = record {
  gate_pub = 0;
  gate_pri = 0;
  con_pub = 0;
  con_pri = 0;
  md5_works = toy_ssl-Md5Works;
  encrypting = toy_ssl-IsPair;
  signing = toy_ssl-IsSigningPair;
  gate_pub_file = toy_ssl-Holds rsa_pub_key_gateway;
  gate_pri_file = toy_ssl-Holds_private rsa_pri_key_gateway;
  con_pub_file = toy_ssl-Holds rsa_pub_key_controller;
  con_pri_file = toy_ssl-Holds_private rsa_pri_key_controller;
}
