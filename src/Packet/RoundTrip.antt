-- ===== src/Packet/RoundTrip.antt =====
-- _PackDataToString against _ParseDataFromString, of comm/erpc/erpc_handler.cpp.
use sdpgateway_verification.Prelude.{
  ℕ, ◌+◌, ◌-◌, ◌^◌, ◌<◌, ◌≡◌, ap, true, false, arith, ℤ, pos, negsuc, to_uint32, InInt32,
  to_int32-to_uint32, Bytes, length, take, replicate, done, length-append, length-take,
  length-replicate, take-append, drop-append,
}
use sdpgateway_verification.Packet.{
  Packet, memory_copy_to_string, memory_corp_to_object, parse_data_from_string, pack_data_to_string,
  ret_msg_field,
}

-- Four bytes read back the 32-bit value that was written.
pub memory_corp_to_object-copy :
    (n : ℕ) → n < 2 ^ 32 → memory_corp_to_object (memory_copy_to_string n) ≡ done n
unfolding memory_corp_to_object memory_copy_to_string
memory_corp_to_object-copy n h = ap done (omega arith)

pub length-ret_msg_field : (msg : Bytes) → length (ret_msg_field msg) ≡ 50
unfolding ret_msg_field
length-ret_msg_field msg = omega (
  arith,
  length-append (take 50 msg) (replicate (50 - length msg) 0),
  length-take 50 msg,
  length-replicate {A = ℕ} (50 - length msg) 0,
)

-- A packed packet with a header has 58 bytes and its body, without one it has 4 and its body.
pub length-pack_data_to_string :
    (p : Packet)
    → (length (pack_data_to_string p true) ≡ 58 + length p.body)
      × (length (pack_data_to_string p false) ≡ 4 + length p.body)
unfolding pack_data_to_string memory_copy_to_string
length-pack_data_to_string p = (
  omega (
    arith,
    length-append (ret_msg_field p.header.ret_msg) p.body,
    length-ret_msg_field p.header.ret_msg,
  ),
  omega arith,
)

to_uint32-lt : (i : ℤ) → to_uint32 i < 2 ^ 32
to_uint32-lt (pos n) = omega arith
to_uint32-lt (negsuc n) = omega arith

-- A packet whose command is a uint32 and whose code is an int, packed with its header, parses with
-- the code 0 to the same command, code and body, and to its message as the field holds it.
pub parse-pack_with_header :
    (old p : Packet)
    → p.cmdid < 2 ^ 32
    → InInt32 p.header.ret_code
    → parse_data_from_string old (pack_data_to_string p true) true
      ≡ done (
        pos 0,
        record p {
          header = record {
            ret_code = p.header.ret_code;
            ret_msg = ret_msg_field p.header.ret_msg;
          };
        },
      )
unfolding parse_data_from_string pack_data_to_string memory_copy_to_string
parse-pack_with_header old p small code =
    let msg = ret_msg_field p.header.ret_msg in
    ground (
      arith,
      length-append msg p.body,
      length-ret_msg_field p.header.ret_msg,
      take-append 50 msg p.body (length-ret_msg_field p.header.ret_msg),
      drop-append 50 msg p.body (length-ret_msg_field p.header.ret_msg),
      memory_corp_to_object-copy p.cmdid small,
      memory_corp_to_object-copy (to_uint32 p.header.ret_code) (to_uint32-lt p.header.ret_code),
      to_int32-to_uint32 p.header.ret_code code,
    )

-- Without a header: the same command and body, and the header that was there before.
pub parse-pack_without_header :
    (old p : Packet)
    → p.cmdid < 2 ^ 32
    → parse_data_from_string old (pack_data_to_string p false) false
      ≡ done (pos 0, record p { header = old.header })
unfolding parse_data_from_string pack_data_to_string
parse-pack_without_header old p small = ground (arith, memory_corp_to_object-copy p.cmdid small)
