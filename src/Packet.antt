-- ===== src/Packet.antt =====
-- The packet of comm/erpc/erpc_def.h, and its packing in comm/erpc/erpc_handler.cpp. Memory is read
-- and written as on the little-endian machines that the program is built for.
pub mod RoundTrip
use sdpgateway_verification.Prelude.{
  ℕ, suc, ◌+◌, ◌-◌, ◌*◌, ◌/◌, ◌%◌, Bool, true, false, List, [], ◌∷◌, ◌++◌, ltb, if◌then◌else◌, ℤ,
  pos, negsuc, to_int32, to_uint32, Bytes, length, take, drop, replicate, Outcome, done, fault,
  over_read, ◌>>=◌,
}

pub record Header : Type 0 where
  pub ret_code : ℤ
  pub ret_msg : Bytes

abbrev pub header_ret_msg_limit_size : ℕ
header_ret_msg_limit_size = 50

pub record Packet : Type 0 where
  pub cmdid : ℕ
  pub header : Header
  pub body : Bytes

-- A Packet on the stack; the members that have no value yet are written over before they are read.
abbrev pub new_packet : Packet
new_packet = record { cmdid = 0; header = record { ret_code = pos 0; ret_msg = [] }; body = [] }

-- kErrServiceNotFound and kPacketLengthErr
abbrev pub err_service_not_found : ℤ
err_service_not_found = negsuc 500

abbrev pub packet_length_err : ℤ
packet_length_err = negsuc 1000

-- _MemoryCopyToString of a uint32_t; an `int` goes by its bits.
unfoldable pub memory_copy_to_string : ℕ → Bytes
memory_copy_to_string n =
    (n % 256) ∷ (n / 256 % 256) ∷ (n / 65536 % 256) ∷ (n / 16777216 % 256) ∷ []

-- _MemoryCorpToObject: the first four bytes of the C string, whose end may be one of them.
unfoldable pub memory_corp_to_object : Bytes → Outcome ℕ
memory_corp_to_object (a ∷ b ∷ c ∷ d ∷ rest) = done (a + 256 * b + 65536 * c + 16777216 * d)
memory_corp_to_object (a ∷ b ∷ c ∷ []) = done (a + 256 * b + 65536 * c)
memory_corp_to_object _ = fault over_read

-- The header part of _ParseDataFromString: bytes 4 to 8 and 8 to 58, if there is one.
unfoldable pub parse_header : Header → Bytes → Bool → Outcome Header
unfolding memory_corp_to_object
parse_header old str false = done old
parse_header old str true = do
  ret_code ← memory_corp_to_object (take 4 (drop 4 str))
  done (record {
    ret_code = to_int32 ret_code;
    ret_msg = take header_ret_msg_limit_size (drop 8 str);
  })

-- _ParseDataFromString, into `packet`.
unfoldable pub parse_data_from_string : Packet → Bytes → Bool → Outcome (ℤ × Packet)
unfolding memory_corp_to_object parse_header
parse_data_from_string packet str is_with_header =
    let min_size = 4 + (if is_with_header then 4 + header_ret_msg_limit_size else 0) in
    if ltb (length str) min_size then done (packet_length_err, packet) else do
      cmdid ← memory_corp_to_object (take 4 str)
      header ← parse_header packet.header str is_with_header
      done (pos 0, record { cmdid = cmdid; header = header; body = drop min_size str })

-- The message as it stands in a packet: cut, and filled up with zero bytes.
unfoldable pub ret_msg_field : Bytes → Bytes
ret_msg_field msg =
    take header_ret_msg_limit_size msg ++ replicate (header_ret_msg_limit_size - length msg) 0

-- _PackDataToString
unfoldable pub pack_data_to_string : Packet → Bool → Bytes
unfolding memory_copy_to_string ret_msg_field
pack_data_to_string packet is_with_header =
    memory_copy_to_string packet.cmdid
    ++ (if is_with_header
        then memory_copy_to_string (to_uint32 packet.header.ret_code)
          ++ ret_msg_field packet.header.ret_msg
        else [])
    ++ packet.body
