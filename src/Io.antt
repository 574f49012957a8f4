-- ===== src/Io.antt =====
-- HandleRead, HandleWrite, UDPRecv and UDPSend of comm/erpc/erpc_handler.cpp. What the calls of
-- OpenSSL and of the kernel return is a script: one result for a read, a list of them for a write.
pub mod Write
use Prim.Native.Nat.{min}
use sdpgateway_verification.Prelude.{
  ℕ, ◌+◌, ◌*◌, ◌≤◌, ◌≡◌, refl, take_all, arith, Bool, true, false, List, [], ◌∷◌, ◌++◌, ltb, nat_eq,
  if◌then◌else◌, ℤ, pos, negsuc, minus_one, is_neg, Bytes, length, take, drop, Outcome, done, fault,
  out_of_range, length_error, pending, ◌>>=◌,
}
use sdpgateway_verification.Tlog.{i_assert}

-- The values of errno that the code tells apart: EAGAIN or EWOULDBLOCK, EINTR, and the others.
pub data Errno : Type 0 where
  again interrupted other : Errno

-- RD_BUF_SIZE
unfoldable pub rd_buf_size : ℕ
rd_buf_size = 5 * 1024 * 1024

-- SSL_read or read: the bytes that have come, of which the buffer takes RD_BUF_SIZE at most, or a
-- negative result, -(k + 1).
pub data ReadResult : Type 0 where
  got : Bytes → ReadResult
  read_failed : ℕ → Errno → ReadResult

-- HandleRead: the result and `outstr`.
unfoldable pub handle_read : ReadResult → Bytes → ℤ × Bytes
handle_read (got bytes) outstr = let buff = take rd_buf_size bytes in (pos (length buff), buff)
handle_read (read_failed k again) outstr = (negsuc k, outstr)
handle_read (read_failed k interrupted) outstr = (negsuc k, outstr)
handle_read (read_failed k other) outstr = (minus_one, outstr)

-- HandleRead on a plain file descriptor has the same body.
unfoldable pub handle_read_fd : ReadResult → Bytes → ℤ × Bytes
unfolding handle_read
handle_read_fd = handle_read

-- SSL_write or write: at most the given number of bytes is taken, or the result is -(k + 1).
pub data WriteResult : Type 0 where
  wrote : ℕ → WriteResult
  write_failed : ℕ → Errno → WriteResult

-- The loop of HandleWrite with `str`, `total` and the bytes that have gone out. Each round cuts
-- `total` bytes off what the round before left, and `substr` throws behind the end.
unfoldable pub write_loop : List WriteResult → ℕ → Bytes → ℕ → Bytes → Outcome (ℤ × Bytes)
write_loop [] w_size str total sent = fault pending
write_loop (wrote n ∷ rs) w_size str total sent =
    let str' = drop total str in
    let m = min n (length str') in
    let rest = write_loop rs w_size str' (total + m) (sent ++ take m str') in
    if ltb (length str) total
    then fault out_of_range
    else if nat_eq m 0
    then done (pos total, sent)
    else if nat_eq (total + m) w_size
    then done (pos (total + m), sent ++ take m str')
    else rest
write_loop (write_failed k again ∷ rs) w_size str total sent =
    if ltb (length str) total then fault out_of_range else done (pos total, sent)
write_loop (write_failed k interrupted ∷ rs) w_size str total sent =
    let rest = write_loop rs w_size (drop total str) total sent in
    if ltb (length str) total then fault out_of_range else rest
write_loop (write_failed k other ∷ rs) w_size str total sent =
    if ltb (length str) total then fault out_of_range else done (minus_one, sent)

-- HandleWrite: the result, and what has gone out.
unfoldable pub handle_write : List WriteResult → Bytes → Outcome (ℤ × Bytes)
unfolding write_loop
handle_write script instr = write_loop script (length instr) instr 0 []

-- HandleWrite on a plain file descriptor has the same body.
unfoldable pub handle_write_fd : List WriteResult → Bytes → Outcome (ℤ × Bytes)
unfolding handle_write
handle_write_fd = handle_write

-- recvfrom: a datagram with its sender, or a negative result.
pub data RecvResult : Type 0 where
  datagram : Bytes → Bytes → ℤ → RecvResult
  recv_failed : ℕ → Errno → RecvResult

pub record Received : Type 0 where
  pub outstr : Bytes
  pub from_ip : Bytes
  pub from_port : ℤ

-- What recvfrom returns, and what it leaves in the buffer, in front of the zero or old bytes there.
-- A UDP datagram has at most 65,507 bytes of data, so that it fits into the RD_BUF_SIZE bytes.
unfoldable pub recv_from : RecvResult → ℤ × Bytes
recv_from (datagram bytes ip port) = (pos (length bytes), bytes)
recv_from (recv_failed k errno) = (negsuc k, [])

-- std::string::assign of the first `n` bytes of a buffer: `n` becomes a size_t, and a negative one
-- is above max_size(), for which `assign` throws.
unfoldable pub assign_bytes : Bytes → ℤ → Outcome Bytes
assign_bytes buff (pos n) = done (take n buff)
assign_bytes buff (negsuc k) = fault length_error

-- The sender that recvfrom has stored; a failed call leaves what was there, which nothing reads.
abbrev sender : RecvResult → Bytes × ℤ
sender (datagram bytes ip port) = (ip, port)
sender (recv_failed k errno) = ([], pos 0)

-- What UDPRecv returns for a negative `ret`, by errno.
abbrev recv_error : RecvResult → ℤ
recv_error (recv_failed k other) = minus_one
recv_error recv = pos 0

-- UDPRecv tests its own `ret`, which is 0, and not the result `n` of recvfrom.
unfoldable pub udp_recv : RecvResult → Outcome (ℤ × Received)
unfolding recv_from assign_bytes
udp_recv recv =
    let ret = pos 0 in
    let (n, buff) = recv_from recv in
    if is_neg ret
    then done (recv_error recv, record { outstr = []; from_ip = []; from_port = pos 0 })
    else do
      outstr ← assign_bytes buff n
      done (ret, record { outstr = outstr; from_ip = (sender recv).0; from_port = (sender recv).1 })

-- A read of no more bytes than the buffer has gives them all.
pub handle_read-got :
    (bytes outstr : Bytes)
    → length bytes ≤ rd_buf_size
    → handle_read (got bytes) outstr ≡ (pos (length bytes), bytes)
unfolding handle_read
handle_read-got bytes outstr h = rw (take_all rd_buf_size bytes h) refl

-- The buffer has room for any packet of 64 KiB.
pub buffer_room : 65536 ≤ rd_buf_size
unfolding rd_buf_size
buffer_room = omega arith

-- A datagram is handed on as it is.
pub udp_recv-datagram :
    (bytes ip : Bytes) (port : ℤ)
    → udp_recv (datagram bytes ip port)
      ≡ done (pos 0, record { outstr = bytes; from_ip = ip; from_port = port })
unfolding udp_recv
udp_recv-datagram bytes ip port = rw (take_all (length bytes) bytes (omega arith)) refl

-- UDPSend, given the results of `socket` and `sendto`: the result, and the datagram if there is
-- one.
unfoldable pub udp_send : ℤ → ℤ → Bytes → ℤ × List Bytes
udp_send fd ret outstr =
    i_assert fd (minus_one, []) (i_assert ret (minus_one, []) (pos 0, outstr ∷ []))
