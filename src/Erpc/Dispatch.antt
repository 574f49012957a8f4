-- ===== src/Erpc/Dispatch.antt =====
-- Which commands reach a service, and what becomes of malformed packets.
use sdpgateway_verification.Prelude.{
  ap, suc, ℕ, ◌<◌, ◌-◌, take, ◌≡◌, refl, Bool, true, false, List, [], ◌++◌, arith, ℤ, pos,
  minus_one, int_eq, to_int32, Bytes, length, done, ◌⊎◌, ◌||◌, ◌^◌,
}
use sdpgateway_verification.Env.{Env}
use sdpgateway_verification.Packet.{
  err_service_not_found, parse_data_from_string, memory_copy_to_string,
}
use sdpgateway_verification.Packet.RoundTrip.{memory_corp_to_object-copy}
use sdpgateway_verification.Io.{
  got, WriteResult, handle_read, handle_read-got, buffer_room, rd_buf_size,
}
use sdpgateway_verification.Erpc.{
  Service, SocketInfo, request_forward_with_cmd, parse_request_and_forward, handle_rpc_request,
}

-- The commands that RPC packets may carry.
abbrev pub is_rpc_command : ℤ → Bool
is_rpc_command cmd =
    int_eq cmd (pos 2)
    || int_eq cmd (pos 102)
    || int_eq cmd (pos 103)
    || int_eq cmd (pos 202)
    || int_eq cmd (pos 203)

takes_command :
    (cmd n m : ℕ) (body : Bytes)
    → n ≡ suc (suc (suc (suc m)))
    → take n (memory_copy_to_string cmd ++ body) ≡ memory_copy_to_string cmd ++ take m body
unfolding memory_copy_to_string
takes_command cmd n m body e = rw e refl

-- What the buffer takes of a request starts with the command.
reads_command :
    (cmd : ℕ) (body : Bytes)
    → (part : Bytes) × (handle_read (got (memory_copy_to_string cmd ++ body)) []
        ≡ (pos (length (memory_copy_to_string cmd ++ part)), memory_copy_to_string cmd ++ part))
unfolding handle_read memory_copy_to_string
reads_command cmd body =
    let m = rd_buf_size - 4 in
    (
      take m body,
      ap (λ b. (pos (length b), b))
          (takes_command cmd rd_buf_size m body (omega (arith, buffer_room))),
    )

module _ {K S : Type 0} (env : Env K) (service : Service S) where
  -- A forwarded request gives 0 if its command is one of the five, whatever the method returned;
  -- for another command it gives kErrServiceNotFound and an empty response and leaves the state.
  pub request_forward_with_cmd_cases :
      (cmd : ℤ) (request : Bytes) (info : SocketInfo) (s : S) {r : ℤ × Bytes × S}
      → request_forward_with_cmd env service cmd request info s ≡ done r
      → ((is_rpc_command cmd ≡ true) × (r.0 ≡ pos 0))
        ⊎ ((is_rpc_command cmd ≡ false) × (r ≡ (err_service_not_found, [], s)))
  unfolding request_forward_with_cmd
  request_forward_with_cmd_cases cmd request info s {r} h = ground arith

  -- A request with another command than the five, and a nonempty one of fewer than four bytes: the
  -- handler returns -1, has sent nothing and leaves the state.
  pub handle_rpc_request_rejects :
      (body : Bytes) (cmd : ℕ) (short : Bytes) (info : SocketInfo) (writes : List WriteResult)
      (s : S)
      → cmd < 2 ^ 32
      → is_rpc_command (to_int32 cmd) ≡ false
      → 0 < length short
      → length short < 4
      → (handle_rpc_request env service true info (got (memory_copy_to_string cmd ++ body)) writes s
          ≡ done (minus_one, [], s))
        × (handle_rpc_request env service true info (got short) writes s ≡ done (minus_one, [], s))
  unfolding handle_rpc_request parse_request_and_forward parse_data_from_string
      request_forward_with_cmd memory_copy_to_string
  handle_rpc_request_rejects body cmd short info writes s small other nonempty short_lt =
      let (part, read) = reads_command cmd body in
      (
        ground (arith, read, memory_corp_to_object-copy cmd small),
        ground (arith, handle_read-got short [] (omega (arith, buffer_room))),
      )
