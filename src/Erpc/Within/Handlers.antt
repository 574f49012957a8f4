-- ===== src/Erpc/Within/Handlers.antt =====
-- What the handlers of comm/erpc/erpc_handler.cpp may do to the state of a service.
use sdpgateway_verification.Prelude.{
  take_all, arith, ℕ, minus_one, to_int32, if◌then◌else◌, ◌≡◌, subst, Bool, true, false, List, [],
  ltb, ℤ, pos, is_neg, int_eq, Bytes, length, take, drop, Outcome, done, bind_done, if_cases, inl,
  inr, ◌>>=◌, done-injective,
}
use sdpgateway_verification.Env.{Env}
use sdpgateway_verification.Packet.{parse_data_from_string, new_packet, memory_corp_to_object}
use sdpgateway_verification.Io.{
  ReadResult, WriteResult, RecvResult, datagram, recv_failed, handle_write, handle_read,
}
use sdpgateway_verification.Erpc.{
  Service, SocketInfo, request_forward_with_cmd, parse_request_and_forward, answer_request,
  handle_rpc_request, answer_application, handle_application_request, forward_udp,
  handle_udp_request,
}
use sdpgateway_verification.Erpc.Within.{IsWithin, forward-Within}

module _ {K S : Type 0} (env : Env K) (service : Service S) (R : RecvResult → S → S → Type 0)
    (laws : IsWithin R service) (recv : RecvResult) where
  -- An end of a handler that has the state `s'`.
  ends :
      {s s' : S} (ret : ℤ) (bytes : Bytes) {r : ℤ × Bytes × S}
      → R recv s s'
      → ◌≡◌ {A = Outcome (ℤ × Bytes × S)} (done (ret, bytes, s')) (done r)
      → R recv s r.2
  ends {s} ret bytes w h = subst (λ (t : ℤ × Bytes × S). R recv s t.2) (done-injective h) w

  writes_end :
      {s s' : S} (writes : List WriteResult) (response : Bytes) {r : ℤ × Bytes × S}
      → R recv s s'
      → (handle_write writes response >>= λ (q : ℤ × Bytes).
          if is_neg q.0 then done (minus_one, q.1, s') else done (pos 0, q.1, s'))
        ≡ done r
      → R recv s r.2
  writes_end {s} writes response w h =
      let ((ret, sent), eq, e) = bind_done (handle_write writes response) _ h in
      elim (if_cases (is_neg ret) _ _ e) [
        | inl e1 ↦ ends minus_one sent w e1
        | inr e2 ↦ ends (pos 0) sent w e2
      ]

  parse-Within :
      (packet_req : Bytes) (info : SocketInfo) (s : S) {r : ℤ × Bytes × S}
      → parse_request_and_forward env service packet_req info s ≡ done r
      → R recv s r.2
  unfolding parse_request_and_forward
  parse-Within packet_req info s {r} h =
      let ((ret, packet), eq, e) =
        bind_done (parse_data_from_string new_packet packet_req false) _ h in
      elim (if_cases (is_neg ret) _ _ e) [
        | inl e1 ↦ ends minus_one [] (laws.stays recv s) e1
        | inr e2 ↦
            let (q, eq2, e3) =
              bind_done
                (request_forward_with_cmd env service (to_int32 packet.cmdid) packet.body info s) _
                e2 in
            ends q.0 _
              (forward-Within env service R laws recv (to_int32 packet.cmdid) packet.body info s
                {r = q} eq2)
              e3
      ]

  answer-Within :
      (ret : ℤ) (packet_req : Bytes) (info : SocketInfo) (writes : List WriteResult) (s : S)
      {r : ℤ × Bytes × S}
      → answer_request env service ret packet_req info writes s ≡ done r
      → R recv s r.2
  unfolding answer_request
  answer-Within ret packet_req info writes s {r} h = elim (if_cases (int_eq ret (pos 0)) _ _ h) [
    | inl e ↦ ends (pos 0) [] (laws.stays recv s) e
    | inr h2 ↦ elim (if_cases (is_neg ret) _ _ h2) [
      | inl e ↦ ends ret [] (laws.stays recv s) e
      | inr h3 ↦
          let (q, eq, h4) =
            bind_done (parse_request_and_forward env service packet_req info s) _ h3 in
          let within = parse-Within packet_req info s {r = q} eq in
          elim (if_cases (is_neg q.0) _ _ h4) [
            | inl e ↦ ends minus_one [] within e
            | inr e ↦ writes_end writes q.1 within e
          ]
    ]
  ]

  pub handle_rpc_request-Within :
      (connector : Bool) (info : SocketInfo) (read : ReadResult) (writes : List WriteResult) (s : S)
      {r : ℤ × Bytes × S}
      → handle_rpc_request env service connector info read writes s ≡ done r
      → R recv s r.2
  unfolding handle_rpc_request
  handle_rpc_request-Within true info read writes s {r} h =
      answer-Within (handle_read read []).0 (handle_read read []).1 info writes s {r = r} h
  handle_rpc_request-Within false info read writes s {r} h = absurd cc

  application-Within :
      (ret : ℤ) (request : Bytes) (info : SocketInfo) (writes : List WriteResult) (s : S)
      {r : ℤ × Bytes × S}
      → answer_application env service ret request info writes s ≡ done r
      → R recv s r.2
  unfolding answer_application
  application-Within ret request info writes s {r} h = elim (if_cases (int_eq ret (pos 0)) _ _ h) [
    | inl e ↦ ends (pos 0) [] (laws.stays recv s) e
    | inr h2 ↦ elim (if_cases (is_neg ret) _ _ h2) [
      | inl e ↦ ends ret [] (laws.stays recv s) e
      | inr h3 ↦
          let (q, eq, h4) = bind_done (service.app_func_https request info s) _ h3 in
          let within = laws.https recv request info s q eq in
          elim (if_cases (is_neg q.0) _ _ h4) [
            | inl e ↦ ends minus_one [] within e
            | inr e ↦ writes_end writes q.1 within e
          ]
    ]
  ]

  pub handle_application_request-Within :
      (connector : Bool) (info : SocketInfo) (read : ReadResult) (writes : List WriteResult) (s : S)
      {r : ℤ × Bytes × S}
      → handle_application_request env service connector info read writes s ≡ done r
      → R recv s r.2
  unfolding handle_application_request
  handle_application_request-Within true info read writes s {r} h =
      application-Within (handle_read read []).0 (handle_read read []).1 info writes s {r = r} h
  handle_application_request-Within false info read writes s {r} h = absurd cc

module _ {K S : Type 0} (env : Env K) (service : Service S) (R : RecvResult → S → S → Type 0)
    (laws : IsWithin R service) where
  forward_udp-Within :
      (cmdid : ℕ) (bytes ip : Bytes) (port : ℤ) (s : S) {r : ℤ × S}
      → forward_udp env service cmdid (drop 4 bytes) ip port s ≡ done r
      → R (datagram bytes ip port) s r.1
  unfolding forward_udp
  forward_udp-Within cmdid bytes ip port s {r} h =
      elim (if_cases (int_eq (pos cmdid) (pos 1)) _ _ h) [
        | inl e ↦ laws.test_udp bytes ip port s r e
        | inr h2 ↦ elim (if_cases (int_eq (pos cmdid) (pos 101)) _ _ h2) [
          | inl e ↦ laws.con_udp bytes ip port s r e
          | inr h3 ↦ elim (if_cases (int_eq (pos cmdid) (pos 201)) _ _ h3) [
            | inl e ↦ laws.gate_udp bytes ip port s r e
            | inr e ↦
                subst (λ (t : ℤ × S). R (datagram bytes ip port) s t.1) (done-injective e)
                  (laws.stays (datagram bytes ip port) s)
          ]
        ]
      ]

  pub handle_udp_request-Within :
      (recv : RecvResult) (s : S) {r : ℤ × S}
      → handle_udp_request env service recv s ≡ done r
      → R recv s r.1
  unfolding handle_udp_request
  handle_udp_request-Within (datagram bytes ip port) s {r} h =
      elim (if_cases (ltb (length bytes) 4) _ _
        (rw (take_all (length bytes) bytes (omega arith)) at h)) [
          | inl e ↦ absurd cc
          | inr h2 ↦
              let (cmdid, eq, h3) = bind_done (memory_corp_to_object (take 4 bytes)) _ h2 in
              let (q, eq2, h4) =
                bind_done (forward_udp env service cmdid (drop 4 bytes) ip port s) _ h3 in
              let within = forward_udp-Within cmdid bytes ip port s {r = q} eq2 in
              elim (if_cases (is_neg q.0) _ _ h4) [
                | inl e ↦
                    subst (λ (t : ℤ × S). R (datagram bytes ip port) s t.1) (done-injective e)
                      within
                | inr e ↦
                    subst (λ (t : ℤ × S). R (datagram bytes ip port) s t.1) (done-injective e)
                      within
              ]
        ]
  handle_udp_request-Within (recv_failed k errno) s {r} h = absurd cc
