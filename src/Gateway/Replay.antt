-- ===== src/Gateway/Replay.antt =====
-- The replay check of modules/gateway over sequences of events.
use sdpgateway_verification.Prelude.{
  bind_done, Outcome, ◌++◌, subst, sym, done-injective, ℕ, ◌≡◌, ◌≢◌, refl, true, List, [], ◌∷◌,
  arith, ℤ, pos, Bytes, bytes_eq_iff, done, Outcome-cases, inl, inr,
}
use sdpgateway_verification.Map.{Map, bytes_key, contains, insert}
use sdpgateway_verification.Map.Laws.{find-insert}
use sdpgateway_verification.Env.{Env}
use sdpgateway_verification.Gateway.{
  Gateway, Event, knock, black_list, notice, handle, run, gate_func_udp_recv,
  gate_func_black_list_op, gate_func_notice,
}
use sdpgateway_verification.Gateway.Admission.{gate_func_udp_recv_cases}

-- What `insert` keeps and adds, as a test.
contains-insert :
    (j k : Bytes) (v : ℤ) (m : Map Bytes ℤ) → contains j m ≡ true → contains j (insert k v m) ≡ true
contains-insert j k v m h = ground (arith, find-insert j k v m)

contains-insert_self : (k : Bytes) (v : ℤ) (m : Map Bytes ℤ) → contains k (insert k v m) ≡ true
contains-insert_self k v m = ground (arith, find-insert k k v m, bytes_eq_iff k k)

module _ {K : Type 0} (env : Env K) where
  -- A run and then another.
  pub run_append :
      (es fs : List Event) (g : Gateway) {g' : Gateway} {o : Outcome Gateway}
      → run env es g ≡ done g'
      → run env fs g' ≡ o
      → run env (es ++ fs) g ≡ o
  unfolding run
  run_append [] fs g {g'} {o} h k = subst (λ x. run env fs x ≡ o) (sym (done-injective h)) k
  run_append (e ∷ es) fs g {g'} {o} h k =
      let (r, eq, rest) = bind_done (handle env e g) _ h in
      rw eq (run_append es fs r.1 {g' = g'} rest k)

module _ {K : Type 0} (env : Env K) (sign : Bytes) where
  handle_keeps :
      (e : Event) (g : Gateway) {r : ℤ × Gateway}
      → handle env e g ≡ done r
      → contains sign g.md5_map ≡ true
      → contains sign r.1.md5_map ≡ true
  unfolding handle
  handle_keeps (knock now msg from_ip) g {r} h c =
      elim (gate_func_udp_recv_cases env now msg from_ip g h) [
        | inl (ticket, ok, e) ↦ ground (
          arith,
          e,
          contains-insert sign (env.ticket_packet.parse msg).sign_data (pos 1) g.md5_map c,
        )
        | inr (refused, same) ↦ ground (arith, same)
      ]
  handle_keeps (black_list req) g h c = unfold gate_func_black_list_op in ground arith
  handle_keeps (notice junk from_ip req) g h c = unfold gate_func_notice in ground arith

  run_keeps :
      (es : List Event) (g : Gateway) {g' : Gateway}
      → run env es g ≡ done g'
      → contains sign g.md5_map ≡ true
      → contains sign g'.md5_map ≡ true
  unfolding run
  run_keeps [] g h c = ground arith
  run_keeps (e ∷ es) g {g'} h c = elim (Outcome-cases (handle env e g)) [
    | inl (r, eq) ↦ run_keeps es r.1 {g' = g'} (ground (arith, eq)) (handle_keeps e g eq c)
    | inr (f, eq) ↦ absurd (ground (arith, eq))
  ]

-- After a knock that returned 0, and any events that the gateway handled since, a knock whose
-- packet carries the same signature does not return 0 and leaves the gateway as it is.
pub no_replay :
    {K : Type 0} (env : Env K) (g g1 g2 : Gateway) (now later : ℕ) (msg again from_ip ip : Bytes)
    (es : List Event) {r : ℤ × Gateway}
    → gate_func_udp_recv env now msg from_ip g ≡ done (pos 0, g1)
    → run env es g1 ≡ done g2
    → (env.ticket_packet.parse again).sign_data ≡ (env.ticket_packet.parse msg).sign_data
    → gate_func_udp_recv env later again ip g2 ≡ done r
    → (r.0 ≢ pos 0) × (r.1 ≡ g2)
no_replay env g g1 g2 now later msg again from_ip ip es {r} first between same second =
    elim (gate_func_udp_recv_cases env now msg from_ip g first) [
      | inr (refused, _) ↦ absurd (refused refl)
      | inl (ticket, ok, e) ↦
          let sign = (env.ticket_packet.parse msg).sign_data in
          let seen : contains sign g2.md5_map ≡ true =
            run_keeps env sign es g1 between
              (ground (arith, e, contains-insert_self sign (pos 1) g.md5_map)) in
          elim (gate_func_udp_recv_cases env later again ip g2 second) [
            | inr refused ↦ refused
            | inl (ticket', ok', _) ↦ absurd (ground (arith, seen, same, ok'.unused))
          ]
    ]
