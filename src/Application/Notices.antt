-- ===== src/Application/Notices.antt =====
-- The calls of modules/application that ask the gateway to close the port for an address, against
-- the visits that it counts.
use sdpgateway_verification.Prelude.{
  ℕ, ◌+◌, ◌≤◌, ◌≡◌, Option, none, some, List, [], ◌∷◌, arith, if◌then◌else◌, ℤ, ap, inl, inr,
  int_eq, to_int32, Bytes, bytes_eq, bytes_eq_iff, sym, done, subst,
}
use sdpgateway_verification.Map.{bytes_key, find}
use sdpgateway_verification.Map.Laws.{find-assign}
use sdpgateway_verification.Env.{Env}
use sdpgateway_verification.Erpc.Client.{Network}
use sdpgateway_verification.Application.{Application, Notice, Freq, app_func_https, time_now_min}
use sdpgateway_verification.Gateway.{app_notice_close_port_for_ip}
use sdpgateway_verification.Application.Ways.{
  close_notice, FrequencyWays, TimeWays, frequency_ways, https_ways, freq-time_limit,
}

-- How many calls ask the gateway to close the port for the address, whether or not they reach it.
abbrev pub closing : Bytes → List Notice → ℕ
closing ip [] = 0
closing ip (n ∷ ns) =
    (if bytes_eq ip n.req.op_ip
      then (if int_eq n.req.op app_notice_close_port_for_ip then 1 else 0)
      else 0)
    + closing ip ns

abbrev pub counted : Option Freq → ℕ
counted none = 0
counted (some f) = f.times

-- Every visit of the address that is counted beyond three has made a call.
abbrev pub IsNoticed : Bytes → Application → Type 0
IsNoticed ip a = counted (find ip a.visist_freq_map) ≤ 3 + closing ip a.notices

-- A call for an address adds one to its count.
closing_more :
    (ip from_ip : Bytes) (n : Notice) (ns : List Notice)
    → n.req ≡ close_notice from_ip
    → closing ip (n ∷ ns) ≡ (if bytes_eq ip from_ip then 1 else 0) + closing ip ns
closing_more ip from_ip n ns asks = ground (arith, ap (λ r. r.op) asks, ap (λ r. r.op_ip) asks)

module _ {K : Type 0} (env : Env K) (network : Network) where
  frequency-IsNoticed :
      (now : ℕ) (ip from_ip : Bytes) (a : Application) (q : ℤ × Application)
      → FrequencyWays env network now from_ip a q
      → IsNoticed ip a
      → IsNoticed from_ip a
      → IsNoticed ip q.1
  frequency-IsNoticed now ip from_ip a q (inl (other, same)) h h2 =
      subst (λ (t : ℤ × Application). IsNoticed ip t.1) (sym same)
        (ground (
          arith,
          h,
          bytes_eq_iff ip from_ip,
          find-assign ip from_ip (record { times = 1; min = to_int32 (time_now_min now) })
              a.visist_freq_map,
        ))
  frequency-IsNoticed now ip from_ip a q (inr (f, known, current, inl (under, same))) h h2 =
      subst (λ (t : ℤ × Application). IsNoticed ip t.1) (sym same)
        (ground (
          arith,
          h,
          under,
          bytes_eq_iff ip from_ip,
          find-assign ip from_ip (record f { times = f.times + 1 }) a.visist_freq_map,
        ))
  frequency-IsNoticed now ip from_ip a q (inr (f, known, current, inr (over, (n, asks, same)))) h
        h2 =
      subst (λ (t : ℤ × Application). IsNoticed ip t.1) (sym same)
        (ground (
          arith,
          known,
          h,
          h2,
          closing_more ip from_ip n a.notices asks,
          bytes_eq_iff ip from_ip,
          find-assign ip from_ip (record f { times = f.times + 1 }) a.visist_freq_map,
        ))

  time_limit-closing :
      (now : ℕ) (ip from_ip : Bytes) (a : Application) (q : ℤ × Application)
      → TimeWays env network now from_ip a q
      → closing ip a.notices ≤ closing ip q.1.notices
  time_limit-closing now ip from_ip a q (inl same) = rw same (omega arith)
  time_limit-closing now ip from_ip a q (inr (n, asks, same)) = rw same (omega arith)

  pub app_func_https-IsNoticed :
      (now : ℕ) (request ip from_ip : Bytes) (a : Application) {r : ℤ × Bytes × Application}
      → app_func_https env network now request from_ip a ≡ done r
      → IsNoticed ip a
      → IsNoticed from_ip a
      → IsNoticed ip r.2
  app_func_https-IsNoticed now request ip from_ip a {r} e h h2 =
      let (q, eq, way) = https_ways env network now request from_ip a {r = r} e in
      let first =
        frequency-IsNoticed now ip from_ip a q (frequency_ways env network now from_ip a {r = q} eq)
          h h2 in
      elim way [
        | inl (bad, same) ↦
            subst (λ (t : ℤ × Bytes × Application). IsNoticed ip t.2) (sym same) first
        | inr (good, (p, time, end)) ↦
            let second : IsNoticed ip p.1 = ground (
              arith,
              first,
              freq-time_limit env network now from_ip q.1 p time,
              time_limit-closing now ip from_ip q.1 p time,
            ) in
            elim end [
              | inl (bad, same) ↦
                  subst (λ (t : ℤ × Bytes × Application). IsNoticed ip t.2) (sym same) second
              | inr (fine, same) ↦
                  subst (λ (t : ℤ × Bytes × Application). IsNoticed ip t.2) (sym same) second
            ]
      ]
