-- ===== src/Application/Limits.antt =====
-- The limits of modules/application: the requests that are served in a minute.
use sdpgateway_verification.Prelude.{
  ℕ, ◌+◌, ◌-◌, ◌≤◌, ◌<◌, ◌^◌, ◌≡◌, Option, none, some, List, [], ◌∷◌, arith, if◌then◌else◌, ℤ, pos,
  ap, inl, inr, int_eq, int_eq_iff, to_int32, Bytes, bytes_eq, bytes_eq_iff, is_neg, sym, done,
  Outcome-cases, subst, not, fault, Bool,
}
use sdpgateway_verification.Map.{bytes_key, find}
use sdpgateway_verification.Map.Laws.{find-assign}
use sdpgateway_verification.Env.{Env}
use sdpgateway_verification.Erpc.Client.{Network}
use sdpgateway_verification.Application.Ways.{frequency_ways, https_ways, freq-time_limit}
use sdpgateway_verification.Application.{
  Application, Freq, app_func_https, frequency_judgment, time_now_min,
}

-- A request: the network to the gateway and the clock when it comes, the text, the address.
pub record Request : Type 0 where
  pub network : Network
  pub now : ℕ
  pub request : Bytes
  pub from_ip : Bytes

-- How many requests of `ip` in the sequence are answered with 0; after one that ends the process
-- nothing is answered.
unfoldable pub served : {K : Type 0} → Env K → Bytes → List Request → Application → ℕ
served env ip [] a = 0
served env ip (q ∷ qs) a = elim (app_func_https env q.network q.now q.request q.from_ip a) [
  | fault f ↦ 0
  | done r ↦
      (if bytes_eq ip q.from_ip then (if int_eq r.0 (pos 0) then 1 else 0) else 0)
      + served env ip qs r.2
]

-- All requests fall in the minute that begins at `m`.
abbrev pub InMinute : ℕ → List Request → Type 0
InMinute m [] = Unit {0}
InMinute m (q ∷ qs) = (time_now_min q.now ≡ m) × InMinute m qs

-- How many requests the frequency limit still lets through.
left : ℕ → Option Freq → ℕ
left m none = 3
left m (some f) = if int_eq f.min (pos m) then 3 - f.times else 3

to_int32_small : (m : ℕ) → m < 2 ^ 31 → to_int32 m ≡ pos m
to_int32_small m h = ground arith

module _ {K : Type 0} (env : Env K) (m : ℕ) (ip : Bytes) where
  -- What an answer counts, and what the limit then still lets through, is within `bound`.
  abbrev Within : Bytes → ℕ → Bool → Application → Type 0
  Within from_ip bound passes a =
      (if bytes_eq ip from_ip then (if passes then 1 else 0) else 0)
        + left m (find ip a.visist_freq_map)
      ≤ bound

  frequency_left :
      (network : Network) (now : ℕ) (from_ip : Bytes) (a : Application) {r : ℤ × Application}
      → m < 2 ^ 31
      → time_now_min now ≡ m
      → frequency_judgment env network now from_ip a ≡ done r
      → Within from_ip (left m (find ip a.visist_freq_map)) (not (is_neg r.0)) r.1
  unfolding left
  frequency_left network now from_ip a {r} small here h =
      let bound = left m (find ip a.visist_freq_map) in
      elim (frequency_ways env network now from_ip a {r = r} h) [
        | inl (other, same) ↦
            subst (λ (q : ℤ × Application). Within from_ip bound (not (is_neg q.0)) q.1) (sym same)
              (ground (
                arith,
                other,
                here,
                to_int32_small m small,
                bytes_eq_iff ip from_ip,
                int_eq_iff (pos m) (pos m),
                ap to_int32 here,
                find-assign ip from_ip (record { times = 1; min = to_int32 (time_now_min now) })
                    a.visist_freq_map,
              ))
        | inr (f, known, current, way) ↦ elim way [
          | inl (under, same) ↦
              subst (λ (q : ℤ × Application). Within from_ip bound (not (is_neg q.0)) q.1)
                (sym same)
                (ground (
                  arith,
                  known,
                  under,
                  bytes_eq_iff ip from_ip,
                  find-assign ip from_ip (record f { times = f.times + 1 }) a.visist_freq_map,
                ))
          | inr (over, (n, asks, same)) ↦
              subst (λ (q : ℤ × Application). Within from_ip bound (not (is_neg q.0)) q.1)
                (sym same)
                (ground (
                  arith,
                  known,
                  over,
                  bytes_eq_iff ip from_ip,
                  find-assign ip from_ip (record f { times = f.times + 1 }) a.visist_freq_map,
                ))
        ]
      ]

  step_left :
      (q : Request) (a : Application) {r : ℤ × Bytes × Application}
      → m < 2 ^ 31
      → time_now_min q.now ≡ m
      → app_func_https env q.network q.now q.request q.from_ip a ≡ done r
      → Within q.from_ip (left m (find ip a.visist_freq_map)) (int_eq r.0 (pos 0)) r.2
  step_left q a {r} small here h =
      let bound = left m (find ip a.visist_freq_map) in
      let (x, eq, way) = https_ways env q.network q.now q.request q.from_ip a {r = r} h in
      let fits = frequency_left q.network q.now q.from_ip a {r = x} small here eq in
      elim way [
        | inl (bad, same) ↦
            subst (λ (t : ℤ × Bytes × Application). Within q.from_ip bound (int_eq t.0 (pos 0)) t.2)
              (sym same) (ground (arith, bad, fits))
        | inr (good, (p, time, end)) ↦
            let kept = freq-time_limit env q.network q.now q.from_ip x.1 p time in
            elim end [
              | inl (bad, same) ↦
                  subst
                    (λ (t : ℤ × Bytes × Application).
                      Within q.from_ip bound (int_eq t.0 (pos 0)) t.2)
                    (sym same) (ground (arith, bad, good, fits, kept))
              | inr (fine, same) ↦
                  subst
                    (λ (t : ℤ × Bytes × Application).
                      Within q.from_ip bound (int_eq t.0 (pos 0)) t.2)
                    (sym same) (ground (arith, fine, good, fits, kept))
            ]
      ]

  served-le-left :
      (qs : List Request) (a : Application)
      → m < 2 ^ 31
      → InMinute m qs
      → served env ip qs a ≤ left m (find ip a.visist_freq_map)
  unfolding served
  served-le-left [] a small here = omega arith
  served-le-left (q ∷ qs) a small here =
      elim (Outcome-cases (app_func_https env q.network q.now q.request q.from_ip a)) [
        | inr (f, e) ↦ rw (served, e) (omega arith)
        | inl (r, e) ↦
            rw (served, e)
              (omega
                (arith, step_left q a {r = r} small here.0 e, served-le-left qs r.2 small here.1))
      ]

left-le : (m : ℕ) (o : Option Freq) → left m o ≤ 3
unfolding left
left-le m none = omega arith
left-le m (some f) = ground arith

-- In a minute that begins before 2^31 seconds, whatever requests of whatever addresses arrive,
-- whatever becomes of the notices to the gateway, and whatever the application has stored before,
-- at most three requests of an address are served.
pub served-le-3 :
    {K : Type 0} (env : Env K) (m : ℕ) (ip : Bytes) (qs : List Request) (a : Application)
    → m < 2 ^ 31
    → InMinute m qs
    → served env ip qs a ≤ 3
served-le-3 env m ip qs a small here =
    omega (arith, served-le-left env m ip qs a small here, left-le m (find ip a.visist_freq_map))
