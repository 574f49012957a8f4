-- ===== src/Application/Year2038.antt =====
-- FrequencyJudgment of modules/application: the minute of a visit, stored in an `int`.
use sdpgateway_verification.Prelude.{
  ℕ, ◌+◌, ◌≤◌, ◌^◌, ◌≡◌, Option, none, some, List, [], ◌∷◌, arith, pos, to_int32, InInt32, Bytes,
  Option-cases, inl, inr, refl, sym, subst, ap, ℤ, Outcome, done, ◌>>=◌, bind_done, done-injective,
}
use sdpgateway_verification.Map.{bytes_key, find, assign}
use sdpgateway_verification.Map.Laws.{find-assign}
use sdpgateway_verification.Application.{
  Application, Freq, app_func_https, frequency_judgment, time_now_min, new_application_config,
}
use sdpgateway_verification.Env.{Env}
use sdpgateway_verification.Erpc.Client.{Network}
use sdpgateway_verification.Application.Limits.{Request}
use sdpgateway_verification.Application.Ways.{
  FrequencyWays, frequency_ways, https_ways, freq-time_limit, begun,
}

-- The application after a sequence of requests, if it gets through them.
unfoldable pub after : {K : Type 0} → Env K → List Request → Application → Outcome Application
after env [] a = done a
after env (q ∷ qs) a =
    app_func_https env q.network q.now q.request q.from_ip a >>= λ r. after env qs r.2

abbrev EntryInRange : Option Freq → Type 0
EntryInRange none = Unit {0}
EntryInRange (some f) = InInt32 f.min

to_int32-InInt32 : (n : ℕ) → InInt32 (to_int32 n)
to_int32-InInt32 n = ground arith

module _ {K : Type 0} (env : Env K) where
  -- An entry that is written anew, or counts one more.
  begun_in_range :
      (now : ℕ) (ip from_ip : Bytes) (a : Application)
      → EntryInRange (find ip a.visist_freq_map)
      → EntryInRange (
          find ip (
            assign from_ip
              (record { times = 1; min = to_int32 (time_now_min now) })
              a.visist_freq_map))
  begun_in_range now ip from_ip a h = ground (
    arith,
    h,
    to_int32-InInt32 (time_now_min now),
    find-assign ip from_ip (record { times = 1; min = to_int32 (time_now_min now) })
        a.visist_freq_map,
  )

  bumped_in_range :
      (f : Freq) (ip from_ip : Bytes) (a : Application)
      → find from_ip a.visist_freq_map ≡ some f
      → EntryInRange (find ip a.visist_freq_map)
      → EntryInRange (find from_ip a.visist_freq_map)
      → EntryInRange (find ip (assign from_ip (record f { times = f.times + 1 }) a.visist_freq_map))
  bumped_in_range f ip from_ip a known h k = ground (
    arith,
    known,
    h,
    k,
    find-assign ip from_ip (record f { times = f.times + 1 }) a.visist_freq_map,
  )

  frequency_in_range :
      (network : Network) (now : ℕ) (ip from_ip : Bytes) (a : Application) (q : ℤ × Application)
      → FrequencyWays env network now from_ip a q
      → EntryInRange (find ip a.visist_freq_map)
      → EntryInRange (find from_ip a.visist_freq_map)
      → EntryInRange (find ip q.1.visist_freq_map)
  frequency_in_range network now ip from_ip a q (inl (other, same)) h k =
      subst (λ (t : ℤ × Application). EntryInRange (find ip t.1.visist_freq_map)) (sym same)
        (begun_in_range now ip from_ip a h)
  frequency_in_range network now ip from_ip a q (inr (f, known, current, inl (under, same))) h k =
      subst (λ (t : ℤ × Application). EntryInRange (find ip t.1.visist_freq_map)) (sym same)
        (bumped_in_range f ip from_ip a known h k)
  frequency_in_range network now ip from_ip a q
        (inr (f, known, current, inr (over, (n, asks, same)))) h k =
      subst (λ (t : ℤ × Application). EntryInRange (find ip t.1.visist_freq_map)) (sym same)
        (bumped_in_range f ip from_ip a known h k)

  https_in_range :
      (network : Network) (now : ℕ) (request ip from_ip : Bytes) (a : Application)
      {r : ℤ × Bytes × Application}
      → app_func_https env network now request from_ip a ≡ done r
      → EntryInRange (find ip a.visist_freq_map)
      → EntryInRange (find from_ip a.visist_freq_map)
      → EntryInRange (find ip r.2.visist_freq_map)
  https_in_range network now request ip from_ip a {r} e h k =
      let (q, eq, way) = https_ways env network now request from_ip a {r = r} e in
      let first =
        frequency_in_range network now ip from_ip a q
          (frequency_ways env network now from_ip a {r = q} eq) h k in
      elim way [
        | inl (bad, same) ↦
            subst (λ m. EntryInRange (find ip m)) (sym (ap (λ t. t.2.visist_freq_map) same)) first
        | inr (good, (p, time, end)) ↦
            let kept = freq-time_limit env network now from_ip q.1 p time in
            let second = subst (λ m. EntryInRange (find ip m)) (sym kept) first in
            elim end [
              | inl (bad, same) ↦
                  subst (λ m. EntryInRange (find ip m)) (sym (ap (λ t. t.2.visist_freq_map) same))
                    second
              | inr (fine, same) ↦
                  subst (λ m. EntryInRange (find ip m)) (sym (ap (λ t. t.2.visist_freq_map) same))
                    second
            ]
      ]

  after_in_range :
      (qs : List Request) (a : Application) {b : Application}
      → after env qs a ≡ done b
      → ((ip : Bytes) → EntryInRange (find ip a.visist_freq_map))
      → (ip : Bytes) → EntryInRange (find ip b.visist_freq_map)
  unfolding after
  after_in_range [] a {b} e h ip =
      subst (λ x. EntryInRange (find ip x.visist_freq_map)) (done-injective e) (h ip)
  after_in_range (q ∷ qs) a {b} e h ip =
      let (r, eq, e2) = bind_done (app_func_https env q.network q.now q.request q.from_ip a) _ e in
      after_in_range qs r.2 {b = b} e2
        (λ j. https_in_range q.network q.now q.request j q.from_ip a {r = r} eq (h j) (h q.from_ip))
        ip

-- From the minute that begins at 2^31 seconds or later on, after whatever requests since the start
-- that the application gets through, FrequencyJudgment returns 0 for every request and makes no
-- call.
pub no_limit_after_2038 :
    {K : Type 0} (env : Env K) (network : Network) (qs : List Request) (now : ℕ) (ip : Bytes)
    {a : Application}
    → after env qs new_application_config ≡ done a
    → 2 ^ 31 ≤ time_now_min now
    → (b : Application) × (frequency_judgment env network now ip a ≡ done (pos 0, b))
      × (b.notices ≡ a.notices)
unfolding frequency_judgment
no_limit_after_2038 env network qs now ip {a} survives late =
    let range =
      after_in_range env qs new_application_config {b = a} survives (λ j. unfold find in tt) ip in
    elim (Option-cases (find ip a.visist_freq_map)) [
      | inl new ↦ (begun env network now ip a, ground (arith, new), refl)
      | inr (f, known) ↦ (begun env network now ip a, ground (arith, known, range, late), refl)
    ]
