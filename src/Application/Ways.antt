-- ===== src/Application/Ways.antt =====
-- The ways through FrequencyJudgment and TimeLimitJudgement of modules/application.
use sdpgateway_verification.Prelude.{
  ℕ, ◌+◌, ◌≡◌, Option, none, some, [], ◌∷◌, ℤ, pos, minus_one, ◌⊎◌, ap, Option-cases, inl, inr,
  int_eq, to_int32, Bytes, is_neg, txt, refl, sym, done, done-injective, bind_done, if_cases, Bool,
  true, false, Bool-cases, ltb, ◌∙◌,
}
use sdpgateway_verification.Map.{bytes_key, find, assign}
use sdpgateway_verification.Messages.{NoticeReq}
use sdpgateway_verification.Env.{Env}
use sdpgateway_verification.Packet.{new_packet}
use sdpgateway_verification.Erpc.Client.{Network, gate_func_notice_request}
use sdpgateway_verification.Application.{
  Application, Notice, notice_gateway, one_more_visit, access_too_last_limit, Freq, app_func_https,
  frequency_judgment, time_limit_judgement, time_now_min,
}

abbrev pub close_notice : Bytes → NoticeReq
close_notice ip = record { op = pos 1; op_ip = ip }

module _ {K : Type 0} (env : Env K) (network : Network) where
  -- The call that a limit makes when it turns a client away, and nothing else.
  abbrev pub Called : Bytes → Application → Application → Type 0
  Called ip a a' =
      (n : Notice) × (n.req ≡ close_notice ip) × (a' ≡ record a { notices = n ∷ a.notices })

  pub notice_gateway_lem :
      (ip : Bytes) (a : Application) {a' : Application}
      → notice_gateway env network ip a ≡ done a'
      → Called ip a a'
  unfolding notice_gateway
  notice_gateway_lem ip a h =
      let ((ret, rsp, header, sent), eq, e) =
        bind_done
          (gate_func_notice_request env network (close_notice ip) (record {}) new_packet.header) _
          h in
      (record { req = close_notice ip; ret = ret; sent = sent }, refl, sym (done-injective e))

  abbrev pub begun : ℕ → Bytes → Application → Application
  begun now ip a = record a {
    visist_freq_map =
        assign ip (record { times = 1; min = to_int32 (time_now_min now) }) a.visist_freq_map;
  }

  abbrev pub bumped : Freq → Bytes → Application → Application
  bumped f ip a = record a {
    visist_freq_map = assign ip (record f { times = f.times + 1 }) a.visist_freq_map;
  }

  abbrev pub is_current : ℕ → Option Freq → Bool
  is_current m none = false
  is_current m (some f) = int_eq f.min (pos m)

  abbrev pub AnotherVisit : Freq → Bytes → Application → ℤ × Application → Type 0
  AnotherVisit f ip a r =
      ((ltb 3 (f.times + 1) ≡ false) × (r ≡ (pos 0, bumped f ip a)))
      ⊎ ((ltb 3 (f.times + 1) ≡ true)
          × ((n : Notice) × (n.req ≡ close_notice ip)
              × (r ≡ (minus_one, record (bumped f ip a) { notices = n ∷ a.notices }))))

  one_more_visit_ways :
      (f : Freq) (ip : Bytes) (a : Application) {r : ℤ × Application}
      → one_more_visit env network f ip a ≡ done r
      → AnotherVisit f ip a r
  unfolding one_more_visit
  one_more_visit_ways f ip a {r} h = elim (Bool-cases (ltb 3 (f.times + 1))) [
    | inr under ↦ inl (under, sym (done-injective (rw under at h)))
    | inl over ↦
        let (a', eq, e) =
          bind_done (notice_gateway env network ip (bumped f ip a)) _ (rw over at h) in
        let (n, asks, same) = notice_gateway_lem ip (bumped f ip a) {a' = a'} eq in
        inr (over, (n, asks, sym (done-injective e) ∙ ap (λ x. (minus_one, x)) same))
  ]

  abbrev pub FrequencyWays : ℕ → Bytes → Application → ℤ × Application → Type 0
  FrequencyWays now ip a r =
      ((is_current (time_now_min now) (find ip a.visist_freq_map) ≡ false)
        × (r ≡ (pos 0, begun now ip a)))
      ⊎ ((f : Freq) × (find ip a.visist_freq_map ≡ some f)
          × (int_eq f.min (pos (time_now_min now)) ≡ true)
          × AnotherVisit f ip a r)

  pub frequency_ways :
      (now : ℕ) (ip : Bytes) (a : Application) {r : ℤ × Application}
      → frequency_judgment env network now ip a ≡ done r
      → FrequencyWays now ip a r
  unfolding frequency_judgment
  frequency_ways now ip a {r} h = elim (Option-cases (find ip a.visist_freq_map)) [
    | inl new ↦ inl (rw new refl, sym (done-injective (rw (frequency_judgment, new) at h)))
    | inr (f, known) ↦ elim (Bool-cases (int_eq f.min (pos (time_now_min now)))) [
      | inr other ↦
          inl (rw known other, sym (done-injective (rw (frequency_judgment, known, other) at h)))
      | inl same ↦ inr (
        f,
        known,
        same,
        one_more_visit_ways f ip a {r = r} (rw (frequency_judgment, known, same) at h),
      )
    ]
  ]

  abbrev pub visited : ℕ → Bytes → Application → Application
  visited now ip a = record a { last_visit_time_map = assign ip now a.last_visit_time_map }

  abbrev pub TimeWays : ℕ → Bytes → Application → ℤ × Application → Type 0
  TimeWays now ip a r =
      (r ≡ (pos 0, visited now ip a))
      ⊎ ((n : Notice) × (n.req ≡ close_notice ip)
          × (r ≡ (minus_one, record (visited now ip a) { notices = n ∷ a.notices })))

  pub time_limit_ways :
      (now : ℕ) (ip : Bytes) (a : Application) {r : ℤ × Application}
      → time_limit_judgement env network now ip a ≡ done r
      → TimeWays now ip a r
  unfolding time_limit_judgement
  time_limit_ways now ip a {r} h = elim (Option-cases (find ip a.last_visit_time_map)) [
    | inl new ↦ inl (sym (done-injective (rw (time_limit_judgement, new) at h)))
    | inr (last_time, known) ↦
        elim (if_cases (ltb (last_time + access_too_last_limit) now) _ _
          (rw (time_limit_judgement, known) at h)) [
            | inr early ↦ inl (sym (done-injective early))
            | inl late ↦
                let (a', eq, e) =
                  bind_done (notice_gateway env network ip (visited now ip a)) _ late in
                let (n, asks, same) = notice_gateway_lem ip (visited now ip a) {a' = a'} eq in
                inr (n, asks, sym (done-injective e) ∙ ap (λ x. (minus_one, x)) same)
          ]
  ]

  -- The time limit leaves the counters of visits.
  pub freq-time_limit :
      (now : ℕ) (ip : Bytes) (a : Application) (r : ℤ × Application)
      → TimeWays now ip a r
      → r.1.visist_freq_map ≡ a.visist_freq_map
  freq-time_limit now ip a r (inl same) = ap (λ q. q.1.visist_freq_map) same
  freq-time_limit now ip a r (inr (n, asks, same)) = ap (λ q. q.1.visist_freq_map) same

  abbrev pub page : Bytes
  page = txt "<html><head></head><body>hello world!</body></html>"

  -- The result of AppFuncHttps, by the results of the two limits.
  abbrev pub HttpsWays : ℕ → Bytes → Application → ℤ × Bytes × Application → Type 0
  HttpsWays now ip a r =
      (q : ℤ × Application) × (frequency_judgment env network now ip a ≡ done q)
      × (((is_neg q.0 ≡ true) × (r ≡ (minus_one, [], q.1)))
          ⊎ ((is_neg q.0 ≡ false)
              × ((p : ℤ × Application) × TimeWays now ip q.1 p
                  × (((is_neg p.0 ≡ true) × (r ≡ (minus_one, [], p.1)))
                      ⊎ ((is_neg p.0 ≡ false) × (r ≡ (pos 0, page, p.1)))))))

  pub https_ways :
      (now : ℕ) (request ip : Bytes) (a : Application) {r : ℤ × Bytes × Application}
      → app_func_https env network now request ip a ≡ done r
      → HttpsWays now ip a r
  unfolding app_func_https
  https_ways now request ip a {r} h =
      let (q, eq, e) = bind_done (frequency_judgment env network now ip a) _ h in
      elim (Bool-cases (is_neg q.0)) [
        | inl bad ↦ (q, eq, inl (bad, sym (done-injective (rw bad at e))))
        | inr good ↦
            let (p, eq2, e2) =
              bind_done (time_limit_judgement env network now ip q.1) _ (rw good at e) in
            let ways = time_limit_ways now ip q.1 {r = p} eq2 in
            elim (Bool-cases (is_neg p.0)) [
              | inl bad ↦
                  (q, eq, inr (good, (p, ways, inl (bad, sym (done-injective (rw bad at e2))))))
              | inr fine ↦
                  (q, eq, inr (good, (p, ways, inr (fine, sym (done-injective (rw fine at e2))))))
            ]
      ]
