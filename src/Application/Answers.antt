-- ===== src/Application/Answers.antt =====
-- What AppFuncHttps of modules/application answers, and the calls to the gateway that go with it.
use sdpgateway_verification.Prelude.{
  ℕ, ◌≡◌, [], ◌∷◌, ℤ, pos, minus_one, ◌⊎◌, ap, inl, inr, Bytes, is_neg, txt, done, true, false, ◌∙◌,
}
use sdpgateway_verification.Map.{bytes_key}
use sdpgateway_verification.Env.{Env}
use sdpgateway_verification.Erpc.Client.{Network}
use sdpgateway_verification.Application.{Application, Notice, app_func_https}
use sdpgateway_verification.Application.Ways.{
  close_notice, FrequencyWays, TimeWays, frequency_ways, https_ways,
}

-- A client passes and nothing is called, or is turned away after one call.
abbrev Verdict : Bytes → Application → ℤ × Application → Type 0
Verdict ip a q =
    ((is_neg q.0 ≡ false) × (q.1.notices ≡ a.notices))
    ⊎ ((is_neg q.0 ≡ true)
        × ((n : Notice) × (n.req ≡ close_notice ip) × (q.1.notices ≡ n ∷ a.notices)))

module _ {K : Type 0} (env : Env K) (network : Network) where
  frequency-Verdict :
      (now : ℕ) (ip : Bytes) (a : Application) (q : ℤ × Application)
      → FrequencyWays env network now ip a q
      → Verdict ip a q
  frequency-Verdict now ip a q (inl (other, same)) =
      inl (ap (λ t. is_neg t.0) same, ap (λ t. t.1.notices) same)
  frequency-Verdict now ip a q (inr (f, known, current, inl (under, same))) =
      inl (ap (λ t. is_neg t.0) same, ap (λ t. t.1.notices) same)
  frequency-Verdict now ip a q (inr (f, known, current, inr (over, (n, asks, same)))) =
      inr (ap (λ t. is_neg t.0) same, (n, asks, ap (λ t. t.1.notices) same))

  time-Verdict :
      (now : ℕ) (ip : Bytes) (a : Application) (q : ℤ × Application)
      → TimeWays env network now ip a q
      → Verdict ip a q
  time-Verdict now ip a q (inl same) = inl (ap (λ t. is_neg t.0) same, ap (λ t. t.1.notices) same)
  time-Verdict now ip a q (inr (n, asks, same)) =
      inr (ap (λ t. is_neg t.0) same, (n, asks, ap (λ t. t.1.notices) same))

-- A request is answered with 0 and the page, and makes no call; or with -1 and an empty response,
-- after one call of GateFuncNoticeRequest that asks to close the port for its address.
pub app_func_https_cases :
    {K : Type 0} (env : Env K) (network : Network) (now : ℕ) (request from_ip : Bytes)
    (a : Application) {r : ℤ × Bytes × Application}
    → app_func_https env network now request from_ip a ≡ done r
    → ((r.0 ≡ pos 0)
        × (r.1 ≡ txt "<html><head></head><body>hello world!</body></html>")
        × (r.2.notices ≡ a.notices))
      ⊎ ((r.0 ≡ minus_one)
          × (r.1 ≡ [])
          × ((n : Notice) × (n.req ≡ close_notice from_ip) × (r.2.notices ≡ n ∷ a.notices)))
app_func_https_cases env network now request from_ip a {r} h =
    let (q, eq, way) = https_ways env network now request from_ip a {r = r} h in
    let first =
      frequency-Verdict env network now from_ip a q
        (frequency_ways env network now from_ip a {r = q} eq) in
    elim way [
      | inl (bad, same) ↦ elim first [
        | inl (good, quiet) ↦ absurd cc
        | inr (_, (n, asks, noted)) ↦
            inr (
              ap (λ t. t.0) same,
              ap (λ t. t.1) same,
              (n, asks, ap (λ t. t.2.notices) same ∙ noted),
            )
      ]
      | inr (good, (p, time, end)) ↦ elim first [
        | inr (bad, _) ↦ absurd cc
        | inl (_, quiet) ↦ elim (time-Verdict env network now from_ip q.1 p time) [
          | inl (fine, silent) ↦ elim end [
            | inl (bad, same) ↦ absurd cc
            | inr (_, same) ↦ inl (
              ap (λ t. t.0) same,
              ap (λ t. t.1) same,
              ap (λ t. t.2.notices) same ∙ silent ∙ quiet,
            )
          ]
          | inr (bad, (n, asks, noted)) ↦ elim end [
            | inr (fine, same) ↦ absurd cc
            | inl (_, same) ↦ inr (
              ap (λ t. t.0) same,
              ap (λ t. t.1) same,
              (n, asks, ap (λ t. t.2.notices) same ∙ noted ∙ ap (λ l. n ∷ l) quiet),
            )
          ]
        ]
      ]
    ]
