-- ===== src/Dispatcher/Rounds.antt =====
-- The rounds of Dispatch one after the other.
use sdpgateway_verification.Prelude.{
  ◌≡◌, refl, true, false, ◌||◌, ◌&&◌, List, [], ◌∷◌, arith, ℤ, pos, is_neg, Outcome, done, fault,
  Outcome-cases, done-injective, subst, inl, inr,
}
use sdpgateway_verification.Map.{int_key, contains}
use sdpgateway_verification.Env.{Env}
use sdpgateway_verification.Erpc.{Service}
use sdpgateway_verification.Dispatcher.{EpollDispatcher, Wakeup, dispatch_event, dispatch}
use sdpgateway_verification.Dispatcher.Registered.{IsServing, dispatch_event-IsServing}

-- The event is for a registered descriptor, reports no error together with data, and an accept
-- gives a descriptor.
abbrev pub IsRegular : {S : Type 0} → Wakeup → EpollDispatcher S → Type 0
IsRegular w d =
    (contains w.fd d.fdmap ≡ true)
    × (((w.epollerr || w.epollhup) && w.epollin) ≡ false)
    × (is_neg w.accepting.tmp_fd ≡ false)

module _ {K S : Type 0} (env : Env K) (service : Service S) where
  -- Every event is regular when its turn comes; after a fault none has one.
  abbrev AfterThat : (EpollDispatcher S → Type 0) → Outcome (EpollDispatcher S) → Type 0
  AfterThat P (done d) = P d
  AfterThat P (fault f) = Unit {0}

  abbrev pub AreRegular : List Wakeup → EpollDispatcher S → Type 0
  AreRegular [] d = Unit {0}
  AreRegular (w ∷ ws) d = IsRegular w d × AfterThat (AreRegular ws) (dispatch_event env service w d)

  -- From a well-formed table of descriptors, with events of which each is regular when its turn
  -- comes: if Dispatch returns, then it returns 0 and the table is well-formed again.
  pub dispatch-IsServing :
      (ws : List Wakeup) (d : EpollDispatcher S) (l u : ℤ) {r : ℤ × EpollDispatcher S}
      → AreRegular ws d
      → IsServing l u d.fdmap
      → dispatch env service ws d ≡ done r
      → (r.0 ≡ pos 0) × IsServing l u r.1.fdmap
  unfolding dispatch
  dispatch-IsServing [] d l u {r} regular h e =
      subst (λ (q : ℤ × EpollDispatcher S). (q.0 ≡ pos 0) × IsServing l u q.1.fdmap)
        (done-injective e) (refl, h)
  dispatch-IsServing (w ∷ ws) d l u {r} regular h e =
      elim (Outcome-cases (dispatch_event env service w d)) [
        | inr (f, eq) ↦ absurd (ground (arith, eq))
        | inl (d', eq) ↦
            let (known, apart, accepted) = regular.0 in
            dispatch-IsServing ws d' l u {r = r} (subst (AfterThat (AreRegular ws)) eq regular.1)
              (dispatch_event-IsServing env service w d l u {r = d'} known apart accepted h eq)
              (ground (arith, eq))
      ]
