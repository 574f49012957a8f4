-- ===== src/Controller/Lockout.antt =====
-- The replay check of modules/controller over sequences of knocks and registrations.
use sdpgateway_verification.Prelude.{
  ℕ, zero, suc, ◌+◌, ◌≤◌, ◌≡◌, refl, ap, false, List, [], ◌∷◌, arith, if◌then◌else◌, ℤ, pos, int_eq,
  int_eq_iff, Bytes, bytes_eq, Outcome, done, Outcome-cases, inl, inr, subst, ◌>>=◌, txt, ltb,
  nat_eq, ◌∙◌, done-injective,
}
use sdpgateway_verification.Map.{Map, bytes_key, contains, insert}
use sdpgateway_verification.Map.Laws.{find-insert}
use sdpgateway_verification.OpenSsl.{Md5Works}
use sdpgateway_verification.Messages.{RegisterAppReq, AppItem}
use sdpgateway_verification.Env.{Env}
use sdpgateway_verification.CommDef.{rsa_pri_key_controller}
use sdpgateway_verification.Spa.Digest.{decrypt_voucher_digest}
use sdpgateway_verification.Controller.Config.{Controller, register_app, update_user_permission_add}
use sdpgateway_verification.Controller.{
  con_func_udp_recv, con_func_register_app, authorise, destination,
}
use sdpgateway_verification.Controller.Admission.{con_func_udp_recv_cases}

-- How many of the one-byte keys below `n` a map has.
used : ℕ → Map Bytes ℤ → ℕ
used zero m = 0
used (suc n) m = (if contains (n ∷ []) m then 1 else 0) + used n m

used-le : (n : ℕ) (m : Map Bytes ℤ) → used n m ≤ n
unfolding used
used-le zero m = omega arith
used-le (suc n) m = ground (arith, used-le n m)

bytes_eq_one : (n b : ℕ) → bytes_eq (n ∷ []) (b ∷ []) ≡ nat_eq n b
unfolding bytes_eq
bytes_eq_one n b = ground arith

used-insert :
    (n b : ℕ) (m : Map Bytes ℤ)
    → contains (b ∷ []) m ≡ false
    → used n (insert (b ∷ []) (pos 1) m) ≡ (if ltb b n then 1 else 0) + used n m
unfolding used
used-insert zero b m h = ground arith
used-insert (suc n) b m h =
    ground
      (arith, h, used-insert n b m h, find-insert (n ∷ []) (b ∷ []) (pos 1) m, bytes_eq_one n b)

-- The calls that change the controller. `run` counts the knocks that return 0.
pub data Event : Type 0 where
  knock : Bytes → Bytes → Event
  register : Bytes → RegisterAppReq → Event

abbrev pub passed : ℤ → ℕ
passed ret = if int_eq ret (pos 0) then 1 else 0

module _ {K : Type 0} (env : Env K) where
  unfoldable pub run : List Event → Controller → Outcome (ℕ × Controller)
  unfolding con_func_udp_recv con_func_register_app
  run [] c = done (0, c)
  run (knock msg from_ip ∷ es) c = do
    (ret, c') ← con_func_udp_recv env msg from_ip c
    (n, c'') ← run es c'
    done (passed ret + n, c'')
  run (register ip req ∷ es) c = run es (con_func_register_app ip req c).1

md5_map-add :
    (account dst : Bytes) (c : Controller)
    → (update_user_permission_add account dst c).1.md5_map ≡ c.md5_map
unfolding update_user_permission_add
md5_map-add account dst c = ground arith

md5_map-authorise :
    (ip : Bytes) (items : List AppItem) (c : Controller)
    → (authorise ip items c).md5_map ≡ c.md5_map
unfolding authorise
md5_map-authorise ip [] c = refl
md5_map-authorise ip (item ∷ items) c =
    md5_map-authorise ip items _
    ∙ md5_map-add (txt "xiaobai") (destination ip item) _
    ∙ md5_map-add (txt "xiaohong") (destination ip item) _
    ∙ md5_map-add (txt "xiaoming") (destination ip item) c

md5_map-register :
    (ip : Bytes) (req : RegisterAppReq) (items : List AppItem) (c : Controller)
    → req.app_list ≡ items
    → (con_func_register_app ip req c).1.md5_map ≡ c.md5_map
unfolding con_func_register_app
md5_map-register ip req [] c h = ground arith
md5_map-register ip req (item ∷ items) c h = ground (
  arith,
  md5_map-authorise ip (item ∷ items) (unfold register_app in register_app ip (item ∷ items) c),
)

module _ {K : Type 0} (env : Env K) (works : Md5Works env.ssl) where
  -- A knock fills a place of the 256 exactly if it returns 0.
  knock_fills :
      (msg ip : Bytes) (c : Controller) {r : ℤ × Controller}
      → con_func_udp_recv env msg ip c ≡ done r
      → used 256 r.1.md5_map ≡ passed r.0 + used 256 c.md5_map
  knock_fills msg ip c {r} h = elim (con_func_udp_recv_cases env msg ip c h) [
    | inl (v, ok, e) ↦
        let packet = env.voucher_packet.parse msg in
        let (b, small, one) =
          decrypt_voucher_digest env.ssl works env.voucher packet rsa_pri_key_controller
            ok.genuine in
        let unused = subst (λ k. contains k c.md5_map ≡ false) one ok.unused in
        ground (
          arith,
          e,
          small,
          used-insert 256 b c.md5_map unused,
          ap (λ k. used 256 (insert k (pos 1) c.md5_map)) one,
        )
    | inr (refused, inl same) ↦
        ground (arith, refused, int_eq_iff r.0 (pos 0), ap (λ c. used 256 c.md5_map) same)
    | inr (refused, inr gone) ↦
        ground (arith, refused, int_eq_iff r.0 (pos 0), ap (λ c. used 256 c.md5_map) gone)
  ]

  run_fills :
      (es : List Event) (c : Controller) {r : ℕ × Controller}
      → run env es c ≡ done r
      → used 256 r.1.md5_map ≡ r.0 + used 256 c.md5_map
  unfolding run
  run_fills [] c h =
      ground
        (arith, ap (λ c. used 256 c.md5_map) (ap (λ (q : ℕ × Controller). q.1) (done-injective h)))
  run_fills (register ip req ∷ es) c {r} h =
      run_fills es (con_func_register_app ip req c).1 {r = r} h
      ∙ ap (λ m. r.0 + used 256 m) (md5_map-register ip req req.app_list c refl)
  run_fills (knock msg ip ∷ es) c {r} h = elim (Outcome-cases (con_func_udp_recv env msg ip c)) [
    | inr (f, e) ↦ absurd (ground (arith, e))
    | inl (q, e) ↦ elim (Outcome-cases (run env es q.1)) [
      | inr (f, e2) ↦ absurd (ground (arith, e, e2))
      | inl (last, e2) ↦
          let same : done (passed q.0 + last.0, last.1) ≡ done r = ground (arith, e, e2) in
          subst (λ (r : ℕ × Controller). used 256 r.1.md5_map ≡ r.0 + used 256 c.md5_map)
            (done-injective same)
            (omega (arith, run_fills es q.1 {r = last} e2, knock_fills msg ip c e))
    ]
  ]

-- Where the MD5 calls work, in whatever run of knocks and registrations, from whatever state, at
-- most 256 knocks return 0.
pub at_most_256_pass :
    {K : Type 0} (env : Env K)
    → Md5Works env.ssl
    → (es : List Event) (c : Controller) {n : ℕ} {c' : Controller} → run env es c ≡ done (n, c')
    → n ≤ 256
at_most_256_pass env works es c {n} {c'} h =
    omega (arith, run_fills env works es c {r = (n, c')} h, used-le 256 c'.md5_map)
