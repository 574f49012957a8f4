-- ===== src/Tests/ToyApps.antt =====
-- A codec for the request that registers applications, in place of the generated one.
use sdpgateway_verification.Prelude.{ℕ, zero, suc, ◌≡◌, refl, ap, List, [], ◌∷◌, Bytes, length}
use sdpgateway_verification.Messages.{Codec, RoundTrips, AppItem, RegisterAppReq}
use sdpgateway_verification.Tests.ToyCodec.{
  put, first, after, first-put, after-put, num, rest_of, put_int, int, int-put, rest_of-put_int,
  past_ints,
}

abbrev pub put_app : AppItem → Bytes → Bytes
put_app a rest =
    put_int a.gate_udp_port (put_int a.app_tcp_port (put a.appname (put a.description rest)))

abbrev pub app_at : Bytes → AppItem
app_at b = record {
  gate_udp_port = int b;
  app_tcp_port = int (rest_of (rest_of b));
  appname = first (past_ints b);
  description = first (after (past_ints b));
}

unfoldable pub put_apps : List AppItem → Bytes
put_apps [] = []
put_apps (a ∷ l) = put_app a (put_apps l)

unfoldable pub apps_of : ℕ → Bytes → List AppItem
apps_of zero b = []
apps_of (suc n) b = app_at b ∷ apps_of n (after (after (past_ints b)))

apps_of-put_apps : (l : List AppItem) → apps_of (length l) (put_apps l) ≡ l
unfolding apps_of put_apps
apps_of-put_apps [] = refl
apps_of-put_apps (a ∷ l) = simp (first-put, after-put, int-put, rest_of-put_int, apps_of-put_apps l)

abbrev pub toy_register_app_req : Codec RegisterAppReq
toy_register_app_req = record {
  serialize = λ r. length r.app_list ∷ put_apps r.app_list;
  parse = λ b. record { app_list = apps_of (num b) (rest_of b) };
}

pub toy_register_app_req-RoundTrips : RoundTrips toy_register_app_req
unfolding num rest_of
toy_register_app_req-RoundTrips = record {
  parse-serialize = λ r. ap (λ l. record { app_list = l }) (apps_of-put_apps r.app_list);
}
