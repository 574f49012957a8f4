-- ===== src/EndToEnd/Pages.antt =====
-- AppFuncHttpsRequest of comm/erpc/erpc_client.cpp for the page of modules/client, with the server
-- of modules/application at the other end.
use sdpgateway_verification.Prelude.{
  ℕ, ◌≤◌, ◌≡◌, true, [], ◌∷◌, arith, ℤ, pos, minus_one, is_neg, if◌then◌else◌, Bytes, txt, done,
  inl, inr,
}
use sdpgateway_verification.Env.{Env}
use sdpgateway_verification.Io.{got, wrote, handle_read-got, buffer_room}
use sdpgateway_verification.Io.Write.{after_interrupts}
use sdpgateway_verification.Erpc.{SocketInfo, handle_application_request}
use sdpgateway_verification.Erpc.Services.{application_service}
use sdpgateway_verification.Erpc.Client.{Network, app_func_https_request}
use sdpgateway_verification.Erpc.Reply.{answering, write_all}
use sdpgateway_verification.Application.{Application, app_func_https}
use sdpgateway_verification.Application.Answers.{app_func_https_cases}

abbrev pub the_page : Bytes
the_page = txt "<html><head></head><body>hello world!</body></html>"

abbrev pub the_request : Bytes
the_request = txt "https://www.sdpverificaton.com/test"

pub answers :
    {K : Type 0} (env : Env K) (notices : Network) (now k n : ℕ) (info : SocketInfo)
    (a a' : Application) {page : Bytes}
    → 51 ≤ n
    → app_func_https env notices now the_request info.ip a ≡ done (pos 0, page, a')
    → handle_application_request env
        (application_service env notices now)
        true
        info
        (got the_request)
        (after_interrupts k (wrote n ∷ []))
        a
      ≡ done (pos 0, the_page, a')
unfolding handle_application_request application_service
answers env notices now k n info a a' {page} room served =
    elim (app_func_https_cases env notices now the_request info.ip a {r = (pos 0, page, a')}
      served) [
        | inl (good, same, quiet) ↦ ground (
          arith,
          served,
          same,
          write_all k n the_page (omega arith) room,
          handle_read-got the_request [] (omega (arith, buffer_room)),
        )
        | inr (bad, _, _) ↦ absurd cc
      ]

-- AppFuncHttpsRequest on such a connection.
pub requests :
    (junk : ℤ) (k n : ℕ) (network : Network) (ip : Bytes) (port : ℤ)
    → 51 ≤ n
    → network ip port ≡ answering k n the_page
    → app_func_https_request junk network the_request [] ip port
      ≡ done (if is_neg junk then minus_one else pos 0, the_page, the_request)
unfolding app_func_https_request
requests junk k n network ip port room link = ground (
  arith,
  link,
  write_all k n the_request (omega arith) (omega (arith, room)),
  handle_read-got the_page [] (omega (arith, buffer_room)),
)
