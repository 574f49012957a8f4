-- ===== src/Application.antt =====
-- modules/application: the limits that the application puts on its clients, and its service. The
-- state is the singleton SDPApplicationConfig, with its calls of GateFuncNoticeRequest and what
-- each has come to. One reading `now` of the clock serves a whole call; `times` does not wrap.
pub mod Limits
pub mod Answers
pub mod Notices
pub mod Ways
pub mod Year2038
use sdpgateway_verification.Prelude.{
  ℕ, ◌+◌, ◌-◌, ◌%◌, Bool, true, false, Option, none, some, List, [], ◌∷◌, ltb, if◌then◌else◌, ℤ,
  pos, minus_one, is_neg, int_eq, to_int32, Bytes, txt, Outcome, done, ◌>>=◌,
}
use sdpgateway_verification.Map.{Map, bytes_key, find, assign}
use sdpgateway_verification.Messages.{NoticeReq}
use sdpgateway_verification.Tlog.{i_assert}
use sdpgateway_verification.Env.{Env}
use sdpgateway_verification.Packet.{new_packet}
use sdpgateway_verification.Erpc.Client.{Network, gate_func_notice_request}
use sdpgateway_verification.Gateway.{app_notice_close_port_for_ip}

-- Freq
pub record Freq : Type 0 where
  pub times : ℕ
  pub min : ℤ

-- A call of GateFuncNoticeRequest: the request, the result, and the bytes that have gone out.
pub record Notice : Type 0 where
  pub req : NoticeReq
  pub ret : ℤ
  pub sent : Bytes

pub record Application : Type 0 where
  pub visist_freq_map : Map Bytes Freq
  pub last_visit_time_map : Map Bytes ℕ
  pub notices : List Notice

abbrev pub new_application_config : Application
new_application_config = record { visist_freq_map = []; last_visit_time_map = []; notices = [] }

abbrev pub access_too_last_limit : ℕ
access_too_last_limit = 10

abbrev pub access_times_limit_one_min : ℕ
access_times_limit_one_min = 3

-- commtool::TimeNow_Min: the start of the minute, in a time zone of whole minutes.
abbrev pub time_now_min : ℕ → ℕ
time_now_min now = now - now % 60

-- The last lines of FrequencyJudgment: the minute, a time_t, is stored in an int.
first_visit : ℕ → Bytes → Application → ℤ × Application
first_visit min_now ip a = (
  pos 0,
  record a {
    visist_freq_map = assign ip (record { times = 1; min = to_int32 min_now }) a.visist_freq_map;
  },
)

-- HTTPS_HANDLER
unfoldable pub https_handler : Bytes → ℤ × Bytes
https_handler request = (pos 0, txt "<html><head></head><body>hello world!</body></html>")

module _ {K : Type 0} (env : Env K) (network : Network) where
  -- The notice that both limits give the gateway: a failed call is logged only, and one that throws
  -- ends the process.
  unfoldable pub notice_gateway : Bytes → Application → Outcome Application
  notice_gateway ip a = do
    let req : NoticeReq = record { op = app_notice_close_port_for_ip; op_ip = ip }
    (ret, rsp, header, sent) ←
        gate_func_notice_request env network req (record {}) new_packet.header
    done (record a { notices = record { req = req; ret = ret; sent = sent } ∷ a.notices })

  one_more_visit : Freq → Bytes → Application → Outcome (ℤ × Application)
  one_more_visit freq ip a =
      let a' = record a {
        visist_freq_map = assign ip (record freq { times = freq.times + 1 }) a.visist_freq_map;
      } in
      if ltb access_times_limit_one_min (freq.times + 1)
      then (notice_gateway ip a' >>= λ a''. done (minus_one, a''))
      else done (pos 0, a')

  -- FrequencyJudgment
  unfoldable pub frequency_judgment : ℕ → Bytes → Application → Outcome (ℤ × Application)
  unfolding find first_visit one_more_visit
  frequency_judgment now ip a =
      let min_now = time_now_min now in
      elim (find ip a.visist_freq_map) [
        | none ↦ done (first_visit min_now ip a)
        | some freq ↦
            if int_eq freq.min (pos min_now)
            then one_more_visit freq ip a
            else done (first_visit min_now ip a)
      ]

  -- TimeLimitJudgement: both ways out store the time of this visit.
  unfoldable pub time_limit_judgement : ℕ → Bytes → Application → Outcome (ℤ × Application)
  unfolding find assign
  time_limit_judgement now ip a =
      let a' = record a { last_visit_time_map = assign ip now a.last_visit_time_map } in
      elim (find ip a.last_visit_time_map) [
        | none ↦ done (pos 0, a')
        | some last_time ↦
            if ltb (last_time + access_too_last_limit) now
            then (notice_gateway ip a' >>= λ a''. done (minus_one, a''))
            else done (pos 0, a')
      ]

  -- AppFuncHttps; the response stays empty on an early return.
  unfoldable pub app_func_https :
      ℕ → Bytes → Bytes → Application → Outcome (ℤ × Bytes × Application)
  unfolding frequency_judgment time_limit_judgement https_handler
  app_func_https now request from_ip a = do
    (ret, a1) ← frequency_judgment now from_ip a
    i_assert ret (done (minus_one, [], a1)) (do
      (ret2, a2) ← time_limit_judgement now from_ip a1
      i_assert ret2 (done (minus_one, [], a2))
          (let (ret3, response) = https_handler request in done (ret3, response, a2)))
