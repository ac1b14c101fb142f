-- ===== src/Radio/Control/Calls.antt =====
-- The calls that the program makes on a `radio_control` object (cw-skimmer/src/radio_control.c), in any
-- sequence.
use cw_skimmer.Prelude.{Bool, List, [], ◌∷◌, Option}
use cw_skimmer.Prelude.Int.{ℤ}
use cw_skimmer.Prelude.Bytes.{Bytes}
use cw_skimmer.Radio.Control.{
  CatSettings, create, apply_config, request_tune, cw_text, cw_stop, set_wpm,
}
use cw_skimmer.Radio.Control.Outside.{Answers, Run, on_rc}
use cw_skimmer.Radio.Control.Service.{service}
use cw_skimmer.Radio.Control.Sound.{
  IsSound, create-IsSound, request_tune-IsSound, cw_text-IsSound, cw_stop-IsSound, set_wpm-IsSound,
}
use cw_skimmer.Radio.Control.Configure.{apply_config-IsSound}
use cw_skimmer.Radio.Control.ServiceSound.{service-IsSound}

-- The calls that other parts of the program make on the object.
pub data Call : Type 0 where
  configure : CatSettings → Call
  ask_tune : ℤ → Call
  ask_text : Option Bytes → Call
  ask_stop : Call
  ask_wpm : ℤ → Call
  serve : Bool → Option ℤ → Call

pub call : Answers → Run → Call → Run
call answers r (configure cfg) = on_rc r (apply_config r.rc cfg)
call answers r (ask_tune hz) = on_rc r (request_tune r.rc hz).1
call answers r (ask_text text) = on_rc r (cw_text r.rc text).1
call answers r ask_stop = on_rc r (cw_stop r.rc).1
call answers r (ask_wpm wpm) = on_rc r (set_wpm r.rc wpm).1
call answers r (serve training client) = service answers training client r

pub run_calls : Answers → Run → List Call → Run
unfolding call
run_calls answers r [] = r
run_calls answers r (c ∷ calls) = run_calls answers (call answers r c) calls

call-IsSound :
    (answers : Answers) (r : Run) (c : Call) → IsSound r.rc → IsSound (call answers r c).rc
unfolding call
call-IsSound answers r (configure cfg) v = apply_config-IsSound r.rc cfg v
call-IsSound answers r (ask_tune hz) v = request_tune-IsSound r.rc hz v
call-IsSound answers r (ask_text text) v = cw_text-IsSound r.rc text v
call-IsSound answers r ask_stop v = cw_stop-IsSound r.rc v
call-IsSound answers r (ask_wpm wpm) v = set_wpm-IsSound r.rc wpm v
call-IsSound answers r (serve training client) v = service-IsSound answers training client r v

run_calls-IsSound_from :
    (answers : Answers) (r : Run) (calls : List Call)
    → IsSound r.rc
    → IsSound (run_calls answers r calls).rc
unfolding run_calls
run_calls-IsSound_from answers r [] v = v
run_calls-IsSound_from answers r (c ∷ calls) v =
    run_calls-IsSound_from answers (call answers r c) calls (call-IsSound answers r c v)

-- However a new object is used, by whatever sequence of requests, new settings and service calls, and
-- whatever the system answers: the queue's indices stay inside its array, at most one tuning waits,
-- the speed stays within 5..60, the receive buffer (512 bytes) and the backlog (1024 bytes) do not
-- overflow, the place in the backlog stays inside it, a socket is open exactly while the keyer's
-- connection is being made or stands, and without KY mode that connection is down.
pub run_calls-IsSound :
    (answers : Answers) (calls : List Call)
    → IsSound (run_calls answers (record { rc = create; asked = 0; sent = [] }) calls).rc
run_calls-IsSound answers calls = run_calls-IsSound_from answers _ calls create-IsSound
