-- ===== src/Radio/Tests.antt =====
-- Runs of the model of cw-skimmer/src/radio_control.c on inputs that can be followed in the source, and
-- the theorems at concrete inputs.
use cw_skimmer.Prelude.{
  ℕ, ◌+◌, ◌≤◌, ◌<◌, ◌≢◌, ◌≡◌, refl, ◌↔◌, Bool, true, false, List, [], ◌∷◌, Option, none, some,
  arith, length, take, drop, if◌then◌else◌, ap, ◌-◌, ◌++◌,
}
use cw_skimmer.Prelude.Int.{pos, negsuc}
use cw_skimmer.Prelude.Bytes.{Bytes, AllTrue, codes}
use cw_skimmer.Libc.Search.{strstr, strchr, before_chr, has_prefix}
use cw_skimmer.Libc.Chars.{to_upper}
use cw_skimmer.Radio.Text.{
  is_cw, sanitize_from, sanitize_cw, is_frequency, receiver, dds_text, vfo_text, format_tune,
  macro_text, format_cw_macro, keyer_text, macros_text, format_wpm, clamp_wpm, ky_status, text_size,
  chunk_size, ky_chunk, chunk_at, chunk_text, status_from,
}
use cw_skimmer.Radio.Text.Sanitize.{keyable, sanitize_cw_lem}
use cw_skimmer.Radio.Text.Commands.{format_tune_lem, format_cw_macro_lem, format_wpm_lem}
use cw_skimmer.Radio.Text.Chunks.{chunks, Sends, chunks_lem}
use cw_skimmer.Radio.Queue.{tune, stop, OpQueue, queue_size, empty, push, take_batch, waiting}
use cw_skimmer.Radio.Queue.Refine.{IsValid, empty-IsValid, push_lem, take_batch_lem, push_list}
use cw_skimmer.Radio.Control.{ky_close, tci, ky, CatSettings, create, ready, cw_text, request_tune}
use cw_skimmer.Radio.Control.Outside.{Answers, in_progress, nothing, Run, on_rc, Sent, to_ky}
use cw_skimmer.Radio.Control.Keyer.{
  serve_lines, take_line, serve_line, serve_status, serve_free, try_chunk, send_chunk, ky_write,
  write_to, write_done, drop_sent,
}
use cw_skimmer.Radio.Control.Service.{service}
use cw_skimmer.Radio.Control.Sound.{IsSound, create-IsSound, request_tune-IsSound, cw_text-IsSound}
use cw_skimmer.Radio.Control.KeyerSound.{KySound}
use cw_skimmer.Radio.Control.Lines.{Ends, serve_lines_total}
use cw_skimmer.Radio.Control.OneChunk.{gone_out, try_chunk_lem}
use cw_skimmer.Radio.Control.Tci.{emit, speed_commands, all_commands, served, service_tci}
use cw_skimmer.Radio.Control.Calls.{
  Call, configure, ask_stop, ask_tune, ask_text, serve, run_calls, run_calls-IsSound,
}

-- a system that refuses nothing and has nothing to say
abbrev quiet : Answers
quiet = record {
  now_ms = λ n. n;
  resolve = λ n. true;
  open_socket = λ n. some 5;
  connect = λ n. in_progress;
  writable = λ n. false;
  connect_failed = λ n. false;
  receive = λ n. nothing;
  ky_sent = λ n cmd. some (length cmd);
}

abbrev fresh : Run
fresh = record { rc = create; asked = 0; sent = [] }

sanitize_cw_lem_example :
    let clean = take 7 (keyable (codes "cq~ de k1abc")) in
    (sanitize_cw (some (codes "cq~ de k1abc")) (some []) (pos 8) ≡ (pos (length clean), some clean))
    × (length clean + 1 ≤ 8)
    × AllTrue is_cw clean
    × (sanitize_cw (some clean) (some []) (pos 8) ≡ (pos (length clean), some clean))
sanitize_cw_lem_example = sanitize_cw_lem (codes "cq~ de k1abc") [] 8 (omega arith)

sanitize_run :
    sanitize_cw (some (codes "cq~ de k1abc")) (some []) (pos 8) ≡ (pos 7, some (codes "CQ DE K"))
unfolding sanitize_cw to_upper is_cw
sanitize_run = refl

format_tune_lem_example : format_tune (pos 0) (pos 14_030_000) (some []) 64 (some []) 64 ≡ (
    if is_frequency (pos 14_030_000)
    then (pos 0, some (dds_text (pos 0) (pos 14_030_000)), some (vfo_text (pos 0) (pos 14_030_000)))
    else (negsuc 0, some [], some []))
format_tune_lem_example =
    format_tune_lem (pos 0) (pos 14_030_000) [] [] 64 64 (omega arith) (omega arith) (omega arith)

-- What is said of a text is said of one that holds a byte for the keyer.
keyed_not_empty : sanitize_from (codes "TU 73") (text_size - 1) ≢ []
unfolding sanitize_from is_cw to_upper
keyed_not_empty e = omega (arith, ap length e)

format_cw_macro_lem_example :
    let clean = sanitize_from (codes "TU 73") (text_size - 1) in
    (format_cw_macro (pos 1) (some (codes "TU 73")) (some []) 392
      ≡ (pos (length clean), some (macro_text (receiver (pos 1)) clean)))
    × (0 < length clean)
format_cw_macro_lem_example =
    format_cw_macro_lem (pos 1) (codes "TU 73") [] 392 (omega arith) (omega arith) keyed_not_empty

format_wpm_lem_example :
    (n : ℕ) × (5 ≤ n)
    × (n ≤ 60)
    × (clamp_wpm (pos 75) ≡ pos n)
    × (format_wpm (pos 75) (some []) 32 (some []) 32
        ≡ (pos n, some (keyer_text (pos n)), some (macros_text (pos n))))
format_wpm_lem_example = format_wpm_lem (pos 75) [] [] 32 32 (omega arith) (omega arith)

abbrev over : Bytes
over = codes "CQ CQ CQ DE K1ABC K1ABC K"

chunks_lem_example : Sends over 0 (length over) (chunks 40 (length over + 1) over 0)
chunks_lem_example = chunks_lem 40 over (omega arith)

abbrev one_tune : OpQueue
one_tune = push empty (tune (pos 7_030_000))

one_tune-IsValid : IsValid one_tune
one_tune-IsValid = (push_lem empty (tune (pos 7_030_000)) empty-IsValid).0

push_lem_example :
    IsValid (push one_tune stop)
    × (waiting (push one_tune stop) ≡ push_list (waiting one_tune) stop)
push_lem_example = push_lem one_tune stop one_tune-IsValid

one_tune-count : one_tune.count ≤ queue_size
one_tune-count = one_tune-IsValid.count_in

take_batch_lem_example :
    let (ops, q') = take_batch queue_size one_tune in
    IsValid q' × (q'.count ≡ 0) × (ops ≡ waiting one_tune)
take_batch_lem_example = take_batch_lem queue_size one_tune one_tune-IsValid one_tune-count

abbrev in_ky_mode : CatSettings
in_ky_mode = record {
  cat_host = codes "127.0.0.1";
  cat_port = pos 19_090;
  cw_send = codes "KY";
  cw_wpm = pos 24;
}

-- The object in KY mode, with a connection that stands, 5 bytes to send and a status line received.
abbrev keying : Run
keying = record {
  rc = record create {
    mode = ky;
    cat_port = pos 19_090;
    ky_fd = some 5;
    ky_state = ready;
    ky_awaiting = true;
    ky_rx = codes "KY0;";
    ky_backlog = codes "TU 73";
  };
  asked = 0;
  sent = [];
}

keying-fd : keying.rc.ky_fd ≡ some 5
keying-fd = refl

keying-rest : drop keying.rc.ky_pos keying.rc.ky_backlog ≡ b'T' ∷ codes "U 73"
unfolding create
keying-rest = refl

keying-KySound : KySound keying
unfolding create empty
keying-KySound = record {
  sound = record {
    queue_valid = empty-IsValid;
    one_tuning = omega arith;
    slow = omega arith;
    fast = omega arith;
    rx_fits = omega arith;
    backlog_fits = omega arith;
    inside = omega arith;
    socket = tt;
    idle = λ e. cc e;
  };
  in_ky = refl;
}

serve_lines_total_example : Ends (serve_lines quiet 5 keying)
serve_lines_total_example = serve_lines_total quiet 5 keying (omega arith) keying-KySound

-- what was sent, and what is left of the backlog
abbrev outcome : Option (Bool × Run) → List Sent × Bytes
outcome none = ([], [])
outcome (some (going, r)) = (r.sent, r.rc.ky_backlog)

-- a keyer that takes the first two bytes of a command
abbrev hurried : Answers
hurried = record quiet { ky_sent = λ n cmd. some 2 }

try_chunk_lem_example :
    let part = take chunk_size (codes "TU 73") in
    let cmd = chunk_text part in
    let moved = record keying.rc { ky_pos = keying.rc.ky_pos + length part } in
    let (ok, r') = try_chunk hurried keying in
    ((ok ≡ true) ↔ (hurried.ky_sent 0 cmd ≡ some (length cmd)))
    × (r'.rc ≡ (if ok then moved else ky_close moved))
    × (r'.sent ≡ keying.sent ++ gone_out (hurried.ky_sent 0 cmd) cmd)
    × (drop r'.rc.ky_pos r'.rc.ky_backlog ≡ drop chunk_size (codes "TU 73"))
try_chunk_lem_example = try_chunk_lem hurried keying 5 b'T' (codes "U 73") keying-fd keying-rest

-- the text that waits goes out as one chunk, and the backlog is then empty
keying_run : outcome (serve_lines quiet 5 keying) ≡ (to_ky (codes "KY TU 73;") ∷ [], [])
unfolding serve_lines take_line serve_line serve_status serve_free try_chunk send_chunk ky_write
    write_to write_done drop_sent ky_chunk chunk_at chunk_text ky_status status_from strstr create
    strchr before_chr has_prefix
keying_run = refl

-- the object with a tuning and a text that wait
abbrev tuned : Run
tuned = record {
  rc = (cw_text (request_tune create (pos 14_030_000)).1 (some (codes "TU 73"))).1;
  asked = 0;
  sent = [];
}

tuned-IsSound : IsSound tuned.rc
tuned-IsSound =
    cw_text-IsSound (request_tune create (pos 14_030_000)).1 (some (codes "TU 73"))
      (request_tune-IsSound create (pos 14_030_000) create-IsSound)

tuned-mode : tuned.rc.mode ≡ tci
unfolding create request_tune cw_text is_frequency sanitize_cw sanitize_from is_cw to_upper
tuned-mode = refl

service_tci_example :
    (service quiet false (some (pos 0)) tuned
      ≡ emit
          (on_rc tuned (served tuned.rc))
          (speed_commands tuned.rc ++ all_commands (receiver (pos 0)) (waiting tuned.rc.queue)))
    × (waiting (served tuned.rc).queue ≡ [])
    × (let r' = service quiet true (some (pos 0)) tuned in
        (waiting r'.rc.queue ≡ [])
        × (r'.rc.ky_backlog ≡ [])
        × (r'.rc.speed_dirty ≡ tuned.rc.speed_dirty)
        × (r'.sent ≡ tuned.sent)
        × (r'.asked ≡ tuned.asked))
service_tci_example = service_tci quiet tuned (pos 0) tuned-IsSound tuned-mode (omega arith)

abbrev a_day : List Call
a_day =
    ask_tune (pos 14_030_000)
    ∷ configure in_ky_mode
    ∷ ask_text (some (codes "K1ABC 5NN"))
    ∷ serve false (some (pos 0))
    ∷ ask_stop
    ∷ serve true none
    ∷ []

run_calls-IsSound_example :
    IsSound (run_calls quiet (record { rc = create; asked = 0; sent = [] }) a_day).rc
run_calls-IsSound_example = run_calls-IsSound quiet a_day
