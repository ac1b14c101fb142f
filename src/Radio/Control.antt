-- ===== src/Radio/Control.antt =====
-- The `radio_control` object of cw-skimmer/src/radio_control.c: what a user asks for, and the service
-- call that sends it. The pointer to the object is not NULL. Each call is one step: the lock is held
-- over each of them, but for the service call, which lets go of it between its parts. What another
-- thread asks for in between is taken to come before or behind the call.
pub mod Outside
pub mod Keyer
pub mod Service
pub mod Sound
pub mod Configure
pub mod KeyerSound
pub mod Lines
pub mod OneChunk
pub mod Tci
pub mod ServiceSound
pub mod Calls
use cw_skimmer.Prelude.{
  ℕ, zero, suc, Bool, true, false, not, ◌&&◌, ◌||◌, List, [], ◌∷◌, Option, none, some, length,
  if◌then◌else◌,
}
use cw_skimmer.Prelude.Int.{ℤ, pos, negsuc, ltb_ℤ}
use cw_skimmer.Prelude.Bytes.{Bytes, codes, str_eq, str_case_eq}
use cw_skimmer.Libc.Search.{copy_bounded}
use cw_skimmer.Radio.Text.{text_size, clamp_wpm, is_frequency, sanitize_cw}
use cw_skimmer.Radio.Queue.{
  Op, tune, cw, stop, Kind, tune_kind, cw_kind, stop_kind, OpQueue, empty, push, drop_kind,
}

-- the strings "tci" and "ky" that `mode` holds
pub data SendMode : Type 0 where
  tci ky : SendMode

-- KY_DOWN, KY_CONNECTING and KY_READY
pub data KyState : Type 0 where
  down connecting ready : KyState

-- `struct radio_control`. A buffer with its length is the list of its bytes; `ky_fd` is `none` at -1.
pub record RadioControl : Type 0 where
  pub queue : OpQueue
  pub mode : SendMode
  pub cat_host : Bytes
  pub cat_port : ℤ
  pub wpm : ℤ
  pub speed_dirty : Bool
  pub ky_warned : Bool
  pub fallback_logged : Bool
  pub ky_fd : Option ℕ
  pub ky_state : KyState
  pub ky_rx : Bytes
  pub ky_awaiting : Bool
  pub ky_next_ms : ℕ
  pub ky_backlog : Bytes
  pub ky_pos : ℕ

-- the fields of `config_t` that `radio_control_apply_config` reads
pub record CatSettings : Type 0 where
  pub cat_host : Bytes
  pub cat_port : ℤ
  pub cw_send : Bytes
  pub cw_wpm : ℤ

unfoldable pub create : RadioControl
unfolding empty
create = record {
  queue = empty;
  mode = tci;
  cat_host = codes "127.0.0.1";
  cat_port = pos 0;
  wpm = pos 20;
  speed_dirty = true;
  ky_warned = false;
  fallback_logged = false;
  ky_fd = none;
  ky_state = down;
  ky_rx = [];
  ky_awaiting = false;
  ky_next_ms = 0;
  ky_backlog = [];
  ky_pos = 0;
}

-- `rc_ky_close`
unfoldable pub ky_close : RadioControl → RadioControl
ky_close rc = record rc { ky_fd = none; ky_state = down; ky_rx = []; ky_awaiting = false }

-- `rc_clear_queue_locked`
unfoldable pub clear_queue : RadioControl → RadioControl
clear_queue rc = record rc {
  queue = record { entries = rc.queue.entries; head = 0; count = 0 };
  ky_backlog = [];
  ky_pos = 0;
}

-- the settings that the function works with: the host it falls back to, and the test for "ky"
abbrev pub host_of : CatSettings → Bytes
host_of cfg = elim cfg.cat_host [ [] ↦ codes "127.0.0.1" | c ∷ s ↦ copy_bounded 256 (c ∷ s) ]

abbrev pub asks_ky : CatSettings → Bool
asks_ky cfg = str_case_eq cfg.cw_send (codes "ky") && ltb_ℤ (pos 0) cfg.cat_port

abbrev pub asked_wpm : CatSettings → ℤ
asked_wpm cfg = if ltb_ℤ (pos 0) cfg.cw_wpm then cfg.cw_wpm else pos 20

abbrev pub same_port : ℤ → ℤ → Bool
same_port a b = not (ltb_ℤ a b || ltb_ℤ b a)

unfoldable pub apply_config : RadioControl → CatSettings → RadioControl
unfolding ky_close
apply_config rc cfg =
    let same_host = str_eq rc.cat_host (host_of cfg) && same_port rc.cat_port cfg.cat_port in
    let rc' = record rc {
      cat_host = copy_bounded 256 (host_of cfg);
      cat_port = cfg.cat_port;
      mode = if asks_ky cfg then ky else tci;
      fallback_logged =
          rc.fallback_logged
          || (str_case_eq cfg.cw_send (codes "ky") && not (ltb_ℤ (pos 0) cfg.cat_port));
      wpm = clamp_wpm (asked_wpm cfg);
      speed_dirty = true;
    } in
    if same_host && asks_ky cfg then rc' else ky_close rc'

unfoldable pub request_tune : RadioControl → ℤ → ℤ × RadioControl
request_tune rc hz =
    if is_frequency hz
    then (pos 0, record rc { queue = push (drop_kind rc.queue tune_kind) (tune hz) })
    else (negsuc 0, rc)

-- The cleaned text, which is empty where `radio_control_sanitize_cw` returns no positive number.
abbrev pub clean_text : Option Bytes → Bytes
clean_text text = elim ((sanitize_cw text (some []) (pos text_size)).1) [ none ↦ [] | some s ↦ s ]

abbrev push_text : RadioControl → Bytes → RadioControl
push_text rc [] = rc
push_text rc (c ∷ s) = record rc { queue = push rc.queue (cw (c ∷ s)) }

unfoldable pub cw_text : RadioControl → Option Bytes → ℤ × RadioControl
cw_text rc text = (pos 0, push_text rc (clean_text text))

unfoldable pub cw_stop : RadioControl → ℤ × RadioControl
cw_stop rc = (
  pos 0,
  record rc { queue = push (drop_kind rc.queue cw_kind) stop; ky_backlog = []; ky_pos = 0 },
)

unfoldable pub set_wpm : RadioControl → ℤ → ℤ × RadioControl
set_wpm rc wpm = (pos 0, record rc { wpm = clamp_wpm wpm; speed_dirty = true })
