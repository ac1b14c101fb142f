-- ===== src/Radio/Control/Configure.antt =====
-- `radio_control_apply_config` of cw-skimmer/src/radio_control.c keeps a sound object sound.
use cw_skimmer.Prelude.{
  ◌≡◌, refl, Bool, true, not, ◌&&◌, ◌||◌, arith, inl, inr, Bool-cases, if◌then◌else◌,
}
use cw_skimmer.Prelude.Int.{pos, ltb_ℤ}
use cw_skimmer.Prelude.Bytes.{codes, str_eq, str_case_eq}
use cw_skimmer.Libc.Search.{copy_bounded}
use cw_skimmer.Radio.Text.{clamp_wpm}
use cw_skimmer.Radio.Text.Commands.{clamp_wpm_bounds}
use cw_skimmer.Radio.Control.{
  RadioControl, tci, ky, CatSettings, ky_close, host_of, asks_ky, asked_wpm, same_port,
  apply_config,
}
use cw_skimmer.Radio.Control.Sound.{IsSound}

-- the connection stays: the same host and port, and the KY mode asked for
abbrev keeps_connection : RadioControl → CatSettings → Bool
keeps_connection rc cfg =
    (str_eq rc.cat_host (host_of cfg) && same_port rc.cat_port cfg.cat_port) && asks_ky cfg

-- the object with the new settings, before the connection is looked at
abbrev configured : RadioControl → CatSettings → RadioControl
configured rc cfg = record rc {
  cat_host = copy_bounded 256 (host_of cfg);
  cat_port = cfg.cat_port;
  mode = if asks_ky cfg then ky else tci;
  fallback_logged =
      rc.fallback_logged
      || (str_case_eq cfg.cw_send (codes "ky") && not (ltb_ℤ (pos 0) cfg.cat_port));
  wpm = clamp_wpm (asked_wpm cfg);
  speed_dirty = true;
}

apply_config-cases :
    (rc : RadioControl) (cfg : CatSettings)
    → apply_config rc cfg
      ≡ (if keeps_connection rc cfg then configured rc cfg else ky_close (configured rc cfg))
unfolding apply_config
apply_config-cases rc cfg = refl

keeps-ky :
    (rc : RadioControl) (cfg : CatSettings)
    → keeps_connection rc cfg ≡ true
    → (configured rc cfg).mode ≡ ky
keeps-ky rc cfg h = ground arith

pub apply_config-IsSound :
    (rc : RadioControl) (cfg : CatSettings) → IsSound rc → IsSound (apply_config rc cfg)
apply_config-IsSound rc cfg v =
    rw (apply_config-cases rc cfg) (elim (Bool-cases (keeps_connection rc cfg)) [
      | inl keep ↦ rw keep (record {
        queue_valid = v.queue_valid;
        one_tuning = v.one_tuning;
        slow = (clamp_wpm_bounds (asked_wpm cfg)).0;
        fast = (clamp_wpm_bounds (asked_wpm cfg)).1;
        rx_fits = v.rx_fits;
        backlog_fits = v.backlog_fits;
        inside = v.inside;
        socket = v.socket;
        idle = λ e. cc (e, keeps-ky rc cfg keep);
      })
      | inr drop ↦ rw drop (
          unfold ky_close in
          record {
            queue_valid = v.queue_valid;
            one_tuning = v.one_tuning;
            slow = (clamp_wpm_bounds (asked_wpm cfg)).0;
            fast = (clamp_wpm_bounds (asked_wpm cfg)).1;
            rx_fits = omega arith;
            backlog_fits = v.backlog_fits;
            inside = v.inside;
            socket = tt;
            idle = λ e. refl;
          })
    ])
