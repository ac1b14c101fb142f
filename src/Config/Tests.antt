-- ===== src/Config/Tests.antt =====
-- A run of the model of cw-skimmer/src/config.c on a short file, and the theorem at that file.
use mathlib.Core.Option
use cw_skimmer.Prelude.{ℕ, ◌≡◌, refl, true, List, [], ◌∷◌, Option, none, some, length}
use cw_skimmer.Prelude.Int.{ℤ, pos}
use cw_skimmer.Prelude.Bytes.{Bytes, codes, str_eq}
use cw_skimmer.Libc.Search.{strchr, before_chr}
use cw_skimmer.Config.{
  Numbers, Config, clamp_channels, skip_blanks, cut_blanks, trim_string, config_defaults, settings,
  set_from, set_key, read_line, read_lines, config_load, config_load_auto,
}
use cw_skimmer.Config.Bounds.{Loads, first_overruns, is_found, config_load_auto-Fits}

-- numbers that are read as the length of their text
abbrev lengths : Numbers ℕ
lengths = record { atoi = λ s. pos (length s); atof = λ s. length s; of_nat = λ n. n }

abbrev files : List (Option (List Bytes))
files =
    none
    ∷ some (
        codes "# mine\n"
        ∷ codes "cw_send = ky \n"
        ∷ codes "validation_mode = paranoid\n"
        ∷ codes "multi_decode_channels=\n"
        ∷ [])
    ∷ []

config_load_auto-Fits_example :
    Loads (first_overruns files) (is_found files) (config_load_auto lengths files)
config_load_auto-Fits_example = config_load_auto-Fits lengths files

abbrev of_result : Option (ℤ × Config ℕ) → Option (ℤ × Bytes × Bytes × ℤ)
of_result o = Option.map (λ r. (r.0, r.1.cw_send, r.1.validation_mode, r.1.multi_decode_channels)) o

-- the blanks are cut off, and a number of channels that is 0 is raised to 1
ky_run :
    of_result (config_load_auto lengths files) ≡ some (pos 0, codes "ky", codes "paranoid", pos 1)
unfolding config_load_auto config_load read_lines read_line set_key set_from settings trim_string
    skip_blanks cut_blanks clamp_channels config_defaults strchr before_chr str_eq
ky_run = refl

-- a value of 16 bytes for a field of 16
abbrev too_long : List (Option (List Bytes))
too_long = some (codes "validation_mode = very-very-strict\n" ∷ []) ∷ []

too_long_run : (config_load_auto lengths too_long ≡ none) × (first_overruns too_long ≡ true)
unfolding config_load_auto config_load read_lines read_line set_key set_from settings trim_string
    skip_blanks cut_blanks clamp_channels config_defaults strchr before_chr str_eq
too_long_run = (refl, refl)
