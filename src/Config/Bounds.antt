-- ===== src/Config/Bounds.antt =====
-- The bounds of what cw-skimmer/src/config.c sets from a configuration file, and the files that make it
-- write behind a field.
use mathlib.Core.Option
use cw_skimmer.Prelude.{
  ◌≡◌, refl, Bool, true, false, ◌||◌, List, [], ◌∷◌, Option, none, some, drop, Bool-cases, inl, inr,
  if◌then◌else◌,
}
use cw_skimmer.Prelude.Int.{ℤ, pos, negsuc}
use cw_skimmer.Prelude.Bytes.{Bytes}
use cw_skimmer.Libc.Search.{strchr, before_chr}
use cw_skimmer.Config.{
  Numbers, Config, trim_string, config_defaults, is_skipped, set_split, read_line, read_lines,
  config_load, config_load_auto,
}
use cw_skimmer.Config.Fields.{bind-Outcome, strcpy_fields, is_too_long, Fits, Outcome}
use cw_skimmer.Config.Settings.{config_defaults-Fits, set_key-Outcome}

-- a line, the lines of a file, and the first file that can be read
abbrev split_overruns : Bytes → Option Bytes → Bool
split_overruns line none = false
split_overruns line (some eq) =
    is_too_long strcpy_fields (trim_string (before_chr line b'=')) (trim_string (drop 1 eq))

abbrev line_overruns : Bytes → Bool
line_overruns line = if is_skipped line then false else split_overruns line (strchr line b'=')

abbrev pub overrun : List Bytes → Bool
overrun [] = false
overrun (line ∷ lines) = line_overruns line || overrun lines

abbrev pub first_overruns : List (Option (List Bytes)) → Bool
first_overruns [] = false
first_overruns (none ∷ files) = first_overruns files
first_overruns (some lines ∷ files) = overrun lines

abbrev pub is_found : List (Option (List Bytes)) → Bool
is_found [] = false
is_found (none ∷ files) = is_found files
is_found (some lines ∷ files) = true

-- no result where a field is overrun, else 0 or -1 with a configuration whose strings fit
abbrev pub Loads : {F : Type 0} → Bool → Bool → Option (ℤ × Config F) → Type 0
Loads over found none = over ≡ true
Loads over found (some (res, c)) =
    (over ≡ false) × (res ≡ (if found then pos 0 else negsuc 0)) × Fits c

module _ {F : Type 0} (numbers : Numbers F) where
  set_split-Outcome :
      (c : Config F) (line : Bytes) (eq : Option Bytes)
      → Fits c
      → Outcome (split_overruns line eq) (set_split numbers c line eq)
  set_split-Outcome c line none v = (refl, v)
  set_split-Outcome c line (some eq) v = set_key-Outcome numbers c _ _ v

  read_line-Outcome :
      (c : Config F) (line : Bytes)
      → Fits c
      → Outcome (line_overruns line) (read_line numbers c line)
  unfolding read_line
  read_line-Outcome c line v = elim (Bool-cases (is_skipped line)) [
    | inl skip ↦ rw skip (refl, v)
    | inr key ↦ rw key (set_split-Outcome c line (strchr line b'=') v)
  ]

  read_lines-Outcome :
      (c : Config F) (lines : List Bytes)
      → Fits c
      → Outcome (overrun lines) (read_lines numbers c lines)
  unfolding read_lines
  read_lines-Outcome c [] v = (refl, v)
  read_lines-Outcome c (line ∷ lines) v =
      bind-Outcome _ _ _ _ (read_line-Outcome c line v) (λ c' v'. read_lines-Outcome c' lines v')

  loaded :
      (over : Bool) (o : Option (Config F))
      → Outcome over o
      → Loads over true (Option.map (λ c. (pos 0, c)) o)
  loaded over none e = e
  loaded over (some c) (e, v) = (e, refl, v)

  -- Whatever the candidates for the configuration file hold: the result is 0 if one of them can be
  -- read, else -1, and the number of decoded channels lies between 1 and 48, and every string fits
  -- its field with the NUL, unless the first that can be read sets one of the six fields that
  -- `strcpy` fills (radio_host, radio_protocol, spot_server_host, spot_server_callsign,
  -- validation_mode, log_file) to a value as long as the field or longer. Exactly then `strcpy`
  -- writes behind the field, and C says nothing of the result.
  pub config_load_auto-Fits :
      (files : List (Option (List Bytes)))
      → Loads (first_overruns files) (is_found files) (config_load_auto numbers files)
  unfolding config_load_auto config_load
  config_load_auto-Fits [] = (refl, refl, config_defaults-Fits numbers)
  config_load_auto-Fits (none ∷ files) = config_load_auto-Fits files
  config_load_auto-Fits (some lines ∷ files) =
      loaded _ _ (read_lines-Outcome (config_defaults numbers) lines (config_defaults-Fits numbers))
