-- ===== src/Config.antt =====
-- The configuration of cw-skimmer/src/config.c: the defaults, and the files of `key = value` lines. What a
-- file holds is given as the lines that `fgets` returns, and `atoi` and `atof` are parameters. Where
-- `strcpy` writes behind its field, of which C says nothing, there is no result.
pub mod Fields
pub mod Settings
pub mod Bounds
mod Tests
use mathlib.Core.Option
use cw_skimmer.Prelude.{
  ℕ, ◌-◌, Bool, true, false, not, ◌&&◌, ◌||◌, List, [], ◌∷◌, Option, none, some, drop, length, leb,
  ltb, ◌==◌, if◌then◌else◌,
}
use cw_skimmer.Prelude.Int.{ℤ, pos, negsuc, ltb_ℤ}
use cw_skimmer.Prelude.Bytes.{Bytes, codes, str_eq}
use cw_skimmer.Libc.Search.{strchr, before_chr, copy_bounded}

infixl 5 ◌>>=◌
abbrev pub ◌>>=◌ : {A B : Type 0} → Option A → (A → Option B) → Option B
none >>= f = none
some a >>= f = f a

-- `atoi`, `atof`, and the floating-point constants, which are whole numbers
pub record Numbers (F : Type 0) : Type 0 where
  pub atoi : Bytes → ℤ
  pub atof : Bytes → F
  pub of_nat : ℕ → F

-- `config_t`
pub record Config (F : Type 0) : Type 0 where
  pub radio_host : Bytes
  pub radio_port : ℤ
  pub radio_protocol : Bytes
  pub center_frequency : F
  pub sample_rate : ℤ
  pub spot_server_host : Bytes
  pub spot_server_port : ℤ
  pub spot_server_callsign : Bytes
  pub detection_threshold : ℤ
  pub min_snr_db : F
  pub decode_min_snr_db : F
  pub decode_bucket_hz : F
  pub validation_mode : Bytes
  pub spot_enabled : Bool
  pub log_level : ℤ
  pub log_file : Bytes
  pub spectrum_span_hz : ℤ
  pub tci_stream_mode : Bytes
  pub iq_conjugate : Bool
  pub multi_decode_channels : ℤ
  pub training_file : Bytes
  pub cw_send : Bytes
  pub cw_wpm : ℤ
  pub cat_host : Bytes
  pub cat_port : ℤ

-- A key with what it sets, and the size of the field where `strcpy` sets it.
pub record Setting (F : Type 0) : Type 0 where
  pub name : Bytes
  pub room : Option ℕ
  pub assign : Config F → Bytes → Config F

module _ {F : Type 0} where
  abbrev pub sets : Bytes → (Config F → Bytes → Config F) → Setting F
  sets name assign = record { name = name; room = none; assign = assign }

  abbrev pub copies : Bytes → ℕ → (Config F → Bytes → Config F) → Setting F
  copies name size assign = record { name = name; room = some size; assign = assign }

-- a blank at the start of a string, and at its end
abbrev pub is_blank : ℕ → Bool
is_blank c = c == b' ' || c == b'\t'

abbrev pub is_end_blank : ℕ → Bool
is_end_blank c = is_blank c || c == b'\n'

unfoldable pub skip_blanks : Bytes → Bytes
skip_blanks [] = []
skip_blanks (c ∷ s) = let rest = skip_blanks s in if is_blank c then rest else c ∷ s

unfoldable pub cut_blanks : Bytes → Bytes
cut_blanks [] = []
cut_blanks (c ∷ s) =
    let rest = cut_blanks s in if is_end_blank c && leb (length rest) 0 then [] else c ∷ rest

unfoldable pub trim_string : Bytes → Bytes
trim_string s = cut_blanks (skip_blanks s)

unfoldable pub clamp_channels : ℤ → ℤ
clamp_channels n = if ltb_ℤ n (pos 1) then pos 1 else if ltb_ℤ (pos 48) n then pos 48 else n

-- `n ? 1 : 0`
abbrev pub is_set : ℤ → Bool
is_set n = ltb_ℤ n (pos 0) || ltb_ℤ (pos 0) n

-- a line that is skipped
abbrev pub is_skipped : Bytes → Bool
is_skipped [] = false
is_skipped (c ∷ s) = c == b'#' || c == b'\n' || c == b';'

-- the assignment, or the `strcpy`
abbrev pub put : {F : Type 0} → Option ℕ → Config F → Bytes → Option (Config F)
put none c value = some c
put (some size) c value = if ltb (length value) size then some c else none

module _ {F : Type 0} (numbers : Numbers F) where
  unfoldable pub config_defaults : Config F
  config_defaults = record {
    radio_host = codes "127.0.0.1";
    radio_port = pos 50_001;
    radio_protocol = codes "websocket";
    center_frequency = numbers.of_nat 14_074_000;
    sample_rate = pos 48_000;
    spot_server_host = codes "192.168.2.146";
    spot_server_port = pos 7_373;
    spot_server_callsign = codes "CWSKIMMER";
    detection_threshold = pos 14;
    min_snr_db = numbers.of_nat 2;
    decode_min_snr_db = numbers.of_nat 5;
    decode_bucket_hz = numbers.of_nat 1_000;
    validation_mode = codes "normal";
    spot_enabled = false;
    log_level = pos 1;
    log_file = codes "cw-skimmer.log";
    spectrum_span_hz = pos 0;
    tci_stream_mode = codes "iq";
    iq_conjugate = false;
    multi_decode_channels = pos 48;
    training_file = [];
    cw_send = codes "tci";
    cw_wpm = pos 20;
    cat_host = codes "127.0.0.1";
    cat_port = pos 0;
  }

  -- the keys, in the order in which they are compared, with what each sets
  unfoldable pub settings : List (Setting F)
  settings =
      copies (codes "radio_host") 256 (λ c value. record c { radio_host = value })
      ∷ sets (codes "radio_port") (λ c value. record c { radio_port = numbers.atoi value })
      ∷ copies (codes "radio_protocol") 32 (λ c value. record c { radio_protocol = value })
      ∷ sets (codes "center_frequency")
          (λ c value. record c { center_frequency = numbers.atof value })
      ∷ sets (codes "sample_rate") (λ c value. record c { sample_rate = numbers.atoi value })
      ∷ copies (codes "spot_server_host") 256 (λ c value. record c { spot_server_host = value })
      ∷ sets (codes "spot_server_port")
          (λ c value. record c { spot_server_port = numbers.atoi value })
      ∷ copies (codes "spot_server_callsign") 64
          (λ c value. record c { spot_server_callsign = value })
      ∷ sets (codes "detection_threshold")
          (λ c value. record c { detection_threshold = numbers.atoi value })
      ∷ sets (codes "min_snr_db") (λ c value. record c { min_snr_db = numbers.atof value })
      ∷ sets (codes "decode_min_snr_db")
          (λ c value. record c { decode_min_snr_db = numbers.atof value })
      ∷ sets (codes "decode_bucket_hz")
          (λ c value. record c { decode_bucket_hz = numbers.atof value })
      ∷ copies (codes "validation_mode") 16 (λ c value. record c { validation_mode = value })
      ∷ sets (codes "spot_enabled")
          (λ c value. record c { spot_enabled = is_set (numbers.atoi value) })
      ∷ sets (codes "log_level") (λ c value. record c { log_level = numbers.atoi value })
      ∷ copies (codes "log_file") 256 (λ c value. record c { log_file = value })
      ∷ sets (codes "spectrum_span_hz")
          (λ c value. record c { spectrum_span_hz = numbers.atoi value })
      ∷ sets (codes "tci_stream_mode")
          (λ c value. record c { tci_stream_mode = copy_bounded 16 value })
      ∷ sets (codes "iq_conjugate")
          (λ c value. record c { iq_conjugate = is_set (numbers.atoi value) })
      ∷ sets (codes "multi_decode_channels")
          (λ c value. record c { multi_decode_channels = clamp_channels (numbers.atoi value) })
      ∷ sets (codes "training_file")
          (λ c value. record c { training_file = copy_bounded 512 value })
      ∷ sets (codes "cw_send") (λ c value. record c { cw_send = copy_bounded 8 value })
      ∷ sets (codes "cw_wpm") (λ c value. record c { cw_wpm = numbers.atoi value })
      ∷ sets (codes "cat_host") (λ c value. record c { cat_host = copy_bounded 256 value })
      ∷ sets (codes "cat_port") (λ c value. record c { cat_port = numbers.atoi value })
      ∷ []

  -- the chain of comparisons
  unfoldable pub set_from : List (Setting F) → Config F → Bytes → Bytes → Option (Config F)
  set_from [] c key value = some c
  set_from (setting ∷ others) c key value =
      let rest = set_from others c key value in
      if str_eq key setting.name then put setting.room (setting.assign c value) value else rest

  unfoldable pub set_key : Config F → Bytes → Bytes → Option (Config F)
  set_key c key value = set_from settings c key value

  abbrev pub set_split : Config F → Bytes → Option Bytes → Option (Config F)
  set_split c line none = some c
  set_split c line (some eq) =
      set_key c (trim_string (before_chr line b'=')) (trim_string (drop 1 eq))

  unfoldable pub read_line : Config F → Bytes → Option (Config F)
  read_line c line = if is_skipped line then some c else set_split c line (strchr line b'=')

  unfoldable pub read_lines : Config F → List Bytes → Option (Config F)
  read_lines c [] = some c
  read_lines c (line ∷ lines) = do c' ← read_line c line; read_lines c' lines

  -- `config_load`, of a file that `fopen` opens or not
  unfoldable pub config_load : Option (List Bytes) → Option (ℤ × Config F)
  config_load none = some (negsuc 0, config_defaults)
  config_load (some lines) = Option.map (λ c. (pos 0, c)) (read_lines config_defaults lines)

  -- `config_load_auto`, on the candidates in order, with `none` for one that cannot be read
  unfoldable pub config_load_auto : List (Option (List Bytes)) → Option (ℤ × Config F)
  config_load_auto [] = some (negsuc 0, config_defaults)
  config_load_auto (none ∷ files) = config_load_auto files
  config_load_auto (some lines ∷ files) = config_load (some lines)
