-- ===== src/Config/Fields.antt =====
-- The fields that cw-skimmer/src/config.c sets: what fits them, and what `strcpy` overruns.
use cw_skimmer.Prelude.{
  ℕ, zero, suc, ◌<◌, ◌≡◌, refl, ◌∙◌, ltb→lt, Bool, true, false, not, ◌&&◌, ◌||◌, List, [], ◌∷◌,
  Option, none, some, arith, length, leb, ltb, set, Bool-cases, inl, inr, if◌then◌else◌,
}
use cw_skimmer.Prelude.Int.{ℤ, pos, ◌≤ℤ◌}
use cw_skimmer.Prelude.Bytes.{Bytes, codes, str_eq}
use cw_skimmer.Config.{Config, Setting, ◌>>=◌, put, clamp_channels}

pub clamp_channels_bounds : (n : ℤ) → (pos 1 ≤ℤ clamp_channels n) × (clamp_channels n ≤ℤ pos 48)
unfolding clamp_channels
clamp_channels_bounds n = ground arith

-- each string fits its field, with the NUL
abbrev pub AllFit : List (Bytes × ℕ) → Type 0
AllFit [] = Unit
AllFit ((s, size) ∷ others) = (length s < size) × AllFit others

pub set-AllFit :
    (i : ℕ) (s : Bytes) (size : ℕ) (others : List (Bytes × ℕ))
    → AllFit others
    → length s < size
    → AllFit (set others i (s, size))
set-AllFit i s size [] fit h = fit
set-AllFit zero s size (x ∷ others) (here, fit) h = (h, fit)
set-AllFit (suc i) s size (x ∷ others) (here, fit) h = (here, set-AllFit i s size others fit h)

-- The fields that are set by `strcpy`, with their sizes in config.h.
abbrev pub strcpy_fields : List (Bytes × ℕ)
strcpy_fields =
    (codes "radio_host", 256)
    ∷ (codes "radio_protocol", 32)
    ∷ (codes "spot_server_host", 256)
    ∷ (codes "spot_server_callsign", 64)
    ∷ (codes "validation_mode", 16)
    ∷ (codes "log_file", 256)
    ∷ []

-- a value that does not fit the field that its key names
abbrev pub is_too_long : List (Bytes × ℕ) → Bytes → Bytes → Bool
is_too_long [] key value = false
is_too_long ((name, size) ∷ fields) key value =
    if str_eq key name then leb size (length value) else is_too_long fields key value

-- a pair, for long chains of them
infixr 5 ◌also◌
abbrev pub ◌also◌ : {A B : Type 0} → A → B → A × B
a also b = (a, b)

abbrev pub limit : Option ℕ → Bytes → List (Bytes × ℕ) → List (Bytes × ℕ)
limit none name rest = rest
limit (some size) name rest = (name, size) ∷ rest

pub limit-skips :
    (room : Option ℕ) (name key value : Bytes) (rest : List (Bytes × ℕ))
    → str_eq key name ≡ false
    → is_too_long (limit room name rest) key value ≡ is_too_long rest key value
limit-skips none name key value rest e = refl
limit-skips (some size) name key value rest e = rw e refl

not_leb : (m n : ℕ) → ltb n m ≡ true → leb m n ≡ false
not_leb m n h = ground arith

is_leb : (m n : ℕ) → ltb n m ≡ false → leb m n ≡ true
is_leb m n h = ground arith

abbrev pub HasRoom : Option ℕ → Bytes → Type 0
HasRoom none value = Unit
HasRoom (some size) value = length value < size

module _ {F : Type 0} where
  -- the strings of a configuration, with the sizes of their fields
  abbrev pub strings : Config F → List (Bytes × ℕ)
  strings c =
      (c.radio_host, 256)
      ∷ (c.radio_protocol, 32)
      ∷ (c.spot_server_host, 256)
      ∷ (c.spot_server_callsign, 64)
      ∷ (c.validation_mode, 16)
      ∷ (c.log_file, 256)
      ∷ (c.tci_stream_mode, 16)
      ∷ (c.training_file, 512)
      ∷ (c.cw_send, 8)
      ∷ (c.cat_host, 256)
      ∷ []

  -- The number of channels is one that the program has room for, and each string fits its field.
  abbrev pub Fits : Config F → Type 0
  Fits c =
      (pos 1 ≤ℤ c.multi_decode_channels) × (c.multi_decode_channels ≤ℤ pos 48) × AllFit (strings c)

  -- no result where a field is overrun, else one whose strings fit
  abbrev pub Outcome : Bool → Option (Config F) → Type 0
  Outcome over none = over ≡ true
  Outcome over (some c) = (over ≡ false) × Fits c

  abbrev Keeps : Setting F → Type 0
  Keeps s = (c : Config F) (value : Bytes) → Fits c → HasRoom s.room value → Fits (s.assign c value)

  abbrev pub AllKeep : List (Setting F) → Type 0
  AllKeep [] = Unit
  AllKeep (s ∷ others) = Keeps s × AllKeep others

  -- the settings with a limit, and settings whose keys differ
  abbrev pub limits : List (Setting F) → List (Bytes × ℕ)
  limits [] = []
  limits (s ∷ others) = limit s.room s.name (limits others)

  abbrev pub is_new : Bytes → List (Setting F) → Bool
  is_new key [] = true
  is_new key (s ∷ others) = not (str_eq key s.name) && is_new key others

  abbrev pub are_distinct : List (Setting F) → Bool
  are_distinct [] = true
  are_distinct (s ∷ others) = is_new s.name others && are_distinct others

  pub new-limits :
      (others : List (Setting F)) (key value : Bytes)
      → is_new key others ≡ true
      → is_too_long (limits others) key value ≡ false
  new-limits [] key value h = refl
  new-limits (s ∷ others) key value h =
      limit-skips s.room s.name key value (limits others) (other_key h)
      ∙ new-limits others key value (others_new h)
    where
      other_key : is_new key (s ∷ others) ≡ true → str_eq key s.name ≡ false
      other_key h = ground arith

      others_new : is_new key (s ∷ others) ≡ true → is_new key others ≡ true
      others_new h = ground arith

  pub put-Outcome :
      (room : Option ℕ) (name key value : Bytes) (rest : List (Bytes × ℕ)) (c : Config F)
      → str_eq key name ≡ true
      → is_too_long rest key value ≡ false
      → (HasRoom room value → Fits c)
      → Outcome (is_too_long (limit room name rest) key value) (put room c value)
  put-Outcome none name key value rest c e short fits = (short, fits tt)
  put-Outcome (some size) name key value rest c e short fits =
      elim (Bool-cases (ltb (length value) size)) [
        | inl h ↦ rw (e, h) (not_leb size (length value) h, fits (ltb→lt _ _ h))
        | inr h ↦ rw (e, h) (is_leb size (length value) h)
      ]

  pub bind-Outcome :
      (over over' : Bool) (o : Option (Config F)) (next : Config F → Option (Config F))
      → Outcome over o
      → ((c : Config F) → Fits c → Outcome over' (next c))
      → Outcome (over || over') (o >>= next)
  bind-Outcome over over' none next e go_on = rw e refl
  bind-Outcome over over' (some c) next (e, fits) go_on = rw e (go_on c fits)
