-- ===== src/Config/Settings.antt =====
-- The settings of cw-skimmer/src/config.c: each keeps the bounds, or overruns its field.
use cw_skimmer.Prelude.{
  ◌≡◌, refl, sym, subst, Bool, true, ◌&&◌, List, [], ◌∷◌, arith, length-take, Bool-cases, inl, inr,
}
use cw_skimmer.Prelude.Bytes.{Bytes, str_eq, str_eq_iff}
use cw_skimmer.Libc.Search.{copy_bounded}
use cw_skimmer.Config.{Numbers, Config, Setting, config_defaults, settings, set_from, set_key}
use cw_skimmer.Config.Fields.{
  set-AllFit, ◌also◌, limit-skips, AllKeep, limits, is_new, are_distinct, new-limits, put-Outcome,
  clamp_channels_bounds, strcpy_fields, is_too_long, strings, Fits, Outcome,
}

module _ {F : Type 0} (numbers : Numbers F) where
  pub config_defaults-Fits : Fits (config_defaults numbers)
  unfolding config_defaults
  config_defaults-Fits = (
    omega arith,
    omega arith,
    omega arith
        also omega arith
        also omega arith
        also omega arith
        also omega arith
        also omega arith
        also omega arith
        also omega arith
        also omega arith
        also omega arith
        also tt,
  )

  -- each of the settings keeps the bounds
  settings-AllKeep : AllKeep (settings numbers)
  unfolding settings
  settings-AllKeep =
      (λ c value v h. (v.0, v.1, set-AllFit 0 value 256 (strings c) v.2 h))
      also (λ c value v h. v)
      also (λ c value v h. (v.0, v.1, set-AllFit 1 value 32 (strings c) v.2 h))
      also (λ c value v h. v)
      also (λ c value v h. v)
      also (λ c value v h. (v.0, v.1, set-AllFit 2 value 256 (strings c) v.2 h))
      also (λ c value v h. v)
      also (λ c value v h. (v.0, v.1, set-AllFit 3 value 64 (strings c) v.2 h))
      also (λ c value v h. v)
      also (λ c value v h. v)
      also (λ c value v h. v)
      also (λ c value v h. v)
      also (λ c value v h. (v.0, v.1, set-AllFit 4 value 16 (strings c) v.2 h))
      also (λ c value v h. v)
      also (λ c value v h. v)
      also (λ c value v h. (v.0, v.1, set-AllFit 5 value 256 (strings c) v.2 h))
      also (λ c value v h. v)
      also (λ c value v h. (
        v.0,
        v.1,
        set-AllFit 6 (copy_bounded 16 value) 16 (strings c) v.2
            (omega (arith, length-take 15 value)),
      ))
      also (λ c value v h. v)
      also (λ c value v h. (
        (clamp_channels_bounds (numbers.atoi value)).0,
        (clamp_channels_bounds (numbers.atoi value)).1,
        v.2,
      ))
      also (λ c value v h. (
        v.0,
        v.1,
        set-AllFit 7 (copy_bounded 512 value) 512 (strings c) v.2
            (omega (arith, length-take 511 value)),
      ))
      also (λ c value v h. (
        v.0,
        v.1,
        set-AllFit 8 (copy_bounded 8 value) 8 (strings c) v.2 (omega (arith, length-take 7 value)),
      ))
      also (λ c value v h. v)
      also (λ c value v h. (
        v.0,
        v.1,
        set-AllFit 9 (copy_bounded 256 value) 256 (strings c) v.2
            (omega (arith, length-take 255 value)),
      ))
      also (λ c value v h. v)
      also tt

  settings-distinct : are_distinct (settings numbers) ≡ true
  unfolding settings str_eq
  settings-distinct = refl

  settings-limits : limits (settings numbers) ≡ strcpy_fields
  unfolding settings
  settings-limits = refl

  first_new : (b b' : Bool) → (b && b') ≡ true → b ≡ true
  first_new b b' h = ground arith

  others_distinct : (b b' : Bool) → (b && b') ≡ true → b' ≡ true
  others_distinct b b' h = ground arith

  set_from-Outcome :
      (table : List (Setting F)) (c : Config F) (key value : Bytes)
      → AllKeep table
      → are_distinct table ≡ true
      → Fits c
      → Outcome (is_too_long (limits table) key value) (set_from numbers table c key value)
  unfolding set_from
  set_from-Outcome [] c key value keeps d v = (refl, v)
  set_from-Outcome (s ∷ others) c key value (keep, keeps) d v =
      let rest = set_from-Outcome others c key value keeps (others_distinct _ _ d) v in
      elim (Bool-cases (str_eq key s.name)) [
        | inl same ↦
            let new =
              subst (λ k. is_new k others ≡ true) (sym ((str_eq_iff key s.name).0 same))
                (first_new _ _ d) in
            rw same (
              put-Outcome s.room s.name key value (limits others) (s.assign c value) same
                (new-limits others key value new) (λ h. keep c value v h))
        | inr differs ↦
            rw (differs, limit-skips s.room s.name key value (limits others) differs) rest
      ]

  pub set_key-Outcome :
      (c : Config F) (key value : Bytes)
      → Fits c
      → Outcome (is_too_long strcpy_fields key value) (set_key numbers c key value)
  unfolding set_key
  set_key-Outcome c key value v =
      rw settings-limits at
        (set_from-Outcome (settings numbers) c key value settings-AllKeep settings-distinct v)
