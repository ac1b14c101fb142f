-- ===== src/Validator/Loops.antt =====
-- The loops of `looks_like_callsign` (cw-skimmer/src/cw_message_validator.c): what each finds, as a shape.
use cw_skimmer.Prelude.{
  ℕ, zero, suc, ◌+◌, ◌≤◌, ◌≡◌, refl, ap, ◌∙◌, Bool, true, false, ◌||◌, [], ◌∷◌, ◌++◌, arith, length,
  ◌==◌, inl, inr, Bool-cases,
}
use cw_skimmer.Prelude.Bytes.{Bytes, AllTrue}
use cw_skimmer.Libc.Chars.{is_digit, is_alpha}
use cw_skimmer.Validator.{itu_from, itu_prefix_plausible, digit_groups, suffix_from, call_bytes}

abbrev pub letter_or_slash : ℕ → Bool
letter_or_slash c = is_alpha c || c == b'/'

-- the end, or a '/'
abbrev pub Stops : Bytes → Type 0
Stops [] = Unit
Stops (c ∷ s) = (c == b'/') ≡ true

-- the letters before the first digit
pub record Front (letters : ℕ) (s : Bytes) : Type 0 where
  pub front : Bytes
  pub digit : ℕ
  pub rest : Bytes
  pub parts : s ≡ front ++ digit ∷ rest
  pub front_letters : AllTrue is_alpha front
  pub is_one : is_digit digit ≡ true
  pub few : (1 ≤ letters + length front) × (letters + length front ≤ 2)

itu_from-Front : (n letters : ℕ) (s : Bytes) → itu_from n letters s ≡ true → Front letters s
unfolding itu_from
itu_from-Front zero letters s h = cc h
itu_from-Front (suc n) letters [] h = cc h
itu_from-Front (suc n) letters (c ∷ s) h = elim (Bool-cases (is_alpha c)) [
  | inl alpha ↦
      let f = itu_from-Front n (letters + 1) s (rw alpha at h) in
      record {
        front = c ∷ f.front;
        digit = f.digit;
        rest = f.rest;
        parts = ap (◌∷◌ c) f.parts;
        front_letters = (alpha, f.front_letters);
        is_one = f.is_one;
        few = omega (arith, f.few);
      }
  | inr other ↦ record {
    front = [];
    digit = c;
    rest = s;
    parts = refl;
    front_letters = tt;
    is_one = ground arith;
    few = ground arith;
  }
]

pub itu_prefix_plausible-Front : (s : Bytes) → itu_prefix_plausible s ≡ true → Front 0 s
unfolding itu_prefix_plausible
itu_prefix_plausible-Front [] h = cc h
itu_prefix_plausible-Front (c ∷ s) h = itu_from-Front 4 0 (c ∷ s) (ground arith)

no_digit : (c : ℕ) → is_alpha c ≡ true → is_digit c ≡ false
unfolding is_alpha is_digit
no_digit c h = ground arith

no_slash : (c : ℕ) → is_alpha c ≡ true → (c == b'/') ≡ false
unfolding is_alpha
no_slash c h = ground arith

slash_no_digit : (c : ℕ) → (c == b'/') ≡ true → is_digit c ≡ false
unfolding is_digit
slash_no_digit c h = ground arith

-- The front of letters is passed by each of the loops.
pub call_bytes-append : (xs ys : Bytes) → call_bytes (xs ++ ys) ≡ true → call_bytes ys ≡ true
call_bytes-append [] ys h = h
call_bytes-append (c ∷ xs) ys h = call_bytes-append xs ys (ground arith)

pub digit_groups-front :
    (xs ys : Bytes) → AllTrue is_alpha xs → digit_groups false (xs ++ ys) ≡ digit_groups false ys
unfolding digit_groups
digit_groups-front [] ys h = refl
digit_groups-front (c ∷ xs) ys (alpha, h) = rw (no_digit c alpha) (digit_groups-front xs ys h)

pub suffix_from-front :
    (xs ys : Bytes) (k : ℕ)
    → AllTrue is_alpha xs
    → suffix_from false k (xs ++ ys) ≡ suffix_from false k ys
unfolding suffix_from
suffix_from-front [] ys k h = refl
suffix_from-front (c ∷ xs) ys k (alpha, h) =
    rw (no_digit c alpha, no_slash c alpha) (suffix_from-front xs ys k h)

pub suffix_from-digits :
    (xs ys : Bytes) → AllTrue is_digit xs → suffix_from true 0 (xs ++ ys) ≡ suffix_from true 0 ys
unfolding suffix_from
suffix_from-digits [] ys h = refl
suffix_from-digits (c ∷ xs) ys (digit, h) = rw digit (suffix_from-digits xs ys h)

-- the digits, and what follows: no digit
pub record Digits (s : Bytes) : Type 0 where
  pub digits : Bytes
  pub tail : Bytes
  pub parts : s ≡ digits ++ tail
  pub all_digits : AllTrue is_digit digits
  pub no_digits : AllTrue letter_or_slash tail

no_groups : (s : Bytes) → call_bytes s ≡ true → digit_groups false s ≡ 0 → AllTrue letter_or_slash s
unfolding digit_groups
no_groups [] h e = tt
no_groups (c ∷ s) h e = elim (Bool-cases (is_digit c)) [
  | inl digit ↦ absurd (omega (arith, rw digit at e))
  | inr other ↦ (ground arith, no_groups s (ground arith) (rw other at e))
]

pub one_group : (s : Bytes) → call_bytes s ≡ true → digit_groups true s ≡ 0 → Digits s
unfolding digit_groups
one_group [] h e = record { digits = []; tail = []; parts = refl; all_digits = tt; no_digits = tt }
one_group (c ∷ s) h e = elim (Bool-cases (is_digit c)) [
  | inl digit ↦
      let d = one_group s (ground arith) (rw digit at e) in
      record {
        digits = c ∷ d.digits;
        tail = d.tail;
        parts = ap (◌∷◌ c) d.parts;
        all_digits = (digit, d.all_digits);
        no_digits = d.no_digits;
      }
  | inr other ↦ record {
    digits = [];
    tail = c ∷ s;
    parts = refl;
    all_digits = tt;
    no_digits = (ground arith, no_groups s (ground arith) (rw other at e));
  }
]

-- the letters behind the digits
pub record Suffix (k : ℕ) (s : Bytes) : Type 0 where
  pub suffix : Bytes
  pub after : Bytes
  pub parts : s ≡ suffix ++ after
  pub letters : AllTrue is_alpha suffix
  pub stops : Stops after
  pub after_bytes : AllTrue letter_or_slash after
  pub counted : suffix_from true k s ≡ k + length suffix

pub suffix_from-Suffix : (k : ℕ) (s : Bytes) → AllTrue letter_or_slash s → Suffix k s
unfolding suffix_from
suffix_from-Suffix k [] h = record {
  suffix = [];
  after = [];
  parts = refl;
  letters = tt;
  stops = tt;
  after_bytes = tt;
  counted = omega arith;
}
suffix_from-Suffix k (c ∷ s) (here, h) = elim (Bool-cases (is_alpha c)) [
  | inl alpha ↦
      let f = suffix_from-Suffix (k + 1) s h in
      record {
        suffix = c ∷ f.suffix;
        after = f.after;
        parts = ap (◌∷◌ c) f.parts;
        letters = (alpha, f.letters);
        stops = f.stops;
        after_bytes = f.after_bytes;
        counted = rw (no_digit c alpha, alpha) (f.counted ∙ omega arith);
      }
  | inr other ↦ record {
    suffix = [];
    after = c ∷ s;
    parts = refl;
    letters = tt;
    stops = ground arith;
    after_bytes = (here, h);
    counted =
        let slash : (c == b'/') ≡ true = ground arith in
        rw (slash_no_digit c slash, other, slash) (omega arith);
  }
]
