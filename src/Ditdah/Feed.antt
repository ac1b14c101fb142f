-- ===== src/Ditdah/Feed.antt =====
-- What ditdah_decoder_feed_iq (cw-skimmer/src/ditdah_decoder.c) makes of the samples: the block described as a whole.
use cw_skimmer.Prelude.{
  ℕ, suc, ◌+◌, ◌≤◌, ◌<◌, ◌≡◌, refl, sym, ap, ap₂, ◌∙◌, subst, inl, inr, false, List, [], ◌∷◌, ◌++◌,
  some, append-nil, append_assoc, arith, length, length-append, get_or, ltb, leb, lt→ltb, ltb→lt,
  max, Bool-cases,
}
use cw_skimmer.Libc.Floats.{Floats}
use cw_skimmer.Ditdah.Audio.{
  accum_max, Biquad, Decoder, biquad_process_sample, push_filtered, push_resampled, mix_omega,
  mixed, feed_from, feed_iq,
}
use cw_skimmer.Ditdah.Window.{IsWindow, append_audio-IsWindow}

not_less : (m n : ℕ) → n ≤ m → ltb m n ≡ false
not_less m n h = ground arith

abbrev pub concat : {F : Type 0} → List (F × List F) → List F
concat [] = []
concat ((x, xs) ∷ groups) = x ∷ (xs ++ concat groups)

abbrev pub firsts : {F : Type 0} → List (F × List F) → List F
firsts [] = []
firsts ((x, xs) ∷ groups) = x ∷ firsts groups

abbrev pub AllOf : {F : Type 0} → ℕ → List (F × List F) → Type 0
AllOf size [] = Unit
AllOf size ((x, xs) ∷ groups) = (length xs + 1 ≡ size) × AllOf size groups

-- the samples that make one at the target rate
abbrev pub group_size : {F : Type 0} → Decoder F → ℕ
group_size d = max 1 d.decim_step

module _ {F : Type 0} (float : Floats F) where
  -- both filters over a block, and the filters behind it
  abbrev pub filtered : Biquad F → Biquad F → List F → List F × Biquad F × Biquad F
  filtered hp lp [] = ([], hp, lp)
  filtered hp lp (x ∷ xs) =
      let (high, hp') = biquad_process_sample float hp x in
      let (y, lp') = biquad_process_sample float lp high in
      let (ys, hp'', lp'') = filtered hp' lp' xs in (y ∷ ys, hp'', lp'')

  abbrev pub mixed_all : F → ℕ → List (F × F) → List F
  mixed_all turn i [] = []
  mixed_all turn i (iq ∷ iqs) = mixed float turn i iq ∷ mixed_all turn (i + 1) iqs

  -- what an earlier call leaves: fewer samples wait than make a group, and a group fits `decim_accum`
  abbrev pub IsReady : Decoder F → Type 0
  IsReady d = (length d.decim_accum < group_size d) × (d.decim_step ≤ accum_max)

  -- the object behind a block, by the groups, the rest, the audio buffer and the mixer's index
  abbrev pub behind : Decoder F → List (F × List F) → List F → List F → ℕ → Decoder F
  behind d groups rest audio mix_index =
      let ends = filtered d.filter_hp d.filter_lp (firsts groups) in
      record d {
        filter_hp = ends.1;
        filter_lp = ends.2;
        audio = audio;
        decim_accum = rest;
        mix_index = mix_index;
      }

  -- How `d'` comes of `d` by the mixed samples `raw`, where everything that came to the audio buffer before
  -- is `all`: those that waited and the new ones are groups and a rest that is shorter than a group; the
  -- first of each group goes through the filters to the audio buffer, and the rest waits.
  pub record IsFed (d d' : Decoder F) (raw all : List F) : Type 0 where
    pub groups : List (F × List F)
    pub rest : List F
    pub splits : d.decim_accum ++ raw ≡ concat groups ++ rest
    pub whole : AllOf (group_size d) groups
    pub short : length rest < group_size d
    pub result : d' ≡ behind d groups rest d'.audio (d.mix_index + length raw)
    pub window : IsWindow d'.audio (all ++ (filtered d.filter_hp d.filter_lp (firsts groups)).0)

  abbrev next : Decoder F → Decoder F
  next d = record d { mix_index = d.mix_index + 1 }

  -- a sample that only waits
  waits-IsFed :
      (d d' : Decoder F) (x : F) (raw all : List F)
      → IsFed
          (record d { decim_accum = d.decim_accum ++ x ∷ []; mix_index = d.mix_index + 1 })
          d'
          raw
          all
      → IsFed d d' (x ∷ raw) all
  waits-IsFed d d' x raw all fed = record {
    groups = fed.groups;
    rest = fed.rest;
    splits = sym (append_assoc d.decim_accum (x ∷ []) raw) ∙ fed.splits;
    whole = fed.whole;
    short = fed.short;
    result = fed.result ∙ ap (behind d fed.groups fed.rest d'.audio) (omega arith);
    window = fed.window;
  }

  -- a sample that completes a group
  group-IsFed :
      (d d' : Decoder F) (x head : F) (tail raw all : List F)
      → d.decim_accum ++ x ∷ [] ≡ head ∷ tail
      → length tail + 1 ≡ group_size d
      → IsFed
          (next (push_filtered float (record d { decim_accum = [] }) head))
          d'
          raw
          (all ++ (filtered d.filter_hp d.filter_lp (head ∷ [])).0)
      → IsFed d d' (x ∷ raw) all
  unfolding push_filtered
  group-IsFed d d' x head tail raw all e size fed = record {
    groups = (head, tail) ∷ fed.groups;
    rest = fed.rest;
    splits =
        sym (append_assoc d.decim_accum (x ∷ []) raw)
        ∙ ap (λ s. s ++ raw) e
        ∙ ap (λ s. head ∷ (tail ++ s)) fed.splits
        ∙ ap (◌∷◌ head) (sym (append_assoc tail (concat fed.groups) fed.rest));
    whole = (size, fed.whole);
    short = fed.short;
    result = fed.result ∙ ap (behind d ((head, tail) ∷ fed.groups) fed.rest d'.audio) (omega arith);
    window = subst (IsWindow d'.audio) (append_assoc all _ _) fed.window;
  }

  head_tail :
      (xs : List F) (x : F)
      → (h : F) × (t : List F) × (xs ++ x ∷ [] ≡ h ∷ t) × (length t ≡ length xs)
  head_tail [] x = (x, [], refl, refl)
  head_tail (y ∷ xs) x = (y, xs ++ x ∷ [], refl, omega (arith, length-append xs (x ∷ [])))

  no_items : (xs : List F) → length xs < 1 → xs ≡ []
  no_items [] h = refl
  no_items (x ∷ xs) h = absurd (omega arith)

  -- a sample that completes a group, or that only waits
  push_group :
      (d : Decoder F) (x head : F) (tail : List F)
      → d.decim_accum ++ x ∷ [] ≡ head ∷ tail
      → length tail + 1 ≡ group_size d
      → d.decim_step ≤ accum_max
      → push_resampled float d x ≡ some (push_filtered float (record d { decim_accum = [] }) head)
  unfolding push_resampled
  push_group d x head tail e size small =
      let long : length (d.decim_accum ++ x ∷ []) ≡ suc (length tail) = ap length e in
      let end = length-append d.decim_accum (x ∷ []) in
      elim (Bool-cases (ltb 1 d.decim_step)) [
        | inl grouped ↦
            rw
              (
                grouped,
                lt→ltb (length d.decim_accum) accum_max (omega arith),
                e,
                not_less (length (head ∷ tail)) d.decim_step (omega arith),
              )
              refl
        | inr single ↦ rw (single) (
            ap₂ (λ xs y. some (push_filtered float (record d { decim_accum = xs }) y))
              (no_items d.decim_accum (omega (arith, not_more d.decim_step single)))
              (first_of d.decim_accum x head tail e
                (no_items d.decim_accum (omega (arith, not_more d.decim_step single)))))
      ]
    where
      not_more : (n : ℕ) → ltb 1 n ≡ false → n ≤ 1
      not_more n h = ground arith

      first_of : (xs : List F) (y h : F) (t : List F) → xs ++ y ∷ [] ≡ h ∷ t → xs ≡ [] → y ≡ h
      first_of xs y h t e' none_held =
          ap (λ s. get_or s 0 y) (sym (ap (λ s. s ++ y ∷ []) none_held) ∙ e')

  push_waits :
      (d : Decoder F) (x : F)
      → length d.decim_accum + 1 < group_size d
      → d.decim_step ≤ accum_max
      → push_resampled float d x ≡ some (record d { decim_accum = d.decim_accum ++ x ∷ [] })
  unfolding push_resampled
  push_waits d x h small =
      rw
        (
          lt→ltb 1 d.decim_step (omega arith),
          lt→ltb (length d.decim_accum) accum_max (omega arith),
          lt→ltb (length (d.decim_accum ++ x ∷ [])) d.decim_step
              (omega (arith, length-append d.decim_accum (x ∷ []))),
        )
        refl

  feed_from-step :
      (turn : F) (d d₁ : Decoder F) (iq : F × F) (iqs : List (F × F))
      → push_resampled float d (mixed float turn d.mix_index iq) ≡ some d₁
      → feed_from float turn d (iq ∷ iqs) ≡ feed_from float turn (next d₁) iqs
  unfolding feed_from
  feed_from-step turn d d₁ iq iqs e = rw (e, feed_from) refl

  feed_from-IsFed :
      (turn : F) (d : Decoder F) (iqs : List (F × F)) (all : List F)
      → IsReady d
      → IsWindow d.audio all
      → (d' : Decoder F) × (feed_from float turn d iqs ≡ some d')
        × IsFed d d' (mixed_all turn d.mix_index iqs) all
  unfolding feed_from
  feed_from-IsFed turn d [] all (ready, small) w = (
    d,
    refl,
    record {
      groups = [];
      rest = d.decim_accum;
      splits = append-nil d.decim_accum;
      whole = tt;
      short = ready;
      result =
          ap (behind d [] d.decim_accum d.audio) {x = d.mix_index} {y = d.mix_index + 0}
            (omega arith);
      window = subst (IsWindow d.audio) (sym (append-nil all)) w;
    },
  )
  feed_from-IsFed turn d (iq ∷ iqs) all (ready, small) w =
      let x = mixed float turn d.mix_index iq in
      elim (Bool-cases (ltb (length d.decim_accum + 1) (group_size d))) [
        | inl open_group ↦
            let (d', e, fed) =
              feed_from-IsFed turn (next (record d { decim_accum = d.decim_accum ++ x ∷ [] })) iqs
                all
                (
                  omega (
                    arith,
                    length-append d.decim_accum (x ∷ []),
                    ltb→lt (length d.decim_accum + 1) (group_size d) open_group,
                  ),
                  small,
                )
                w in
            (
              d',
              feed_from-step turn d _ iq iqs (push_waits d x (ltb→lt _ _ open_group) small) ∙ e,
              waits-IsFed d d' x (mixed_all turn (d.mix_index + 1) iqs) all fed,
            )
        | inr full_group ↦
            let (head, tail, e, long) = head_tail d.decim_accum x in
            let size : length tail + 1 ≡ group_size d =
              omega (arith, not_open (length d.decim_accum + 1) (group_size d) full_group) in
            let d₁ = push_filtered float (record d { decim_accum = [] }) head in
            let (d', e', fed) =
              feed_from-IsFed turn (next d₁) iqs
                (all ++ (filtered d.filter_hp d.filter_lp (head ∷ [])).0) (omega arith, small)
                (append_audio-IsWindow float d.audio all _ w) in
            (
              d',
              feed_from-step turn d d₁ iq iqs (push_group d x head tail e size small) ∙ e',
              group-IsFed d d' x head tail (mixed_all turn (d.mix_index + 1) iqs) all e size fed,
            )
      ]
    where
      not_open : (m n : ℕ) → ltb m n ≡ false → n ≤ m
      not_open m n h = ground arith

  -- A block of I/Q samples, of any length: no write is out of bounds, and the block as a whole does what is
  -- done sample by sample. The samples that waited and the mixed new ones are groups and a rest that is
  -- shorter than a group; the first of each group goes through the high pass and the low pass to the
  -- audio buffer, in their order, and the rest waits. The audio buffer is the end of everything that
  -- came to it, of at most 144,000 samples, and of more than 138,000 once something is gone. Nothing
  -- else of the object changes but the filters' state and the mixer's index. Asked for is a source rate of
  -- at most 8 groups, and that the object was as every call leaves it.
  pub feed_iq_lem :
      (d : Decoder F) (iqs : List (F × F)) (all : List F)
      → 1 ≤ d.source_sample_rate
      → IsReady d
      → IsWindow d.audio all
      → (d' : Decoder F) × (feed_iq float d iqs ≡ some d')
        × IsFed d d' (mixed_all (mix_omega float d) d.mix_index iqs) all
  unfolding feed_iq
  feed_iq_lem d iqs all h ready w =
      rw (no_rate d.source_sample_rate h) (feed_from-IsFed (mix_omega float d) d iqs all ready w)
    where
      no_rate : (n : ℕ) → 1 ≤ n → leb n 0 ≡ false
      no_rate n l = ground arith
