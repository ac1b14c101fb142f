-- ===== src/Ditdah/Window.antt =====
-- The audio buffer of cw-skimmer/src/ditdah_decoder.c: the end of everything that came to it.
use cw_skimmer.Prelude.{
  ℕ, ◌+◌, ◌≤◌, ◌<◌, ◌≡◌, refl, sym, ap, ◌∙◌, subst, ◌⊎◌, inl, inr, true, false, List, [], ◌∷◌, ◌++◌,
  append_assoc, arith, length, length-append, length-drop, take, drop, take-append-drop, leb,
  leb→le, Bool-cases,
}
use cw_skimmer.Libc.Floats.{Floats}
use cw_skimmer.Ditdah.Audio.{audio_cap, drop_oldest_half, append_audio}

-- The buffer is the end of everything that came, never too long; where something is gone, more than 138,000
-- samples (11.5 seconds) are still there.
pub record IsWindow {F : Type 0} (audio all : List F) : Type 0 where
  pub gone : List F
  pub end_of : all ≡ gone ++ audio
  pub kept : (gone ≡ []) ⊎ (138_000 < length audio)
  pub fits : length audio ≤ audio_cap

module _ {F : Type 0} (float : Floats F) where
  append_audio-room :
      (audio : List F) (x : F)
      → leb audio_cap (length audio) ≡ false
      → append_audio float audio x ≡ audio ++ x ∷ []
  unfolding append_audio drop_oldest_half
  append_audio-room audio x h = rw h (rw h refl)

  append_audio-full :
      (audio : List F) (x : F)
      → length audio ≡ audio_cap
      → append_audio float audio x ≡ drop 6_000 audio ++ x ∷ []
  unfolding append_audio drop_oldest_half
  append_audio-full audio x h =
      rw
        (
          at_cap (length audio) h,
          at_half (length audio) h,
          below_cap (length (drop 6_000 audio)) (omega (arith, length-drop 6_000 audio)),
        )
        refl
    where
      at_cap : (n : ℕ) → n ≡ audio_cap → leb audio_cap n ≡ true
      at_cap n e = ground arith

      at_half : (n : ℕ) → n ≡ audio_cap → leb n 6_000 ≡ false
      at_half n e = ground arith

      below_cap : (n : ℕ) → n < audio_cap → leb audio_cap n ≡ false
      below_cap n l = ground arith

  IsWindow-drop :
      (n : ℕ) (audio all : List F) (x : F)
      → IsWindow audio all
      → 138_000 + n ≤ length audio
      → 1 ≤ n
      → IsWindow (drop n audio ++ x ∷ []) (all ++ x ∷ [])
  IsWindow-drop n audio all x w h h' = record {
    gone = w.gone ++ take n audio;
    end_of =
        ap (λ s. s ++ x ∷ [])
          (w.end_of
            ∙ ap (◌++◌ w.gone) (sym (take-append-drop n audio))
            ∙ sym (append_assoc w.gone (take n audio) (drop n audio)))
        ∙ append_assoc (w.gone ++ take n audio) (drop n audio) (x ∷ []);
    kept = inr (omega (arith, length-append (drop n audio) (x ∷ []), length-drop n audio));
    fits = omega (arith, w.fits, length-append (drop n audio) (x ∷ []), length-drop n audio);
  }

  IsWindow-room :
      (audio all : List F) (x : F)
      → IsWindow audio all
      → length audio < audio_cap
      → IsWindow (audio ++ x ∷ []) (all ++ x ∷ [])
  IsWindow-room audio all x w h = record {
    gone = w.gone;
    end_of = ap (λ s. s ++ x ∷ []) w.end_of ∙ append_assoc w.gone audio (x ∷ []);
    kept = elim w.kept [
      | inl whole ↦ inl whole
      | inr many ↦ inr (omega (arith, length-append audio (x ∷ [])))
    ];
    fits = omega (arith, length-append audio (x ∷ []));
  }

  pub append_audio-IsWindow :
      (audio all : List F) (x : F)
      → IsWindow audio all
      → IsWindow (append_audio float audio x) (all ++ x ∷ [])
  append_audio-IsWindow audio all x w = elim (Bool-cases (leb audio_cap (length audio))) [
    | inl full ↦
        let long = leb→le audio_cap (length audio) full in
        subst (λ a. IsWindow a (all ++ x ∷ []))
          (sym (append_audio-full audio x (omega (arith, w.fits))))
          (IsWindow-drop 6_000 audio all x w (omega arith) (omega arith))
    | inr room ↦
        subst (λ a. IsWindow a (all ++ x ∷ [])) (sym (append_audio-room audio x room))
          (IsWindow-room audio all x w (short (length audio) room))
  ]
    where
      short : (n : ℕ) → leb audio_cap n ≡ false → n < audio_cap
      short n e = ground arith
