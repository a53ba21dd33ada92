-- ===== src/Regex/Labels.antt =====
-- Expressions for labels that are joined by a separator.
use vantric.Prelude.{
  ℕ, ◌≤◌, Bool, List, [], ◌∷◌, ◌++◌, ◌≡◌, refl, ◌↔◌, arith, ◌==◌, length, All, All-imp,
}
use vantric.Prelude.Text.{Text, split}
use vantric.Prelude.Text.Split.{Lacks, behind, split-behind, behind-split}
use vantric.Regex.{Regex, cls, seq, star, plus}
use vantric.Regex.Lang.{Lang, Star, stop, step}

module _ (c : ℕ) (one : Regex) (no_sep : (s : Text) → Lang one s → Lacks c s) where
  abbrev sep : ℕ → Bool
  sep d = d == c

  behind_sound :
      {s : Text}
      → Star (Lang (seq (cls sep) one)) s
      → (ps : List Text) × (s ≡ behind c ps) × All (Lang one) ps
  behind_sound (stop e) = ([], e, tt)
  behind_sound (step u v e (x, p, eu, (d, ex, hd), hp) more) =
      let (ps, ev, hps) = behind_sound more in
      let same_unit : d ≡ c = ground arith in
      (p ∷ ps, rw (e, eu, ex, ev, same_unit) refl, (hp, hps))

  behind_complete :
      (ps : List Text) → All (Lang one) ps → Star (Lang (seq (cls sep) one)) (behind c ps)
  behind_complete [] h = stop refl
  behind_complete (p ∷ ps) (hp, hps) =
      step (c ∷ p) (behind c ps) refl (c ∷ [], p, refl, (c, refl, ground arith), hp)
        (behind_complete ps hps)

  -- Labels joined by separators: every part of the text is a label.
  pub labels_iff :
      (s : Text) → Lang (seq one (star (seq (cls sep) one))) s ↔ All (Lang one) (split c s)
  labels_iff s = (sound, complete)
    where
      sound : Lang (seq one (star (seq (cls sep) one))) s → All (Lang one) (split c s)
      sound (u, v, e, hu, hv) =
          let (ps, ev, hps) = behind_sound hv in
          rw (e, ev, split-behind c u ps (no_sep u hu) (All-imp ps no_sep hps)) (hu, hps)

      complete : All (Lang one) (split c s) → Lang (seq one (star (seq (cls sep) one))) s
      complete h =
          let (p, ps, cut, spell) = behind-split c s in
          let (hp, hps) = rw cut at h in (p, behind c ps, spell, hp, behind_complete ps hps)

  two_labels_sound :
      (s : Text)
      → Lang (seq one (plus (seq (cls sep) one))) s
      → (2 ≤ length (split c s)) × All (Lang one) (split c s)
  two_labels_sound s (u, v, e, hu, (w, x, ew, (y, p, ey, (d, ed, hd), hp), hx)) =
      let (ps, ex, hps) = behind_sound hx in
      let same_unit : d ≡ c = ground arith in
      let whole : s ≡ u ++ behind c (p ∷ ps) = rw (e, ew, ey, ed, ex, same_unit) refl in
      let parts = split-behind c u (p ∷ ps) (no_sep u hu) (no_sep p hp, All-imp ps no_sep hps) in
      rw (whole, parts) (omega arith, (hu, (hp, hps)))

  two_labels_complete :
      (s p : Text) (ps : List Text)
      → s ≡ p ++ behind c ps
      → 2 ≤ length (p ∷ ps)
      → All (Lang one) (p ∷ ps)
      → Lang (seq one (plus (seq (cls sep) one))) s
  two_labels_complete s p [] spell two h = absurd (omega arith)
  two_labels_complete s p (q ∷ ps) spell two (hp, (hq, hps)) = (
    p,
    behind c (q ∷ ps),
    spell,
    hp,
    (
      c ∷ q,
      behind c ps,
      refl,
      (c ∷ [], q, refl, (c, refl, ground arith), hq),
      behind_complete ps hps,
    ),
  )

  -- The same with one separator at least: there are two labels at least.
  pub two_labels_iff :
      (s : Text)
      → Lang (seq one (plus (seq (cls sep) one))) s
        ↔ ((2 ≤ length (split c s)) × All (Lang one) (split c s))
  two_labels_iff s =
      let (p, ps, cut, spell) = behind-split c s in
      (two_labels_sound s, λ h. two_labels_complete s p ps spell (rw cut at h.0) (rw cut at h.1))
