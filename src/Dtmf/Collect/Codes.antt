-- ===== src/Dtmf/Collect/Codes.antt =====
-- dtmf.py: `_match_dtmf` and the codes of a dial plan that extend what is dialled.
use mathlib.Core.Path.{subst}
use esphome_intercom.Prelude.{
  sym, ℕ, ◌≡◌, ◌≢◌, refl, inl, inr, ◌↔◌, true, false, ◌&&◌, some, [], ◌∷◌, ◌++◌, arith, Text,
  eq_text_sound, eq_text_refl, non_empty, starts_with, Bool-cases,
}
use esphome_intercom.Dtmf.Collect.{Routes, route?, ends_with, ambiguous, match_dtmf}

-- Some code is the buffer with more digits behind.
pub data Extends (buffer : Text) : Routes → Type 0 where
  here :
      {v : Text} {routes : Routes} (d : ℕ) (more : Text)
      → Extends buffer ((buffer ++ d ∷ more, v) ∷ routes)
  there : {k v : Text} {routes : Routes} → Extends buffer routes → Extends buffer ((k, v) ∷ routes)

starts_with-append : (s t : Text) → starts_with (s ++ t) s ≡ true
unfolding starts_with
starts_with-append [] [] = refl
starts_with-append [] (d ∷ t) = refl
starts_with-append (c ∷ s) t = ground (arith, starts_with-append s t)

append_ne : (s : Text) (d : ℕ) (t : Text) → s ++ d ∷ t ≢ s
append_ne [] d t e = cc
append_ne (c ∷ s) d t e = append_ne s d t (ground arith)

starts_with_cut :
    (k s : Text) → starts_with k s ≡ true → k ≢ s → (d : ℕ) × (more : Text) × (k ≡ s ++ d ∷ more)
unfolding starts_with
starts_with_cut [] [] h ne = absurd (ne refl)
starts_with_cut (c ∷ k) [] h ne = (c, k, refl)
starts_with_cut [] (d ∷ s) h ne = absurd (ground arith)
starts_with_cut (c ∷ k) (d ∷ s) h ne =
    let (e, more, q) = starts_with_cut k s (ground arith) (λ same. ne (ground arith)) in
    (e, more, ground arith)

ambiguous_sound :
    (routes : Routes) (buffer : Text) → Extends buffer routes → ambiguous routes buffer ≡ true
unfolding ambiguous
ambiguous_sound [] buffer e = elim e [ ]
ambiguous_sound ((k, v) ∷ routes) buffer (here d more) = ground (
  arith,
  starts_with-append buffer (d ∷ more),
  eq_text_sound (buffer ++ d ∷ more) buffer,
  append_ne buffer d more,
)
ambiguous_sound ((k, v) ∷ routes) buffer (there e) = ground (arith, ambiguous_sound routes buffer e)

ambiguous_complete :
    (routes : Routes) (buffer : Text) → ambiguous routes buffer ≡ true → Extends buffer routes
unfolding ambiguous
ambiguous_complete [] buffer h = absurd (ground arith)
ambiguous_complete ((k, v) ∷ routes) buffer h = elim (Bool-cases (ambiguous routes buffer)) [
  | inl e ↦ there (ambiguous_complete routes buffer e)
  | inr e ↦
      let starts : starts_with k buffer ≡ true = ground arith in
      let (d, more, q) = starts_with_cut k buffer starts (λ same. ground (arith, eq_text_refl k)) in
      subst (λ (k' : Text). Extends buffer ((k', v) ∷ routes)) (sym q) (here d more)
]

-- Without the terminator at its end, a buffer ends collection with a destination exactly when it is
-- the code of that destination and no longer code extends it.
pub match_dtmf_iff :
    (routes : Routes) (buffer terminator destination : Text)
    → (non_empty terminator && ends_with buffer terminator) ≡ false
    → (match_dtmf buffer routes terminator ≡ (destination, true))
      ↔ ((route? routes buffer ≡ some destination) × ¬ (Extends buffer routes))
unfolding match_dtmf
match_dtmf_iff routes buffer terminator destination open_ = (
  λ ends. (ground arith, λ longer. ground (arith, ambiguous_sound routes buffer longer)),
  λ known. elim (Bool-cases (ambiguous routes buffer)) [
    | inl e ↦ absurd (known.1 (ambiguous_complete routes buffer e))
    | inr e ↦ ground (arith, e, known.0)
  ],
)
