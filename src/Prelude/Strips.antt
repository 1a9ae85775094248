-- ===== src/Prelude/Strips.antt =====
-- Python's `str.strip`: what is stripped stays as it is.
use mathlib.Core.Path.{◌≡◌, refl, sym, ap, ◌∙◌}
use mathlib.Core.Bool.{Bool, true, not}
use mathlib.Core.List.{[], ◌∷◌, ◌++◌, reverse, reverse-append, reverse-reverse}
use native.Mathlib.Omega.{arith}
use Prim.Native.Nat.{ℕ}
use esphome_intercom.Prelude.Tests.{if◌then◌else◌, Bool-cases}
use esphome_intercom.Prelude.Texts.{Text, is_space, lstrip, strip}
use mathlib.Core.Logic.{inl, inr}

pub lstrip-cons : (c : ℕ) (s : Text) → lstrip (c ∷ s) ≡ (if is_space c then lstrip s else c ∷ s)
unfolding lstrip
lstrip-cons c s = refl

pub lstrip-nil : lstrip [] ≡ []
unfolding lstrip
lstrip-nil = refl

-- The text is empty or begins with a character that is no white space.
starts_solid : Text → Bool
starts_solid [] = true
starts_solid (c ∷ s) = not (is_space c)

starts_solid-lstrip : (s : Text) → starts_solid (lstrip s) ≡ true
unfolding starts_solid
starts_solid-lstrip [] = rw lstrip-nil refl
starts_solid-lstrip (c ∷ s) = rw (lstrip-cons c s) (ground (arith, starts_solid-lstrip s))

lstrip_solid : (s : Text) → starts_solid s ≡ true → lstrip s ≡ s
unfolding starts_solid
lstrip_solid [] h = lstrip-nil
lstrip_solid (c ∷ s) h = rw (lstrip-cons c s) (ground arith)

-- What is left is the end of the text.
lstrip_end : (s : Text) → (p : Text) × (s ≡ p ++ lstrip s)
lstrip_end [] = ([], sym lstrip-nil)
lstrip_end (c ∷ s) = elim (Bool-cases (is_space c)) [
  | inl blank ↦
      let (p, e) = lstrip_end s in
      (
        c ∷ p,
        ap (λ t. c ∷ t) e
            ∙ ap (λ t. c ∷ (p ++ t))
                (sym (lstrip-cons c s ∙ ap (λ b. if b then lstrip s else c ∷ s) blank)),
      )
  | inr solid ↦ ([], sym (lstrip-cons c s ∙ ap (λ b. if b then lstrip s else c ∷ s) solid))
]

starts_solid-append : (s t : Text) → starts_solid (s ++ t) ≡ true → starts_solid s ≡ true
unfolding starts_solid
starts_solid-append [] t h = refl
starts_solid-append (c ∷ s) t h = h

pub strip-strip : (s : Text) → strip (strip s) ≡ strip s
unfolding strip
strip-strip s =
    let x = lstrip s in
    let y = lstrip (reverse x) in
    let (p, e) = lstrip_end (reverse x) in
    let split : x ≡ reverse y ++ reverse p =
      sym (reverse-reverse x) ∙ ap reverse e ∙ reverse-append p y in
    let solid : starts_solid (reverse y) ≡ true =
      starts_solid-append (reverse y) (reverse p)
        (sym (ap starts_solid split) ∙ starts_solid-lstrip s) in
    ap (λ t. reverse (lstrip (reverse t))) (lstrip_solid (reverse y) solid)
    ∙ ap (λ t. reverse (lstrip t)) (reverse-reverse y)
    ∙ ap reverse (lstrip_solid y (starts_solid-lstrip (reverse x)))
