-- ===== src/Prelude/Dicts.antt =====
-- Python's `dict` with text keys: an association list in the order of insertion.
use mathlib.Core.Path.{◌≡◌, refl}
use mathlib.Core.Bool.{Bool, true, false, not, ◌&&◌, ◌||◌}
use mathlib.Core.Option.{Option, none, some}
use mathlib.Core.List.{List, [], ◌∷◌}
use native.Mathlib.Omega.{arith}
use esphome_intercom.Prelude.Tests.{if◌then◌else◌}
use esphome_intercom.Prelude.Texts.{Text, eq_text, eq_text_sound, eq_text_refl, eq_text_sym}

abbrev pub Dict {ℓ} : Type ℓ → Type ℓ
Dict V = List (Text × V)

module _ {ℓ} {V : Type ℓ} where
  -- d.get(k)
  unfoldable pub get : Text → Dict V → Option V
  get k [] = none
  get k ((j, v) ∷ d) = if eq_text j k then some v else get k d

  -- d[k] = v, in place for a key that is there
  unfoldable pub put : Text → V → Dict V → Dict V
  put k v [] = (k, v) ∷ []
  put k v ((j, w) ∷ d) = let later = put k v d in if eq_text j k then (j, v) ∷ d else (j, w) ∷ later

  -- d.pop(k, None)
  unfoldable pub pop : Text → Dict V → Dict V
  pop k [] = []
  pop k ((j, w) ∷ d) = let later = pop k d in if eq_text j k then later else (j, w) ∷ later

  -- k in d
  unfoldable pub has : Text → Dict V → Bool
  has k [] = false
  has k ((j, v) ∷ d) = eq_text j k || has k d

  unfoldable pub unique_keys : Dict V → Bool
  unique_keys [] = true
  unique_keys ((k, v) ∷ d) = not (has k d) && unique_keys d

  pub get-put :
      (j k : Text) (v : V) (d : Dict V)
      → get j (put k v d) ≡ (if eq_text k j then some v else get j d)
  unfolding get put
  get-put j k v [] = refl
  get-put j k v ((i, w) ∷ d) = ground (
    arith,
    get-put j k v d,
    eq_text_sound i k,
    eq_text_sound k j,
    eq_text_sound i j,
    eq_text_refl j,
    eq_text_refl k,
    eq_text_refl i,
  )

  pub get-pop :
      (j k : Text) (d : Dict V) → get j (pop k d) ≡ (if eq_text k j then none else get j d)
  unfolding get pop
  get-pop j k [] = ground arith
  get-pop j k ((i, w) ∷ d) = ground (
    arith,
    get-pop j k d,
    eq_text_sound i k,
    eq_text_sound k j,
    eq_text_sound i j,
    eq_text_refl j,
    eq_text_refl k,
    eq_text_refl i,
  )

  pub get-has : (k : Text) (d : Dict V) → has k d ≡ false → get k d ≡ none
  unfolding get has
  get-has k [] h = refl
  get-has k ((j, v) ∷ d) h = ground (arith, get-has k d)

  has-put : (j k : Text) (v : V) (d : Dict V) → has j (put k v d) ≡ (eq_text k j || has j d)
  unfolding has put
  has-put j k v [] = ground arith
  has-put j k v ((i, w) ∷ d) = ground (
    arith,
    has-put j k v d,
    eq_text_sound i k,
    eq_text_sound k j,
    eq_text_sound i j,
    eq_text_refl j,
    eq_text_refl k,
    eq_text_refl i,
  )

  has-pop : (j k : Text) (d : Dict V) → has j d ≡ false → has j (pop k d) ≡ false
  unfolding has pop
  has-pop j k [] h = refl
  has-pop j k ((i, w) ∷ d) h = ground (arith, has-pop j k d)

  pub unique_keys-put :
      (k : Text) (v : V) (d : Dict V) → unique_keys d ≡ true → unique_keys (put k v d) ≡ true
  unfolding unique_keys put has
  unique_keys-put k v [] u = refl
  unique_keys-put k v ((j, w) ∷ d) u =
      ground (arith, unique_keys-put k v d, has-put j k v d, eq_text_sym j k)

  pub unique_keys-pop :
      (k : Text) (d : Dict V) → unique_keys d ≡ true → unique_keys (pop k d) ≡ true
  unfolding unique_keys pop
  unique_keys-pop k [] u = refl
  unique_keys-pop k ((j, w) ∷ d) u = ground (arith, unique_keys-pop k d, has-pop j k d)

  pub has-pop_self : (k : Text) (d : Dict V) → has k (pop k d) ≡ false
  unfolding has pop
  has-pop_self k [] = refl
  has-pop_self k ((j, w) ∷ d) = ground (arith, has-pop_self k d)
