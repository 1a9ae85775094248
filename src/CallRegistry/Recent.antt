-- ===== src/CallRegistry/Recent.antt =====
-- What the bounded dictionaries of custom_components/voip_stack/call_registry.py still hold.
use mathlib.Core.List.{append_assoc}
use esphome_intercom.Prelude.{
  ltb, Bool-cases, length, length-append, Text, eq_text, eq_text_refl, eq_text_sound, Dict, get,
  pop, has, ℕ, suc, ◌≤◌, ◌<◌, ◌≡◌, refl, sym, ap, ◌∙◌, subst, inl, inr, Bool, true, false, ◌||◌, [],
  ◌∷◌, ◌++◌, arith,
}
use esphome_intercom.CallRegistry.{CallRegistry, or_else, resolve_session_id, remember, evict}

module _ {ℓ} {V : Type ℓ} where
  -- The key stands there with fewer than so many entries behind it.
  abbrev pub Within : ℕ → Text → Dict V → Type ℓ
  Within n k d =
      (older : Dict V) × (v : V) × (newer : Dict V) × (d ≡ older ++ (k, v) ∷ newer)
      × (length newer < n)

  has_split : (k : Text) (v : V) (older newer : Dict V) → has k (older ++ (k, v) ∷ newer) ≡ true
  unfolding has
  has_split k v [] newer = ground (arith, eq_text_refl k)
  has_split k v ((j, w) ∷ older) newer = ground (arith, has_split k v older newer)

  pub has-Within : (n : ℕ) (k : Text) (d : Dict V) → Within n k d → has k d ≡ true
  has-Within n k d (older, v, newer, split, near) = ap (has k) split ∙ has_split k v older newer

  pop-append : (k : Text) (c d : Dict V) → pop k (c ++ d) ≡ pop k c ++ pop k d
  unfolding pop
  pop-append k [] d = refl
  pop-append k ((j, v) ∷ c) d = ground (arith, pop-append k c d)

  length-pop : (k : Text) (d : Dict V) → length (pop k d) ≤ length d
  unfolding pop
  length-pop k [] = omega arith
  length-pop k ((j, v) ∷ d) = ground (arith, length-pop k d)

  pub remember-Within : (k : Text) (v : V) (d : Dict V) → Within 1 k (remember k v d)
  unfolding remember
  remember-Within k v d = (pop k d, v, [], refl, omega arith)

  pop_other :
      (k j : Text) (v : V) (d : Dict V)
      → eq_text k j ≡ false
      → pop j ((k, v) ∷ d) ≡ (k, v) ∷ pop j d
  unfolding pop
  pop_other k j v d other = ground arith

  remember_split :
      (k j : Text) (v w : V) (older newer : Dict V)
      → eq_text k j ≡ false
      → remember j v (older ++ (k, w) ∷ newer)
        ≡ pop j older ++ (k, w) ∷ (pop j newer ++ (j, v) ∷ [])
  unfolding remember
  remember_split k j v w older newer other =
      ap (λ d. d ++ (j, v) ∷ [])
        (pop-append j older ((k, w) ∷ newer)
          ∙ ap (λ d. pop j older ++ d) (pop_other k j w newer other))
      ∙ append_assoc (pop j older) ((k, w) ∷ pop j newer) ((j, v) ∷ [])

  pub remember-Within_later :
      (n : ℕ) (k j : Text) (v : V) (d : Dict V) → Within n k d → Within (suc n) k (remember j v d)
  remember-Within_later n k j v d (older, w, newer, split, near) = elim (Bool-cases (eq_text k j)) [
    | inl same ↦
        let (before, x, behind, now, close) = remember-Within j v d in
        (
          before,
          x,
          behind,
          now ∙ ap (λ i. before ++ (i, x) ∷ behind) (sym (eq_text_sound k j same)),
          omega arith,
        )
    | inr other ↦ (
      pop j older,
      w,
      pop j newer ++ (j, v) ∷ [],
      ap (remember j v) split ∙ remember_split k j v w older newer other,
      omega (arith, length-append (pop j newer) ((j, v) ∷ []), length-pop j newer),
    )
  ]

  pub pop-Within :
      (n : ℕ) (k j : Text) (d : Dict V) → eq_text k j ≡ false → Within n k d → Within n k (pop j d)
  pop-Within n k j d other (older, w, newer, split, near) = (
    pop j older,
    w,
    pop j newer,
    ap (pop j) split
        ∙ pop-append j older ((k, w) ∷ newer)
        ∙ ap (λ c. pop j older ++ c) (pop_other k j w newer other),
    omega (arith, near, length-pop j newer),
  )

  evict_split :
      (n m : ℕ) (k : Text) (v : V) (older newer : Dict V)
      → n ≤ m
      → length newer < n
      → Within n k (evict m (older ++ (k, v) ∷ newer))
  unfolding evict
  evict_split n m k v [] newer le near = ([], v, newer, ground arith, near)
  evict_split n m k v ((j, w) ∷ older) newer le near =
      elim (Bool-cases (ltb m (length ((j, w) ∷ (older ++ (k, v) ∷ newer))))) [
        | inl full ↦ rw full (evict_split n m k v older newer le near)
        | inr room ↦ rw room ((j, w) ∷ older, v, newer, refl, near)
      ]

  pub evict-Within :
      (n m : ℕ) (k : Text) (d : Dict V) → n ≤ m → Within n k d → Within n k (evict m d)
  evict-Within n m k d le (older, v, newer, split, near) =
      subst (λ c. Within n k (evict m c)) (sym split) (evict_split n m k v older newer le near)

  pub Within-le : (n m : ℕ) (k : Text) (d : Dict V) → n ≤ m → Within n k d → Within m k d
  Within-le n m k d le (older, v, newer, split, near) = (older, v, newer, split, omega arith)

pub resolve_leg_index :
    (id : Text) (r s : CallRegistry)
    → s.leg_index ≡ r.leg_index
    → resolve_session_id id s ≡ resolve_session_id id r
unfolding resolve_session_id
resolve_leg_index id r s same = ap (λ legs. or_else (get id legs) id) same

pub or_true : (a b : Bool) → b ≡ true → (a || b) ≡ true
or_true a b h = ground arith

pub or_false : (a b : Bool) → (a || b) ≡ false → (a ≡ false) × (b ≡ false)
or_false a b h = ground (arith, h)
