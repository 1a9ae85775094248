-- ===== src/EndpointRegistry/Index.antt =====
-- What an index of EndpointRegistry, custom_components/voip_stack/endpoint_registry.py, holds, given
-- the keys that an endpoint claims in it.
use esphome_intercom.Prelude.{
  if◌then◌else◌, Bool-cases, Option-cases, Text, eq_text, eq_text_refl, eq_text_sound, non_empty,
  mem_text, eq_text_sym, Dict, get, put, pop, unique_keys, get-put, get-pop, get-has, ◌≡◌, refl,
  sym, ◌∙◌, ◌⊎◌, inl, inr, Bool, true, ◌&&◌, Option, none, some, List, [], ◌∷◌, arith,
}
use esphome_intercom.PhoneEndpoint.{PhoneEndpoint}
use esphome_intercom.EndpointRegistry.State.{add_key, add_keys}

get-add_key :
    (t value owner : Text) (index : Dict Text)
    → get t (add_key value owner index)
      ≡ (if non_empty value && eq_text value t then some owner else get t index)
unfolding add_key
get-add_key t [] owner index = refl
get-add_key t (c ∷ value) owner index = get-put t (c ∷ value) owner index

-- A key that stands among the keys.
abbrev pub stands_in : Text → List Text → Bool
stands_in t values = non_empty t && mem_text t values

get-add_keys :
    (t : Text) (values : List Text) (owner : Text) (index : Dict Text)
    → get t (add_keys values owner index) ≡ (if stands_in t values then some owner else get t index)
unfolding add_keys mem_text
get-add_keys t [] owner index = ground arith
get-add_keys t (value ∷ rest) owner index = ground (
  arith,
  get-add_keys t rest owner (add_key value owner index),
  get-add_key t value owner index,
  eq_text_sym t value,
  eq_text_sound value t,
)

abbrev pub later_or {ℓ} : {A : Type ℓ} → Option A → Option A → Option A
later_or (some later) earlier = some later
later_or none earlier = earlier

module _ (claims : PhoneEndpoint → List Text) where
  abbrev pub claims_key : Text → PhoneEndpoint → Bool
  claims_key t e = stands_in t (claims e)

  unfoldable pub build : Dict PhoneEndpoint → Dict Text → Dict Text
  build [] index = index
  build ((k, e) ∷ m) index = build m (add_keys (claims e) k index)

  -- The last endpoint that claims the key.
  owner_of : Text → Dict PhoneEndpoint → Option Text
  owner_of t [] = none
  owner_of t ((k, e) ∷ m) = later_or (owner_of t m) (if claims_key t e then some k else none)

  get-build :
      (t : Text) (m : Dict PhoneEndpoint) (index : Dict Text)
      → get t (build m index) ≡ later_or (owner_of t m) (get t index)
  unfolding build owner_of
  get-build t [] index = refl
  get-build t ((k, e) ∷ m) index =
      ground (arith, get-build t m (add_keys (claims e) k index), get-add_keys t (claims e) k index)

  owner_of_sound :
      (t k : Text) (m : Dict PhoneEndpoint)
      → unique_keys m ≡ true
      → owner_of t m ≡ some k
      → (e : PhoneEndpoint) × (get k m ≡ some e) × (claims_key t e ≡ true)
  unfolding owner_of unique_keys get
  owner_of_sound t k [] u h = cc
  owner_of_sound t k ((j, d) ∷ m) u h = elim (Option-cases (owner_of t m)) [
    | inl last ↦ (d, ground (arith, eq_text_refl j), ground arith)
    | inr (i, later) ↦
        let (e, found, claimed) = owner_of_sound t k m (ground arith) (ground arith) in
        (e, ground (arith, get-has k m, eq_text_sound j k), claimed)
  ]

  owner_of_complete :
      (t k : Text) (e : PhoneEndpoint) (m : Dict PhoneEndpoint)
      → get k m ≡ some e
      → claims_key t e ≡ true
      → (j : Text) × (owner_of t m ≡ some j)
  unfolding owner_of get
  owner_of_complete t k e [] h c = cc
  owner_of_complete t k e ((j, d) ∷ m) h c = elim (Option-cases (owner_of t m)) [
    | inr (i, later) ↦ (i, ground arith)
    | inl last ↦ elim (Bool-cases (eq_text j k)) [
      | inl same ↦ (j, ground arith)
      | inr other ↦ let (i, owned) = owner_of_complete t k e m (ground arith) c in (i, ground arith)
    ]
  ]

  -- No two endpoints claim one key.
  abbrev pub Exclusive : Dict PhoneEndpoint → Type 0
  Exclusive m =
      (t j k : Text) (d e : PhoneEndpoint)
      → get j m ≡ some d
      → get k m ≡ some e
      → claims_key t d ≡ true
      → claims_key t e ≡ true
      → j ≡ k

  pub build_owner :
      (t k : Text) (m : Dict PhoneEndpoint)
      → unique_keys m ≡ true
      → get t (build m []) ≡ some k
      → (e : PhoneEndpoint) × (get k m ≡ some e) × (claims_key t e ≡ true)
  unfolding get
  build_owner t k m u h = owner_of_sound t k m u (ground (arith, get-build t m []))

  pub build_claimed :
      (t k : Text) (e : PhoneEndpoint) (m : Dict PhoneEndpoint)
      → unique_keys m ≡ true
      → Exclusive m
      → get k m ≡ some e
      → claims_key t e ≡ true
      → get t (build m []) ≡ some k
  unfolding get
  build_claimed t k e m u x h c =
      let (j, owned) = owner_of_complete t k e m h c in
      let (d, found, claimed) = owner_of_sound t j m u owned in
      ground (arith, get-build t m [], x t j k d e found h claimed c)

  -- The endpoint that a key is free for is the one that claims it already.
  free_owner :
      (t k j : Text) (d : PhoneEndpoint) (m : Dict PhoneEndpoint)
      → unique_keys m ≡ true
      → Exclusive m
      → (get t (build m []) ≡ none) ⊎ (get t (build m []) ≡ some k)
      → get j m ≡ some d
      → claims_key t d ≡ true
      → j ≡ k
  free_owner t k j d m u x free h c = ground (arith, build_claimed t j d m u x h c)

  pub put-Exclusive :
      (k : Text) (e : PhoneEndpoint) (m : Dict PhoneEndpoint)
      → unique_keys m ≡ true
      → Exclusive m
      → ((t : Text)
          → claims_key t e ≡ true
          → (get t (build m []) ≡ none) ⊎ (get t (build m []) ≡ some k))
      → Exclusive (put k e m)
  put-Exclusive k e m u x free t i j c d hi hj ci cj = elim (Bool-cases (eq_text k i)) [
    | inl at_i ↦ elim (Bool-cases (eq_text k j)) [
      | inl at_j ↦ sym (eq_text_sound k i at_i) ∙ eq_text_sound k j at_j
      | inr else_j ↦
          sym (eq_text_sound k i at_i)
          ∙ sym (
              free_owner t k j d m u x (free t (ground (arith, get-put i k e m)))
                (ground (arith, get-put j k e m)) cj)
    ]
    | inr else_i ↦ elim (Bool-cases (eq_text k j)) [
      | inl at_j ↦
          free_owner t k i c m u x (free t (ground (arith, get-put j k e m)))
            (ground (arith, get-put i k e m)) ci
          ∙ eq_text_sound k j at_j
      | inr else_j ↦
          x t i j c d (ground (arith, get-put i k e m)) (ground (arith, get-put j k e m)) ci cj
    ]
  ]

  pub pop-Exclusive : (k : Text) (m : Dict PhoneEndpoint) → Exclusive m → Exclusive (pop k m)
  pop-Exclusive k m x t i j c d hi hj =
      x t i j c d (ground (arith, get-pop i k m)) (ground (arith, get-pop j k m))
