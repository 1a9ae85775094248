-- ===== src/EndpointRegistry/Passed.antt =====
-- What a candidate that `validate` of EndpointRegistry passes has to do with the indexes, in
-- custom_components/voip_stack/endpoint_registry.py.
use esphome_intercom.Prelude.{
  Bool-cases, Option-cases, Text, codes, eq_text, eq_text_sound, mem_text, Dict, get, return,
  and_then_return, ◌≡◌, refl, ap, ◌⊎◌, inl, inr, true, Option, none, some, List, [], ◌∷◌, map,
  arith,
}
use esphome_intercom.PhoneEndpoint.{
  Unicode, PhoneEndpoint, key, normalize_roster_key, aliases_among, route_aliases,
}
use esphome_intercom.EndpointRegistry.State.{Registry}
use esphome_intercom.EndpointRegistry.Validation.{
  check_owner, check_key, validate_index_value, validate_entities, validate_route, check_identity,
  validate,
}
use esphome_intercom.EndpointRegistry.Index.{stands_in}

-- The keys that an endpoint claims in the indexes of the devices, the entities and the routes.
abbrev pub device_claims : Unicode → PhoneEndpoint → List Text
device_claims u e = key u e.device_id ∷ []

abbrev pub entity_claims : Unicode → PhoneEndpoint → List Text
entity_claims u e = map (key u) e.entity_ids

abbrev pub route_claims : Unicode → PhoneEndpoint → List Text
route_claims u e = map (normalize_roster_key u) (route_aliases u e)

-- The keys that `validate` looks up in the index of the routes.
abbrev pub roster_keys : Unicode → PhoneEndpoint → List Text
roster_keys u e = map (normalize_roster_key u) (e.name ∷ e.extension ∷ e.username ∷ [])

-- The keys are free in the index but for one owner.
abbrev pub IsFree : List Text → Dict Text → Text → Type 0
IsFree claims index owner =
    (t : Text) → stands_in t claims ≡ true → (get t index ≡ none) ⊎ (get t index ≡ some owner)

check_owner_passed :
    (r : Registry) (e : PhoneEndpoint) (field value replacing : Text) (found : Option Text)
    → check_owner r e field value replacing found ≡ return tt
    → (found ≡ none) ⊎ (found ≡ some replacing)
unfolding check_owner
check_owner_passed r e field value replacing none h = inl refl
check_owner_passed r e field value replacing (some owner) h =
    elim (Bool-cases (eq_text owner replacing)) [
      | inl same ↦ inr (ap some (eq_text_sound owner replacing same))
      | inr other ↦ elim (Option-cases (get owner r.endpoints)) [
        | inl lost ↦ ground arith
        | inr (d, found) ↦ ground arith
      ]
    ]

check_key_passed :
    (r : Registry) (e : PhoneEndpoint) (field value t : Text) (index : Dict Text) (replacing : Text)
    → check_key r e field value t index replacing ≡ return tt
    → IsFree (t ∷ []) index replacing
unfolding check_key mem_text
check_key_passed r e field value t index replacing h s c =
    rw (eq_text_sound s t (ground arith)) (
      check_owner_passed r e field value replacing (get t index)
        (ground (arith, eq_text_sound s t)))

module _ (u : Unicode) where
  validate_entities_passed :
      (r : Registry) (e : PhoneEndpoint) (replacing : Text) (ids : List Text)
      → validate_entities u r e replacing ids ≡ return tt
      → IsFree (map (key u) ids) r.entity_index replacing
  unfolding validate_entities mem_text
  validate_entities_passed r e replacing [] h t c = ground arith
  validate_entities_passed r e replacing (id ∷ rest) h t c =
      let (_, first, later) =
        and_then_return (validate_index_value u r e (codes "entity_id") id r.entity_index replacing)
          (λ _. validate_entities u r e replacing rest) h in
      elim (Bool-cases (eq_text t (key u id))) [
        | inl same ↦
            check_key_passed r e (codes "entity_id") id (key u id) r.entity_index replacing first t
              (ground arith)
        | inr other ↦ validate_entities_passed r e replacing rest later t (ground arith)
      ]

  mem_text-aliases_among :
      (f : Text → Text) (t : Text) (seen values : List Text)
      → mem_text t (map f (aliases_among u seen values)) ≡ true
      → mem_text t (map f values) ≡ true
  unfolding aliases_among mem_text
  mem_text-aliases_among f t seen [] h = h
  mem_text-aliases_among f t seen (value ∷ rest) h = ground (
    arith,
    mem_text-aliases_among f t (u.casefold value ∷ seen) rest,
    mem_text-aliases_among f t seen rest,
  )

  routes_passed :
      (r : Registry) (e : PhoneEndpoint) (replacing : Text)
      → validate_route u r e replacing (codes "name") e.name ≡ return tt
      → validate_route u r e replacing (codes "extension") e.extension ≡ return tt
      → validate_route u r e replacing (codes "username") e.username ≡ return tt
      → IsFree (roster_keys u e) r.route_index replacing
  unfolding validate_route mem_text
  routes_passed r e replacing h j k t c =
      let roster_key = normalize_roster_key u in
      ground (
        arith,
        check_key_passed r e (codes "name") e.name (roster_key e.name) r.route_index replacing h t,
        check_key_passed r e (codes "extension") e.extension (roster_key e.extension) r.route_index
            replacing j t,
        check_key_passed r e (codes "username") e.username (roster_key e.username) r.route_index
            replacing k t,
      )

  -- The routes are among the keys that have been checked.
  route-IsFree :
      (r : Registry) (e : PhoneEndpoint) (replacing : Text)
      → IsFree (roster_keys u e) r.route_index replacing
      → IsFree (route_claims u e) r.route_index replacing
  unfolding route_aliases
  route-IsFree r e replacing free t c = free t (
      ground (
        arith,
        mem_text-aliases_among (normalize_roster_key u) t []
            (e.name ∷ e.extension ∷ e.username ∷ []),
      ))

  pub validate_keys :
      (r : Registry) (e : PhoneEndpoint) (replacing : Text)
      → validate u r e replacing ≡ return tt
      → IsFree (device_claims u e) r.device_index replacing
        × IsFree (entity_claims u e) r.entity_index replacing
        × IsFree (roster_keys u e) r.route_index replacing
  unfolding validate validate_index_value
  validate_keys r e replacing h =
      let (_, h1, k1) =
        and_then_return (check_identity u e replacing (get (key u e.endpoint_id) r.endpoints)) _
          h in
      let (_, h2, k2) =
        and_then_return
          (validate_index_value u r e (codes "device_id") e.device_id r.device_index replacing) _
          k1 in
      let (_, h3, k3) = and_then_return (validate_entities u r e replacing e.entity_ids) _ k2 in
      let (_, h4, k4) =
        and_then_return (validate_route u r e replacing (codes "name") e.name) _ k3 in
      let (_, h5, k5) =
        and_then_return (validate_route u r e replacing (codes "extension") e.extension) _ k4 in
      (
        check_key_passed r e (codes "device_id") e.device_id (key u e.device_id) r.device_index
            replacing h2,
        validate_entities_passed r e replacing e.entity_ids h3,
        routes_passed r e replacing h4 h5 k5,
      )

  pub validate_passed :
      (r : Registry) (e : PhoneEndpoint) (replacing : Text)
      → validate u r e replacing ≡ return tt
      → IsFree (device_claims u e) r.device_index replacing
        × IsFree (entity_claims u e) r.entity_index replacing
        × IsFree (route_claims u e) r.route_index replacing
  validate_passed r e replacing h =
      let (ds, es, rs) = validate_keys r e replacing h in (ds, es, route-IsFree r e replacing rs)
