-- ===== src/EndpointRegistry/Registration.antt =====
-- `register` of EndpointRegistry, custom_components/voip_stack/endpoint_registry.py, against a search
-- through all endpoints.
use esphome_intercom.EndpointRegistry.Operations.{Call, get_endpoint, register_new, register}
use esphome_intercom.EndpointRegistry.Runs.{Op, run}
use esphome_intercom.EndpointRegistry.Invariant.{run-IsIndexed}
use esphome_intercom.EndpointRegistry.State.{registered, Event, Registry, empty_registry, store}
use esphome_intercom.Prelude.{
  if◌then◌else◌, Bool-cases, Option-cases, any, Text, codes, eq_text_refl, eq_text_sound, mem_text,
  Dict, get, unique_keys, get-put, get-has, return, ◌≡◌, refl, ap, ◌∙◌, subst, ◌⊎◌, inl, inr, Bool,
  true, false, none, some, List, [], ◌∷◌, arith,
}
use esphome_intercom.PhoneEndpoint.{Unicode, PhoneEndpoint, key}
use esphome_intercom.EndpointRegistry.Validation.{validate}
use esphome_intercom.EndpointRegistry.Index.{stands_in, build, Exclusive, build_claimed}
use esphome_intercom.EndpointRegistry.Passed.{
  device_claims, entity_claims, route_claims, roster_keys, IsFree, validate_keys,
}
use esphome_intercom.EndpointRegistry.Indexed.{IsIndexed, store_endpoints}
use esphome_intercom.EndpointRegistry.Rejected.{
  shared, rivals, Collides, owner_not_none, validate-Reports,
}

module _ (test : PhoneEndpoint → Bool) where
  -- Some endpoint passes the test.
  abbrev pub some_endpoint : Dict PhoneEndpoint → Bool
  some_endpoint m = any (λ entry. test entry.1) m

  found-some_endpoint :
      (k : Text) (d : PhoneEndpoint) (m : Dict PhoneEndpoint)
      → get k m ≡ some d
      → test d ≡ true
      → some_endpoint m ≡ true
  unfolding get
  found-some_endpoint k d [] found passed = cc
  found-some_endpoint k d ((j, c) ∷ m) found passed = ground (arith, found-some_endpoint k d m)

  no_endpoint :
      (m : Dict PhoneEndpoint)
      → unique_keys m ≡ true
      → ((k : Text) (d : PhoneEndpoint) → get k m ≡ some d → test d ≡ false)
      → some_endpoint m ≡ false
  unfolding get unique_keys
  no_endpoint [] once fails = refl
  no_endpoint ((j, c) ∷ m) once fails =
      let first : test c ≡ false = fails j c (ground (arith, eq_text_refl j)) in
      let later : some_endpoint m ≡ false =
        no_endpoint m (ground arith)
          (λ k d found. fails k d (ground (arith, get-has k m, eq_text_sound j k))) in
      ground arith

module _ (u : Unicode) (r : Registry) (i : IsIndexed u r) where
  claimed_not_free :
      (claims : PhoneEndpoint → List Text) (k t : Text) (d : PhoneEndpoint) (index : Dict Text)
      → index ≡ build claims r.endpoints []
      → Exclusive claims r.endpoints
      → get k r.endpoints ≡ some d
      → (get t index ≡ none) ⊎ (get t index ≡ some (key u []))
      → stands_in t (claims d) ≡ false
  claimed_not_free claims k t d index built x found free =
      elim (Bool-cases (stands_in t (claims d))) [
        | inr other ↦ other
        | inl claimed ↦
            let owned : get t index ≡ some k =
              ap (get t) built
              ∙ build_claimed claims t k d r.endpoints i.roster.unique x found claimed in
            ground (arith, owner_not_none u r i d k d found, eq_text_refl k)
      ]

  -- No free key is one that a registered endpoint claims.
  free_unshared :
      (claims : PhoneEndpoint → List Text) (k : Text) (d : PhoneEndpoint) (index : Dict Text)
      (keys : List Text)
      → index ≡ build claims r.endpoints []
      → Exclusive claims r.endpoints
      → get k r.endpoints ≡ some d
      → IsFree keys index (key u [])
      → shared (claims d) keys ≡ false
  unfolding mem_text
  free_unshared claims k d index [] built x found free = refl
  free_unshared claims k d index (t ∷ rest) built x found free =
      let later =
        free_unshared claims k d index rest built x found (λ t' c. free t' (ground arith)) in
      ground (arith, claimed_not_free claims k t d index built x found, free t, eq_text_refl t)

  unshared :
      (k : Text) (d e : PhoneEndpoint)
      → get k r.endpoints ≡ some d
      → get (key u e.endpoint_id) r.endpoints ≡ none
      → validate u r e (key u []) ≡ return tt
      → rivals u d e ≡ false
  unshared k d e found unknown passed =
      let (ds, es, rs) = validate_keys u r e (key u []) passed in
      let o = i.roster in
      let no_device =
        free_unshared (device_claims u) k d r.device_index (device_claims u e) i.device_built
          o.devices found ds in
      let no_entity =
        free_unshared (entity_claims u) k d r.entity_index (entity_claims u e) i.entity_built
          o.entities found es in
      let no_route =
        free_unshared (route_claims u) k d r.route_index (roster_keys u e) i.route_built o.routes
          found rs in
      ground
        (arith, i.roster.keyed k d found, eq_text_sound (key u d.endpoint_id) (key u e.endpoint_id))

-- Some registered endpoint is a rival, which each is asked.
abbrev pub has_rival : Unicode → PhoneEndpoint → Registry → Bool
has_rival u e r = some_endpoint (λ d. rivals u d e) r.endpoints

-- The endpoint is in the registry that the call returns.
abbrev pub Registers : Unicode → PhoneEndpoint → Call PhoneEndpoint → Type 0
Registers u e call =
    (s : Registry) × (call ≡ return (e, s)) × (get_endpoint u s e.endpoint_id ≡ some e)

module _ (u : Unicode) (r : Registry) (i : IsIndexed u r) (e : PhoneEndpoint) where
  stored_endpoint :
      (event : Event)
      → get_endpoint u (store u (key u e.endpoint_id) e event r) e.endpoint_id ≡ some e
  unfolding get_endpoint
  stored_endpoint event =
      ap (get (key u e.endpoint_id)) (store_endpoints u (key u e.endpoint_id) e event r)
      ∙ get-put (key u e.endpoint_id) (key u e.endpoint_id) e r.endpoints
      ∙ ap (λ b. if b then some e else get (key u e.endpoint_id) r.endpoints)
          (eq_text_refl (key u e.endpoint_id))

  known_rival :
      (d : PhoneEndpoint)
      → get (key u e.endpoint_id) r.endpoints ≡ some d
      → (get (key u d.endpoint_id) r.endpoints ≡ some d) × (rivals u d e ≡ true)
  known_rival d found =
      let own = (i.roster.keyed (key u e.endpoint_id) d found).0 in
      (
        subst (λ k. get k r.endpoints ≡ some d) own found,
        rw own (ground (arith, eq_text_refl (key u d.endpoint_id))),
      )

  register_new_cases :
      get (key u e.endpoint_id) r.endpoints ≡ none
      → ((has_rival u e r ≡ false) × Registers u e (register_new u r e none))
        ⊎ ((has_rival u e r ≡ true) × Collides u r e (register_new u r e none))
  unfolding register_new
  register_new_cases unknown = elim (validate-Reports u r i e unknown) [
    | inl passed ↦
        let event : Event = record { event_type = registered; endpoint = e; previous = none } in
        rw passed (
          inl (
            no_endpoint (λ d. rivals u d e) r.endpoints i.roster.unique
                (λ k d found. unshared u r i k d e found unknown passed),
            (store u (key u e.endpoint_id) e event r, refl, stored_endpoint event),
          ))
    | inr (d, field, value, raised, found, rival) ↦ inr (
      found-some_endpoint (λ c. rivals u c e) (key u d.endpoint_id) d r.endpoints found rival,
      (d, field, value, rw raised refl, found, rival),
    )
  ]

  register_cases :
      ((has_rival u e r ≡ false) × Registers u e (register u r e))
      ⊎ ((has_rival u e r ≡ true) × Collides u r e (register u r e))
  unfolding register
  register_cases = elim (Option-cases (get (key u e.endpoint_id) r.endpoints)) [
    | inl unknown ↦ rw unknown (register_new_cases unknown)
    | inr (d, found) ↦
        let (there, rival) = known_rival d found in
        rw found (
          inr (
            found-some_endpoint (λ c. rivals u c e) (key u d.endpoint_id) d r.endpoints there rival,
            (d, codes "endpoint_id", e.endpoint_id, refl, there, rival),
          ))
  ]

-- After any sequence of registry calls, register stores a new endpoint and returns it exactly when
-- no registered endpoint has its identity, its device, one of its entities or one of its route
-- keys; otherwise it raises a collision that names such an endpoint.
pub register-has_rival :
    (u : Unicode) (ops : List Op) (e : PhoneEndpoint)
    → ((has_rival u e (run u ops empty_registry) ≡ false)
        × Registers u e (register u (run u ops empty_registry) e))
      ⊎ ((has_rival u e (run u ops empty_registry) ≡ true)
          × Collides u (run u ops empty_registry) e (register u (run u ops empty_registry) e))
register-has_rival u ops e = register_cases u (run u ops empty_registry) (run-IsIndexed u ops) e
