-- ===== src/EndpointRegistry/Rejected.antt =====
-- `register` of EndpointRegistry, custom_components/voip_stack/endpoint_registry.py, and the identities that
-- other endpoints have.
use esphome_intercom.EndpointRegistry.Validation.{
  check_owner, check_key, validate_index_value, validate_entities, validate_route, validate,
}
use esphome_intercom.Prelude.{
  Bool-cases, Option-cases, any, Text, codes, eq_text, eq_text_sound, non_empty, lstrip, strip,
  Dict, get, Outcome, raise, return, ◌and_then◌, ◌≡◌, refl, sym, ap, ◌∙◌, subst, ◌⊎◌, inl, inr,
  Bool, true, false, ◌||◌, none, some, List, [], ◌∷◌, map, arith,
}
use esphome_intercom.PhoneEndpoint.{Unicode, PhoneEndpoint, key, normalize_roster_key}
use esphome_intercom.EndpointRegistry.State.{Problem, collision, Registry}
use esphome_intercom.EndpointRegistry.Validation.{
  check_owner, check_key, validate_index_value, validate_entities, validate_route, validate,
}
use esphome_intercom.EndpointRegistry.Index.{stands_in, build, build_owner}
use esphome_intercom.EndpointRegistry.Passed.{
  device_claims, entity_claims, route_claims, roster_keys,
}
use esphome_intercom.EndpointRegistry.Indexed.{IsIndexed}

-- One of the second keys is among the first.
abbrev pub shared : List Text → List Text → Bool
shared claimed keys = any (λ t. stands_in t claimed) keys

module _ (u : Unicode) where
  -- The endpoints have an identity, a device, an entity or a route in common.
  abbrev pub rivals : PhoneEndpoint → PhoneEndpoint → Bool
  rivals d e =
      eq_text (key u d.endpoint_id) (key u e.endpoint_id)
      || shared (device_claims u d) (device_claims u e)
      || shared (entity_claims u d) (entity_claims u e)
      || shared (route_claims u d) (roster_keys u e)

  -- A collision with an endpoint that is registered and a rival.
  abbrev pub Collides : {A : Type 0} → Registry → PhoneEndpoint → Outcome Problem A → Type 0
  Collides r e call =
      (d : PhoneEndpoint) × (field : Text) × (value : Text) × (call
        ≡ raise (collision field value e.endpoint_id d.endpoint_id))
      × (get (key u d.endpoint_id) r.endpoints ≡ some d)
      × (rivals d e ≡ true)

  module _ (r : Registry) (i : IsIndexed u r) (e : PhoneEndpoint) where
    abbrev pub Reports : Outcome Problem (Unit {0}) → Type 0
    Reports call = (call ≡ return tt) ⊎ Collides r e call

    Reports-then :
        (call next : Outcome Problem (Unit {0}))
        → Reports call
        → Reports next
        → Reports (call and_then λ _. next)
    Reports-then call next (inl passed) then_next = rw passed then_next
    Reports-then call next (inr (d, field, value, raised, found, rival)) then_next =
        inr (d, field, value, ap (λ c. c and_then λ _. next) raised, found, rival)

    check_owner_raises :
        (field value replacing owner : Text) (d : PhoneEndpoint)
        → eq_text owner replacing ≡ false
        → get owner r.endpoints ≡ some d
        → check_owner r e field value replacing (some owner)
          ≡ raise (collision field value e.endpoint_id d.endpoint_id)
    unfolding check_owner
    check_owner_raises field value replacing owner d other found = rw (other, found) refl

    pub owner_not_none :
        (owner : Text) (d : PhoneEndpoint)
        → get owner r.endpoints ≡ some d
        → eq_text owner (key u []) ≡ false
    unfolding key strip lstrip
    owner_not_none owner d found =
        ground (arith, i.roster.keyed owner d found, u.casefold_empty, eq_text_sound owner [])

    check_key-Reports :
        (claims : PhoneEndpoint → List Text) (field value t : Text) (index : Dict Text)
        → index ≡ build claims r.endpoints []
        → ((d : PhoneEndpoint) → stands_in t (claims d) ≡ true → rivals d e ≡ true)
        → Reports (check_key r e field value t index (key u []))
    unfolding check_key
    check_key-Reports claims field value t index built rival = elim (Bool-cases (non_empty t)) [
      | inr blank ↦ rw blank (inl refl)
      | inl solid ↦ elim (Option-cases (get t index)) [
        | inl free ↦ rw (solid, free) (inl refl)
        | inr (owner, owned) ↦
            let (d, found, claimed) =
              build_owner claims t owner r.endpoints i.roster.unique
                (sym (ap (get t) built) ∙ owned) in
            rw (solid, owned)
              (inr (
                d,
                field,
                value,
                check_owner_raises field value (key u []) owner d (owner_not_none owner d found)
                    found,
                subst (λ k. get k r.endpoints ≡ some d) (i.roster.keyed owner d found).0 found,
                rival d claimed,
              ))
      ]
    ]

    entities_report :
        (ids : List Text)
        → ((d : PhoneEndpoint)
            → shared (entity_claims u d) (map (key u) ids) ≡ true
            → rivals d e ≡ true)
        → Reports (validate_entities u r e (key u []) ids)
    unfolding validate_entities
    entities_report [] rival = inl refl
    entities_report (id ∷ rest) rival =
        Reports-then (validate_index_value u r e (codes "entity_id") id r.entity_index (key u []))
          (validate_entities u r e (key u []) rest)
          (check_key-Reports (entity_claims u) (codes "entity_id") id (key u id) r.entity_index
            i.entity_built (λ d h. rival d (ground arith)))
          (entities_report rest (λ d h. rival d (ground arith)))

    route-Reports :
        (field value : Text)
        → ((d : PhoneEndpoint)
            → stands_in (normalize_roster_key u value) (route_claims u d) ≡ true
            → shared (route_claims u d) (roster_keys u e) ≡ true)
        → Reports (validate_route u r e (key u []) field value)
    unfolding validate_route
    route-Reports field value among =
        check_key-Reports (route_claims u) field value (normalize_roster_key u value) r.route_index
          i.route_built (λ d h. ground (arith, among d h))

    pub validate-Reports :
        get (key u e.endpoint_id) r.endpoints ≡ none → Reports (validate u r e (key u []))
    unfolding validate validate_index_value
    validate-Reports unknown = rw unknown (
        Reports-then _ _
          (check_key-Reports (device_claims u) (codes "device_id") e.device_id (key u e.device_id)
            r.device_index i.device_built (λ d h. ground arith))
          (Reports-then (validate_entities u r e (key u []) e.entity_ids) _
            (entities_report e.entity_ids (λ d h. ground arith))
            (Reports-then (validate_route u r e (key u []) (codes "name") e.name) _
              (route-Reports (codes "name") e.name (λ d h. ground arith))
              (Reports-then (validate_route u r e (key u []) (codes "extension") e.extension) _
                (route-Reports (codes "extension") e.extension (λ d h. ground arith))
                (route-Reports (codes "username") e.username (λ d h. ground arith))))))
