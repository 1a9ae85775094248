-- ===== src/EndpointRegistry/Found.antt =====
-- The device and entity lookups of EndpointRegistry, custom_components/voip_stack/endpoint_registry.py.
use esphome_intercom.Prelude.{
  Text, Dict, get, ◌≡◌, refl, sym, ap, ◌∙◌, subst, ◌↔◌, true, Option, none, some, List, [],
}
use esphome_intercom.PhoneEndpoint.{Unicode, PhoneEndpoint, key}
use esphome_intercom.EndpointRegistry.State.{Registry, empty_registry}
use esphome_intercom.EndpointRegistry.Operations.{get_endpoint}
use esphome_intercom.EndpointRegistry.Lookup.{owned_by, by_device_id, by_entity_id}
use esphome_intercom.EndpointRegistry.Runs.{Op, run}
use esphome_intercom.EndpointRegistry.Index.{
  stands_in, build, Exclusive, build_owner, build_claimed,
}
use esphome_intercom.EndpointRegistry.Passed.{device_claims, entity_claims}
use esphome_intercom.EndpointRegistry.Indexed.{IsRoster}
use esphome_intercom.EndpointRegistry.Invariant.{run-IsIndexed}

module _ (u : Unicode) where
  owned_by_inv :
      (r : Registry) (o : Option Text) (e : PhoneEndpoint)
      → owned_by r o ≡ some e
      → (k : Text) × (o ≡ some k) × (get k r.endpoints ≡ some e)
  unfolding owned_by
  owned_by_inv r none e h = cc
  owned_by_inv r (some k) e h = (k, refl, h)

  owned_by-some : (r : Registry) (k : Text) → owned_by r (some k) ≡ get k r.endpoints
  unfolding owned_by
  owned_by-some r k = refl

  owned_by_iff :
      (claims : PhoneEndpoint → List Text) (r : Registry) (index : Dict Text) (t : Text)
      (e : PhoneEndpoint)
      → IsRoster u r.endpoints
      → index ≡ build claims r.endpoints []
      → Exclusive claims r.endpoints
      → (owned_by r (get t index) ≡ some e)
        ↔ ((get (key u e.endpoint_id) r.endpoints ≡ some e) × (stands_in t (claims e) ≡ true))
  owned_by_iff claims r index t e i built x = (
    λ h.
        let (k, owned, found) = owned_by_inv r (get t index) e h in
        let (d, there, claimed) =
          build_owner claims t k r.endpoints i.unique (sym (ap (get t) built) ∙ owned) in
        let same : d ≡ e = cc in
        (
          subst (λ j. get j r.endpoints ≡ some e) (i.keyed k e found).0 found,
          sym (ap (λ c. stands_in t (claims c)) same) ∙ claimed,
        ),
    λ h.
        ap (owned_by r) (
          ap (get t) built
          ∙ build_claimed claims t (key u e.endpoint_id) e r.endpoints i.unique x h.0 h.1)
        ∙ owned_by-some r (key u e.endpoint_id)
        ∙ h.0,
  )

  -- After any sequence of registry calls, the lookup of a device finds an endpoint exactly when
  -- that endpoint is registered under its identity and the key of the device is its own and not
  -- empty.
  pub by_device_id_iff :
      (ops : List Op) (device : Text) (e : PhoneEndpoint)
      → (by_device_id u (run u ops empty_registry) device ≡ some e) ↔ (
          (get_endpoint u (run u ops empty_registry) e.endpoint_id ≡ some e)
          × (stands_in (key u device) (device_claims u e) ≡ true))
  unfolding by_device_id get_endpoint
  by_device_id_iff ops device e =
      let r = run u ops empty_registry in
      let i = run-IsIndexed u ops in
      owned_by_iff (device_claims u) r r.device_index (key u device) e i.roster i.device_built
        i.roster.devices

  -- After any sequence of registry calls, the lookup of an entity finds an endpoint exactly when
  -- that endpoint is registered under its identity and the key of the entity is one of its own and
  -- not empty.
  pub by_entity_id_iff :
      (ops : List Op) (entity : Text) (e : PhoneEndpoint)
      → (by_entity_id u (run u ops empty_registry) entity ≡ some e) ↔ (
          (get_endpoint u (run u ops empty_registry) e.endpoint_id ≡ some e)
          × (stands_in (key u entity) (entity_claims u e) ≡ true))
  unfolding by_entity_id get_endpoint
  by_entity_id_iff ops entity e =
      let r = run u ops empty_registry in
      let i = run-IsIndexed u ops in
      owned_by_iff (entity_claims u) r r.entity_index (key u entity) e i.roster i.entity_built
        i.roster.entities
