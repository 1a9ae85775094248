-- ===== src/EndpointRegistry/Recalled.antt =====
-- What the calls that claim and release a phone do to the registry, in
-- custom_components/voip_stack/endpoint_registry.py.
use esphome_intercom.Prelude.{
  if◌then◌else◌, Bool-cases, Text, eq_text, eq_text_sound, get, get-put, return, ◌≡◌, refl, ap, ◌∙◌,
  subst, inl, inr, Bool, true, false, Option, none, some, arith,
}
use esphome_intercom.PhoneEndpoint.{Unicode, PhoneEndpoint, key}
use esphome_intercom.EndpointRegistry.State.{updated, Registry}
use esphome_intercom.EndpointRegistry.Operations.{found_or_raise, require}
use esphome_intercom.EndpointRegistry.Calls.{replace_runtime}
use esphome_intercom.EndpointRegistry.Index.{build_claimed}
use esphome_intercom.EndpointRegistry.Passed.{device_claims, entity_claims, route_claims}
use esphome_intercom.EndpointRegistry.Indexed.{IsIndexed, store_endpoints, store-IsIndexed}
use esphome_intercom.EndpointRegistry.Stored.{IsWelcome}

module _ (u : Unicode) where
  -- The registry is left, or one endpoint that the test allows has its call replaced.
  pub data Recalls (allows : PhoneEndpoint → Bool) (r : Registry) : Registry → Type 0 where
    keeps : Recalls allows r r
    recalls :
        (e : PhoneEndpoint) (call : Text)
        → get (key u e.endpoint_id) r.endpoints ≡ some e
        → allows e ≡ true
        → Recalls allows r (replace_runtime u r e call).1

  found-IsWelcome :
      (r : Registry) (e : PhoneEndpoint)
      → IsIndexed u r
      → get (key u e.endpoint_id) r.endpoints ≡ some e
      → IsWelcome u r e
  found-IsWelcome r e i found =
      let k = key u e.endpoint_id in
      let o = i.roster in
      record {
        solid = (o.keyed k e found).1;
        devices = λ t c. inr (
            ap (get t) i.device_built
            ∙ build_claimed (device_claims u) t k e r.endpoints o.unique o.devices found c);
        entities = λ t c. inr (
            ap (get t) i.entity_built
            ∙ build_claimed (entity_claims u) t k e r.endpoints o.unique o.entities found c);
        routes = λ t c. inr (
            ap (get t) i.route_built
            ∙ build_claimed (route_claims u) t k e r.endpoints o.unique o.routes found c);
      }

  pub Recalls-IsIndexed :
      {allows : PhoneEndpoint → Bool} {r s : Registry}
      → Recalls allows r s
      → IsIndexed u r
      → IsIndexed u s
  unfolding replace_runtime
  Recalls-IsIndexed keeps i = i
  Recalls-IsIndexed (recalls e call found allowed) i =
      let w = found-IsWelcome _ e i found in
      store-IsIndexed u (key u e.endpoint_id) (record e { active_call_id = call }) _ _ i refl
        w.solid w.devices w.entities w.routes

  pub Recalls-get :
      {allows : PhoneEndpoint → Bool} {r s : Registry} (k : Text) (d : PhoneEndpoint)
      → Recalls allows r s
      → get k r.endpoints ≡ some d
      → allows d ≡ false
      → get k s.endpoints ≡ some d
  unfolding replace_runtime
  Recalls-get k d keeps found barred = found
  Recalls-get {r} k d (recalls e call there allowed) found barred =
      ap (get k) (
        store_endpoints u (key u e.endpoint_id) (record e { active_call_id = call })
          (record {
            event_type = updated;
            endpoint = record e { active_call_id = call };
            previous = some e;
          })
          r)
      ∙ ground (
        arith,
        get-put k (key u e.endpoint_id) (record e { active_call_id = call }) r.endpoints,
        eq_text_sound (key u e.endpoint_id) k,
      )

  -- An endpoint that is there stays there.
  pub Recalls-present :
      {allows : PhoneEndpoint → Bool} {r s : Registry} (k : Text) (d : PhoneEndpoint)
      → Recalls allows r s
      → get k r.endpoints ≡ some d
      → (e : PhoneEndpoint) × (get k s.endpoints ≡ some e)
  unfolding replace_runtime
  Recalls-present k d keeps found = (d, found)
  Recalls-present {r} k d (recalls e call there allowed) found =
      let renewed : PhoneEndpoint = record e { active_call_id = call } in
      let now =
        ap (get k) (
          store_endpoints u (key u e.endpoint_id) renewed
            (record { event_type = updated; endpoint = renewed; previous = some e }) r)
        ∙ get-put k (key u e.endpoint_id) renewed r.endpoints in
      elim (Bool-cases (eq_text (key u e.endpoint_id) k)) [
        | inl here ↦ (renewed, now ∙ ap (λ b. if b then some renewed else get k r.endpoints) here)
        | inr other ↦
            (d, now ∙ ap (λ b. if b then some renewed else get k r.endpoints) other ∙ found)
      ]

  found_or_raise_return :
      (id : Text) (o : Option PhoneEndpoint) (e : PhoneEndpoint)
      → found_or_raise id o ≡ return e
      → o ≡ some e
  unfolding found_or_raise
  found_or_raise_return id none e h = cc
  found_or_raise_return id (some d) e h = cc

  -- An endpoint that is found stands under its own key.
  pub require_found :
      (r : Registry) (id : Text) (e : PhoneEndpoint)
      → IsIndexed u r
      → require u r id ≡ return e
      → (get (key u e.endpoint_id) r.endpoints ≡ some e) × (key u id ≡ key u e.endpoint_id)
  unfolding require
  require_found r id e i h =
      let found : get (key u id) r.endpoints ≡ some e = found_or_raise_return id _ e h in
      let own = (i.roster.keyed (key u id) e found).0 in
      (subst (λ k. get k r.endpoints ≡ some e) own found, own)
