-- ===== src/EndpointRegistry/Stored.antt =====
-- What `register`, `upsert` and `update` of EndpointRegistry do to the registry, in
-- custom_components/voip_stack/endpoint_registry.py.
use esphome_intercom.Prelude.{
  if◌then◌else◌, Option-cases, Text, eq_text, eq_text_sound, non_empty, lstrip, strip, Dict, get,
  raise, return, ◌and_then◌, Outcome-cases, ◌≡◌, refl, sym, ap, subst, ◌≢◌, inl, inr, Bool, true,
  false, not, ◌&&◌, none, some, List, [], arith,
}
use esphome_intercom.PhoneEndpoint.{Unicode, PhoneEndpoint, key}
use esphome_intercom.EndpointRegistry.State.{Event, Registry, store}
use esphome_intercom.EndpointRegistry.Validation.{validate}
use esphome_intercom.EndpointRegistry.Operations.{
  Call, is_engaged, same_endpoint, register, replace_endpoint, upsert_over, upsert,
}
use esphome_intercom.EndpointRegistry.Index.{build, build_owner}
use esphome_intercom.EndpointRegistry.Passed.{
  device_claims, entity_claims, route_claims, IsFree, validate_passed,
}
use esphome_intercom.EndpointRegistry.Indexed.{IsRoster, IsIndexed, store-IsIndexed}

-- The registry after a call; a call that raises leaves it.
abbrev pub after : {A : Type 0} → Registry → Call A → Registry
after r (raise problem) = r
after r (return (a, s)) = s

-- What holds after both branches holds after the test.
pub if_after :
    {A : Type 0} (P : Registry → Type 0) (r : Registry) (test : Bool) (x y : Call A)
    → (test ≡ true → P (after r x))
    → (test ≡ false → P (after r y))
    → P (after r (if test then x else y))
if_after P r true x y on off = on refl
if_after P r false x y on off = off refl

module _ (u : Unicode) where
  -- The keys of the endpoint are free, but for its own.
  pub record IsWelcome (r : Registry) (e : PhoneEndpoint) : Type 0 where
    pub solid : non_empty (key u e.endpoint_id) ≡ true
    pub devices : IsFree (device_claims u e) r.device_index (key u e.endpoint_id)
    pub entities : IsFree (entity_claims u e) r.entity_index (key u e.endpoint_id)
    pub routes : IsFree (route_claims u e) r.route_index (key u e.endpoint_id)

  -- A stored endpoint keeps the call of the one that stood under its key.
  pub data Stores (r : Registry) : Registry → Type 0 where
    leaves : Stores r r
    stores :
        (e : PhoneEndpoint) (event : Event)
        → IsWelcome r e
        → ((d : PhoneEndpoint)
            → get (key u e.endpoint_id) r.endpoints ≡ some d
            → is_engaged d ≡ true
            → e.active_call_id ≡ d.active_call_id)
        → Stores r (store u (key u e.endpoint_id) e event r)

  pub Stores-IsIndexed : {r s : Registry} → Stores r s → IsIndexed u r → IsIndexed u s
  Stores-IsIndexed leaves i = i
  Stores-IsIndexed (stores e event w engaged) i =
      store-IsIndexed u (key u e.endpoint_id) e event _ i refl w.solid w.devices w.entities w.routes

  -- No endpoint stands under the empty key, which is that of None.
  no_empty_owner :
      (claims : PhoneEndpoint → List Text) (m : Dict PhoneEndpoint) (t : Text)
      → IsRoster u m
      → get t (build claims m []) ≢ some (key u [])
  unfolding key strip lstrip
  no_empty_owner claims m t i h =
      let (e, found, _) = build_owner claims t (key u []) m i.unique h in
      ground (arith, i.keyed (key u []) e found, u.casefold_empty)

  fresh-IsFree :
      (claims : PhoneEndpoint → List Text) (m : Dict PhoneEndpoint) (keys : List Text)
      (index : Dict Text) (k : Text)
      → IsRoster u m
      → index ≡ build claims m []
      → IsFree keys index (key u [])
      → IsFree keys index k
  fresh-IsFree claims m keys index k i built free t c =
      ground (arith, free t c, no_empty_owner claims m t i, ap (get t) built)

  pub fresh-IsWelcome :
      (r : Registry) (e : PhoneEndpoint)
      → IsIndexed u r
      → non_empty (key u e.endpoint_id) ≡ true
      → validate u r e (key u []) ≡ return tt
      → IsWelcome r e
  fresh-IsWelcome r e i named passed =
      let (ds, es, rs) = validate_passed u r e (key u []) passed in
      let k = key u e.endpoint_id in
      record {
        solid = named;
        devices =
            fresh-IsFree (device_claims u) r.endpoints (device_claims u e) r.device_index k i.roster
              i.device_built ds;
        entities =
            fresh-IsFree (entity_claims u) r.endpoints (entity_claims u e) r.entity_index k i.roster
              i.entity_built es;
        routes =
            fresh-IsFree (route_claims u) r.endpoints (route_claims u e) r.route_index k i.roster
              i.route_built rs;
      }

  Stores-fresh :
      (r : Registry) (e : PhoneEndpoint) (event : Event)
      → IsIndexed u r
      → non_empty (key u e.endpoint_id) ≡ true
      → get (key u e.endpoint_id) r.endpoints ≡ none
      → Stores r (
          after r (
            validate u r e (key u []) and_then λ _.
            return (e, store u (key u e.endpoint_id) e event r)))
  Stores-fresh r e event i named unknown = elim (Outcome-cases (validate u r e (key u []))) [
    | inl (problem, raised) ↦ rw raised leaves
    | inr (_, passed) ↦
        rw passed
          (stores e event (fresh-IsWelcome r e i named passed) (λ d found engaged. ground arith))
  ]

  pub register-Stores :
      (r : Registry) (e : PhoneEndpoint)
      → IsIndexed u r
      → non_empty (key u e.endpoint_id) ≡ true
      → Stores r (after r (register u r e))
  unfolding register
  register-Stores r e i named = elim (Option-cases (get (key u e.endpoint_id) r.endpoints)) [
    | inl unknown ↦ rw unknown (Stores-fresh r e _ i named unknown)
    | inr (d, found) ↦ rw found leaves
  ]

  known-IsWelcome :
      (r : Registry) (e d : PhoneEndpoint)
      → IsIndexed u r
      → get (key u e.endpoint_id) r.endpoints ≡ some d
      → validate u r e (key u d.endpoint_id) ≡ return tt
      → IsWelcome r e
  known-IsWelcome r e d i found passed =
      let (own, solid) = i.roster.keyed (key u e.endpoint_id) d found in
      let (ds, es, rs) = validate_passed u r e (key u d.endpoint_id) passed in
      record {
        solid = solid;
        devices = subst (λ k. IsFree (device_claims u e) r.device_index k) (sym own) ds;
        entities = subst (λ k. IsFree (entity_claims u e) r.entity_index k) (sym own) es;
        routes = subst (λ k. IsFree (route_claims u e) r.route_index k) (sym own) rs;
      }

  Stores-replaced :
      (r : Registry) (e d : PhoneEndpoint)
      → IsIndexed u r
      → get (key u e.endpoint_id) r.endpoints ≡ some d
      → (is_engaged d && not (eq_text e.active_call_id d.active_call_id)) ≡ false
      → Stores r
          (after r (validate u r e (key u d.endpoint_id) and_then λ _. replace_endpoint u r e d))
  unfolding replace_endpoint
  Stores-replaced r e d i found idle = elim (Outcome-cases (validate u r e (key u d.endpoint_id))) [
    | inl (problem, raised) ↦ rw raised leaves
    | inr (_, passed) ↦ rw passed (
        if_after (Stores r) r (same_endpoint d e) (return (d, r)) _ (λ _. leaves)
          (λ _.
            stores e _ (known-IsWelcome r e d i found passed)
              (λ c there engaged. ground (arith, eq_text_sound e.active_call_id d.active_call_id))))
  ]

  Stores-over :
      (r : Registry) (e d : PhoneEndpoint)
      → IsIndexed u r
      → get (key u e.endpoint_id) r.endpoints ≡ some d
      → Stores r (after r (upsert_over u r e (some d)))
  unfolding upsert_over
  Stores-over r e d i found =
      if_after (Stores r) r (not (eq_text d.endpoint_id e.endpoint_id)) _ _ (λ _. leaves)
        (λ _.
          if_after (Stores r) r (is_engaged d && not (eq_text e.active_call_id d.active_call_id)) _
            _ (λ _. leaves) (Stores-replaced r e d i found))

  pub upsert-Stores :
      (r : Registry) (e : PhoneEndpoint)
      → IsIndexed u r
      → non_empty (key u e.endpoint_id) ≡ true
      → Stores r (after r (upsert u r e))
  unfolding upsert
  upsert-Stores r e i named = elim (Option-cases (get (key u e.endpoint_id) r.endpoints)) [
    | inl unknown ↦ rw unknown (Stores-fresh r e _ i named unknown)
    | inr (d, found) ↦ rw found (Stores-over r e d i found)
  ]
