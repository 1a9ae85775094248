-- ===== src/EndpointRegistry/Effects.antt =====
-- The effect on the registry of each call that claims or releases a phone, and of `update` and
-- `remove`, in custom_components/voip_stack/endpoint_registry.py.
use esphome_intercom.Prelude.{
  if◌then◌else◌, Text, codes, eq_text, eq_text_refl, non_empty, or_text, strip, starts_with, get,
  raise, return, ◌and_then◌, Outcome-cases, ◌≡◌, refl, subst, inl, inr, Bool, true, false, not,
  ◌&&◌, ◌||◌, some, [], arith,
}
use esphome_intercom.PhoneEndpoint.{Unicode, PhoneEndpoint, key}
use esphome_intercom.EndpointRegistry.State.{empty_call, no_fallback, Registry}
use esphome_intercom.EndpointRegistry.Operations.{Call, is_engaged, require}
use esphome_intercom.EndpointRegistry.Calls.{
  replace_runtime, claim_found, claim_call, release_found, release_call, looked_up_again,
  sync_found, sync_transport_call, adopt_found, adopt_transport_call,
}
use esphome_intercom.EndpointRegistry.Indexed.{IsIndexed}
use esphome_intercom.EndpointRegistry.Stored.{after, if_after}
use esphome_intercom.EndpointRegistry.Recalled.{Recalls, keeps, recalls, require_found}

pub if_second :
    (P : Registry → Type 0) (test : Bool) (x y : Bool × Registry)
    → (test ≡ true → P x.1)
    → (test ≡ false → P y.1)
    → P (if test then x else y).1
if_second P true x y on off = on refl
if_second P false x y on off = off refl

module _ (u : Unicode) where
  -- A call that starts with `require`.
  pub after_require :
      {A : Type 0} (P : Registry → Type 0) (r : Registry) (id : Text)
      (next : PhoneEndpoint → Call A)
      → IsIndexed u r
      → P r
      → ((e : PhoneEndpoint)
          → get (key u e.endpoint_id) r.endpoints ≡ some e
          → key u id ≡ key u e.endpoint_id
          → P (after r (next e)))
      → P (after r (require u r id and_then next))
  after_require P r id next i left met = elim (Outcome-cases (require u r id)) [
    | inl (problem, raised) ↦ rw raised left
    | inr (e, found) ↦
        let (there, own) = require_found u r id e i found in rw found (met e there own)
  ]

  abbrev pub is_idle : PhoneEndpoint → Bool
  is_idle e = not (is_engaged e)

  claim_found-Recalls :
      (r : Registry) (requested : Text) (e : PhoneEndpoint)
      → get (key u e.endpoint_id) r.endpoints ≡ some e
      → Recalls u is_idle r (after r (claim_found u r requested e))
  unfolding claim_found
  claim_found-Recalls r requested e there =
      if_after (Recalls u is_idle r) r (is_engaged e) _ _
        (λ _.
          if_after (Recalls u is_idle r) r (eq_text e.active_call_id requested) (return (e, r)) _
            (λ _. keeps) (λ _. keeps))
        (λ idle. recalls e requested there (ground arith))

  pub claim_call-Recalls :
      (r : Registry) (id call : Text)
      → IsIndexed u r
      → Recalls u is_idle r (after r (claim_call u r id call))
  unfolding claim_call
  claim_call-Recalls r id call i =
      if_after (Recalls u is_idle r) r (non_empty (strip call)) _ (raise empty_call)
        (λ _.
          after_require (Recalls u is_idle r) r id _ i keeps
            (λ e there own. claim_found-Recalls r (strip call) e there))
        (λ _. keeps)

  -- The endpoint is that of the id, and the call id is its own.
  abbrev pub is_own_call : Text → Text → PhoneEndpoint → Bool
  is_own_call id call e = eq_text (key u id) (key u e.endpoint_id) && eq_text e.active_call_id call

  release_found-Recalls :
      (allows : PhoneEndpoint → Bool) (r : Registry) (requested : Text) (e : PhoneEndpoint)
      → get (key u e.endpoint_id) r.endpoints ≡ some e
      → (eq_text e.active_call_id requested ≡ true → allows e ≡ true)
      → Recalls u allows r (release_found u r requested e).1
  unfolding release_found
  release_found-Recalls allows r requested e there own =
      if_second (Recalls u allows r)
        (not (is_engaged e) || not (eq_text e.active_call_id requested)) (false, r)
        (true, (replace_runtime u r e []).1) (λ _. keeps)
        (λ free. recalls e [] there (own (ground arith)))

  pub release_call-Recalls :
      (r : Registry) (id call : Text)
      → IsIndexed u r
      → Recalls u (is_own_call id (strip call)) r (after r (release_call u r id call))
  unfolding release_call
  release_call-Recalls r id call i =
      let allows = is_own_call id (strip call) in
      after_require (Recalls u allows r) r id _ i keeps (λ e there own.
        release_found-Recalls allows r (strip call) e there
          (λ same. ground (arith, eq_text_refl (key u id))))

  widened :
      (narrow wide : PhoneEndpoint → Bool) {r s : Registry}
      → Recalls u narrow r s
      → ((e : PhoneEndpoint) → narrow e ≡ true → wide e ≡ true)
      → Recalls u wide r s
  widened narrow wide keeps grows = keeps
  widened narrow wide (recalls e call there allowed) grows = recalls e call there (grows e allowed)

  looked_up_again_after :
      (P : Registry → Type 0) (r s : Registry) (id : Text) (b : Bool)
      → P r
      → P s
      → P (after r (looked_up_again u id (b, s)))
  unfolding looked_up_again
  looked_up_again_after P r s id b left right = elim (Outcome-cases (require u s id)) [
    | inl (problem, raised) ↦ rw raised left
    | inr (e, found) ↦ rw found right
  ]

  -- A physical call may change that of the endpoint, if it has ended.
  abbrev pub sync_allows : Text → Bool → PhoneEndpoint → Bool
  sync_allows id active e = is_idle e || not active && eq_text (key u id) (key u e.endpoint_id)

  released_again :
      (r : Registry) (id : Text) (e : PhoneEndpoint)
      → IsIndexed u r
      → key u id ≡ key u e.endpoint_id
      → Recalls u (sync_allows id false) r (
          after r (
            release_call u r e.endpoint_id e.active_call_id
            and_then looked_up_again u e.endpoint_id))
  released_again r id e i own =
      let allows = sync_allows id false in
      let narrow = is_own_call e.endpoint_id (strip e.active_call_id) in
      let done : Recalls u allows r (after r (release_call u r e.endpoint_id e.active_call_id)) =
        widened narrow allows (release_call-Recalls r e.endpoint_id e.active_call_id i)
          (λ d h. rw own (ground arith)) in
      elim (Outcome-cases (release_call u r e.endpoint_id e.active_call_id)) [
        | inl (problem, raised) ↦ rw raised keeps
        | inr ((b, s), released) ↦ rw released (
            looked_up_again_after (Recalls u allows r) r s e.endpoint_id b keeps
              (subst (λ call. Recalls u allows r (after r call)) released done))
      ]

  sync_found-Recalls :
      (r : Registry) (id fallback : Text) (active : Bool) (e : PhoneEndpoint)
      → IsIndexed u r
      → key u id ≡ key u e.endpoint_id
      → Recalls u (sync_allows id active) r (after r (sync_found u r active fallback e))
  unfolding sync_found
  sync_found-Recalls r id fallback true e i own =
      let P = Recalls u (sync_allows id true) r in
      let call_id = or_text e.active_call_id (strip fallback) in
      if_after P r (non_empty call_id) _ (raise no_fallback)
        (λ _.
          widened is_idle (sync_allows id true) (claim_call-Recalls r e.endpoint_id call_id i)
            (λ d h. ground arith))
        (λ _. keeps)
  sync_found-Recalls r id fallback false e i own =
      let P = Recalls u (sync_allows id false) r in
      if_after P r (is_engaged e) _ _ (λ _. released_again r id e i own)
        (λ _. looked_up_again_after P r r e.endpoint_id false keeps keeps)

  pub sync_transport_call-Recalls :
      (r : Registry) (id fallback : Text) (active : Bool)
      → IsIndexed u r
      → Recalls u (sync_allows id active) r (after r (sync_transport_call u r id active fallback))
  unfolding sync_transport_call
  sync_transport_call-Recalls r id fallback active i =
      after_require (Recalls u (sync_allows id active) r) r id _ i keeps
        (λ e there own. sync_found-Recalls r id fallback active e i own)

  -- A provisional call of the endpoint may be adopted.
  abbrev pub adopt_allows : Text → Text → PhoneEndpoint → Bool
  adopt_allows id prefix e =
      is_idle e
      || eq_text (key u id) (key u e.endpoint_id)
        && starts_with e.active_call_id (or_text prefix (codes "physical:"))

  adopt_found-Recalls :
      (r : Registry) (id requested prefix : Text) (e : PhoneEndpoint)
      → IsIndexed u r
      → get (key u e.endpoint_id) r.endpoints ≡ some e
      → key u id ≡ key u e.endpoint_id
      → Recalls u (adopt_allows id prefix) r (after r (adopt_found u r requested prefix e))
  unfolding adopt_found
  adopt_found-Recalls r id requested prefix e i there own =
      let P = Recalls u (adopt_allows id prefix) r in
      if_after P r (is_idle e) _ _
        (λ _.
          widened is_idle (adopt_allows id prefix) (claim_call-Recalls r e.endpoint_id requested i)
            (λ d h. ground arith))
        (λ _.
          if_after P r (eq_text e.active_call_id requested) _ _ (λ _. keeps)
            (λ _.
              if_after P r (starts_with e.active_call_id (or_text prefix (codes "physical:"))) _ _
                (λ provisional.
                  recalls e requested there
                    (rw own (ground (arith, eq_text_refl (key u e.endpoint_id)))))
                (λ _. keeps)))

  pub adopt_transport_call-Recalls :
      (r : Registry) (id call prefix : Text)
      → IsIndexed u r
      → Recalls u (adopt_allows id prefix) r (after r (adopt_transport_call u r id call prefix))
  unfolding adopt_transport_call
  adopt_transport_call-Recalls r id call prefix i =
      let P = Recalls u (adopt_allows id prefix) r in
      if_after P r (non_empty (strip call)) _ (raise empty_call)
        (λ _.
          after_require P r id _ i keeps
            (λ e there own. adopt_found-Recalls r id (strip call) prefix e i there own))
        (λ _. keeps)
