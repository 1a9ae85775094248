-- ===== src/EndpointRegistry/Lifecycle.antt =====
-- `claim_call` and `release_call` of EndpointRegistry,
-- custom_components/voip_stack/endpoint_registry.py, one after the other.
use esphome_intercom.EndpointRegistry.Runs.{Op, run}
use esphome_intercom.EndpointRegistry.Invariant.{run-IsIndexed}
use esphome_intercom.Prelude.{
  if◌then◌else◌, Text, eq_text, eq_text_refl, non_empty, strip, get, get-put, raise, return, ◌≡◌,
  refl, sym, ap, ◌∙◌, subst, true, false, some, List, [], arith,
}
use esphome_intercom.PhoneEndpoint.{Unicode, PhoneEndpoint, key}
use esphome_intercom.EndpointRegistry.State.{busy, updated, Registry, empty_registry}
use esphome_intercom.EndpointRegistry.Operations.{is_engaged, get_endpoint, require}
use esphome_intercom.EndpointRegistry.Calls.{
  replace_runtime, claim_found, claim_call, release_found, release_call,
}
use esphome_intercom.EndpointRegistry.Indexed.{store_endpoints}

module _ (u : Unicode) where
  require_lem :
      (r : Registry) (id : Text) (e : PhoneEndpoint)
      → get (key u id) r.endpoints ≡ some e
      → require u r id ≡ return e
  unfolding require
  require_lem r id e found = rw found

  -- `claim_call` at an endpoint that is there.
  claim_call_lem :
      (r : Registry) (id call : Text) (e : PhoneEndpoint)
      → non_empty (strip call) ≡ true
      → get (key u id) r.endpoints ≡ some e
      → claim_call u r id call ≡ claim_found u r (strip call) e
  unfolding claim_call
  claim_call_lem r id call e solid found = rw (solid, require_lem r id e found) refl

  pub release_call_lem :
      (r : Registry) (id call : Text) (e : PhoneEndpoint)
      → get (key u id) r.endpoints ≡ some e
      → release_call u r id call ≡ return (release_found u r (strip call) e)
  unfolding release_call
  release_call_lem r id call e found = rw (require_lem r id e found) refl

  pub get-replace_runtime :
      (r : Registry) (e : PhoneEndpoint) (call : Text)
      → get (key u e.endpoint_id) (replace_runtime u r e call).1.endpoints
        ≡ some (record e { active_call_id = call })
  unfolding replace_runtime
  get-replace_runtime r e call =
      ap (get (key u e.endpoint_id)) (
        store_endpoints u (key u e.endpoint_id) (record e { active_call_id = call })
          (record {
            event_type = updated;
            endpoint = record e { active_call_id = call };
            previous = some e;
          })
          r)
      ∙ get-put (key u e.endpoint_id) (key u e.endpoint_id) (record e { active_call_id = call })
          r.endpoints
      ∙ ap
          (λ b.
            if b
            then some (record e { active_call_id = call })
            else get (key u e.endpoint_id) r.endpoints)
          (eq_text_refl (key u e.endpoint_id))

  claim_found_idle :
      (r : Registry) (requested : Text) (e : PhoneEndpoint)
      → is_engaged e ≡ false
      → claim_found u r requested e ≡ return (replace_runtime u r e requested)
  unfolding claim_found
  claim_found_idle r requested e idle = simp idle

  claim_found_engaged :
      (r : Registry) (requested : Text) (e : PhoneEndpoint)
      → is_engaged e ≡ true
      → claim_found u r requested e ≡ (
          if eq_text e.active_call_id requested
          then return (e, r)
          else raise (busy e.endpoint_id e.active_call_id requested))
  unfolding claim_found
  claim_found_engaged r requested e engaged = simp engaged

  pub release_found_engaged :
      (r : Registry) (requested : Text) (e : PhoneEndpoint)
      → is_engaged e ≡ true
      → release_found u r requested e ≡ (
          if eq_text e.active_call_id requested
          then (true, (replace_runtime u r e []).1)
          else (false, r))
  unfolding release_found
  release_found_engaged r requested e engaged = ground arith

replace_runtime_first :
    (u : Unicode) (r : Registry) (e : PhoneEndpoint) (call : Text)
    → (replace_runtime u r e call).0 ≡ record e { active_call_id = call }
unfolding replace_runtime
replace_runtime_first u r e call = refl

-- The phone as the call has it.
abbrev pub with_call : PhoneEndpoint → Text → PhoneEndpoint
with_call e call = record e { active_call_id = call }

-- After any sequence of registry calls, a non-blank call claims an idle endpoint; a second claim by
-- it changes nothing, a claim by another call is refused as busy with the owner named, a release by
-- another call changes nothing, and its own release leaves the endpoint as it was but for an empty
-- call.
pub claim_call-release_call :
    (u : Unicode) (ops : List Op) (id call other : Text) (e : PhoneEndpoint)
    → get_endpoint u (run u ops empty_registry) id ≡ some e
    → is_engaged e ≡ false
    → non_empty (strip call) ≡ true
    → non_empty (strip other) ≡ true
    → eq_text (strip call) (strip other) ≡ false
    → (s : Registry) × (claim_call u (run u ops empty_registry) id call
        ≡ return (with_call e (strip call), s))
      × (get_endpoint u s id ≡ some (with_call e (strip call)))
      × (claim_call u s id call ≡ return (with_call e (strip call), s))
      × (claim_call u s id other ≡ raise (busy e.endpoint_id (strip call) (strip other)))
      × (release_call u s id other ≡ return (false, s))
      × (t : Registry) × (release_call u s id call ≡ return (true, t))
      × (get_endpoint u t id ≡ some (with_call e []))
unfolding get_endpoint
claim_call-release_call u ops id call other e found idle solid other_solid differ =
    let r = run u ops empty_registry in
    let own : key u id ≡ key u e.endpoint_id =
      ((run-IsIndexed u ops).roster.keyed (key u id) e found).0 in
    let claimed = with_call e (strip call) in
    let s = (replace_runtime u r e (strip call)).1 in
    let t = (replace_runtime u s claimed []).1 in
    let held : get (key u id) s.endpoints ≡ some claimed =
      subst (λ k. get k s.endpoints ≡ some claimed) (sym own)
        (get-replace_runtime u r e (strip call)) in
    let freed : get (key u id) t.endpoints ≡ some (with_call e []) =
      subst (λ k. get k t.endpoints ≡ some (with_call e [])) (sym own)
        (get-replace_runtime u s claimed []) in
    (
      s,
      claim_call_lem u r id call e solid found
          ∙ claim_found_idle u r (strip call) e idle
          ∙ ap (λ x. return (x, s)) (replace_runtime_first u r e (strip call)),
      held,
      claim_call_lem u s id call claimed solid held
          ∙ claim_found_engaged u s (strip call) claimed solid
          ∙ ap
              (λ b.
                if b
                then return (claimed, s)
                else raise (busy e.endpoint_id (strip call) (strip call)))
              (eq_text_refl (strip call)),
      claim_call_lem u s id other claimed other_solid held
          ∙ claim_found_engaged u s (strip other) claimed solid
          ∙ ap
              (λ b.
                if b
                then return (claimed, s)
                else raise (busy e.endpoint_id (strip call) (strip other)))
              differ,
      release_call_lem u s id other claimed held
          ∙ ap return (
              release_found_engaged u s (strip other) claimed solid
              ∙ ap (λ b. if b then (true, t) else (false, s)) differ),
      t,
      release_call_lem u s id call claimed held
          ∙ ap return (
              release_found_engaged u s (strip call) claimed solid
              ∙ ap (λ b. if b then (true, t) else (false, s)) (eq_text_refl (strip call))),
      freed,
    )
