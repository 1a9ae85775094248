-- ===== src/CallRegistry/Losing.antt =====
-- `release_endpoint_claim` of custom_components/voip_stack/call_registry.py, for one phone of a call.
use esphome_intercom.EndpointRegistry.State.{Registry, empty_registry}
use esphome_intercom.EndpointRegistry.Runs.{Op, run}
use esphome_intercom.EndpointRegistry.Invariant.{run-IsIndexed}
use esphome_intercom.EndpointRegistry.Operations.{Call, is_engaged, get_endpoint}
use esphome_intercom.EndpointRegistry.Calls.{replace_runtime, release_found, release_call}
use esphome_intercom.EndpointRegistry.Indexed.{IsIndexed}
use esphome_intercom.EndpointRegistry.Lifecycle.{
  release_call_lem, get-replace_runtime, release_found_engaged, with_call,
}
use esphome_intercom.Prelude.{
  if◌then◌else◌, Text, eq_text, eq_text_refl, eq_text_sound, non_empty, strip, Dict, get, put, pop,
  has, get-put, get-pop, has-pop_self, raise, return, ℕ, ◌≡◌, refl, sym, ap, ◌∙◌, subst, Bool, true,
  false, not, ◌||◌, Option, none, some, List, [], ◌∷◌,
}
use esphome_intercom.PhoneEndpoint.{Unicode, PhoneEndpoint, key}
use esphome_intercom.CallRegistry.{CallSession, or_else, resolve_session_id}
use esphome_intercom.CallRegistry.Claims.{
  OwnerCall, release_resource, ClaimRegistry, claims_of, tell, revise,
}

-- The answer of `release_call`, which does not raise for an endpoint that is there.
unfoldable pub answer_of : Registry → Call Bool → Bool × Option Registry
answer_of registry (raise problem) = (false, some registry)
answer_of registry (return (released, after_it)) = (released, some after_it)

-- if not claims: self.endpoint_claims.pop(session_id, None)
unfoldable pub keep_claims : Text → Dict Text → Dict (Dict Text) → Dict (Dict Text)
unfolding pop put
keep_claims session_id [] all_claims = pop session_id all_claims
keep_claims session_id (claim ∷ rest) all_claims = put session_id (claim ∷ rest) all_claims

module _ (u : Unicode) where
  unfoldable pub release_in_found :
      Text → Text → Registry → Option PhoneEndpoint → Bool × Option Registry
  unfolding answer_of release_call
  release_in_found session_id endpoint_id registry none = (false, some registry)
  release_in_found session_id endpoint_id registry (some e) =
      answer_of registry (release_call u registry endpoint_id session_id)

  unfoldable pub release_in : Text → Text → Option Registry → Bool × Option Registry
  unfolding release_in_found get_endpoint
  release_in session_id endpoint_id none = (false, none)
  release_in session_id endpoint_id (some registry) =
      release_in_found session_id endpoint_id registry (get_endpoint u registry endpoint_id)

  -- Past the guards.
  unfoldable pub release_claimed : Text → Text → ClaimRegistry → Bool × ClaimRegistry
  unfolding release_in keep_claims claims_of tell revise get pop
  release_claimed session_id endpoint_id r =
      let session = get session_id r.calls.sessions in
      let released = release_in session_id endpoint_id r.endpoint_registry in
      (
        released.0,
        tell (release_resource session_id endpoint_id) session (
            revise session_id session (record r {
              endpoint_registry = released.1;
              endpoint_claims =
                  keep_claims session_id (pop endpoint_id (claims_of session_id r))
                    r.endpoint_claims;
            })),
      )

  unfoldable pub release_endpoint_claim : Text → Text → ClaimRegistry → Bool × ClaimRegistry
  unfolding release_claimed resolve_session_id strip claims_of has
  release_endpoint_claim call_id endpoint_id r =
      let session_id = resolve_session_id (strip call_id) r.calls in
      if not (non_empty (strip endpoint_id))
        || not (has (strip endpoint_id) (claims_of session_id r))
      then (false, r)
      else release_claimed session_id (strip endpoint_id) r

has-keep_claims :
    (sid id : Text) (claims : Dict Text) (all_claims : Dict (Dict Text))
    → has id claims ≡ false
    → has id (or_else (get sid (keep_claims sid claims all_claims)) []) ≡ false
unfolding keep_claims has
has-keep_claims sid id [] all_claims h =
    ap (λ o. has id (or_else o []))
      (get-pop sid sid all_claims
        ∙ ap (λ b. if b then none else get sid all_claims) (eq_text_refl sid))
has-keep_claims sid id (claim ∷ rest) all_claims h =
    ap (λ o. has id (or_else o []))
      (get-put sid sid (claim ∷ rest) all_claims
        ∙ ap (λ b. if b then some (claim ∷ rest) else get sid all_claims) (eq_text_refl sid))
    ∙ h

tell_fields :
    (call : ℕ → OwnerCall) (sid : Text) (session : Option CallSession) (r : ClaimRegistry)
    → ((tell call session (revise sid session r)).endpoint_registry ≡ r.endpoint_registry)
      × ((tell call session (revise sid session r)).endpoint_claims ≡ r.endpoint_claims)
unfolding tell revise
tell_fields call sid none r = (refl, refl)
tell_fields call sid (some session) r = (refl, refl)

release_in_registered :
    (u : Unicode) (registry : Registry) (sid id : Text) (e : PhoneEndpoint)
    → get_endpoint u registry id ≡ some e
    → release_in u sid id (some registry) ≡ (
      (release_found u registry (strip sid) e).0,
      some (release_found u registry (strip sid) e).1,
    )
unfolding release_in
release_in_registered u registry sid id e there =
    ap (release_in_found u sid id registry) there
    ∙ ap (answer_of registry) (release_call_lem u registry id sid e there)

release_found_own :
    (u : Unicode) (registry : Registry) (sid : Text) (e : PhoneEndpoint)
    → strip sid ≡ sid
    → non_empty sid ≡ true
    → eq_text e.active_call_id sid ≡ true
    → release_found u registry (strip sid) e ≡ (true, (replace_runtime u registry e []).1)
release_found_own u registry sid e clean solid own =
    let engaged : is_engaged e ≡ true =
      ap non_empty (eq_text_sound e.active_call_id sid own) ∙ solid in
    ap (λ call. release_found u registry call e) clean
    ∙ release_found_engaged u registry sid e engaged
    ∙ ap (λ b. if b then (true, (replace_runtime u registry e []).1) else (false, registry)) own

release_endpoint_claim_passed :
    (u : Unicode) (call id : Text) (r : ClaimRegistry)
    → non_empty (strip id) ≡ true
    → has (strip id) (claims_of (resolve_session_id (strip call) r.calls) r) ≡ true
    → release_endpoint_claim u call id r
      ≡ release_claimed u (resolve_session_id (strip call) r.calls) (strip id) r
unfolding release_endpoint_claim
release_endpoint_claim_passed u call id r named claimed = rw (named, claimed) refl

-- The phone is idle, and the call has no claim of it.
abbrev pub Loses : Unicode → Text → Text → PhoneEndpoint → Bool × ClaimRegistry → Type 0
Loses u sid id e answer =
    (s : Registry) × (answer.0 ≡ true)
    × (answer.1.endpoint_registry ≡ some s)
    × (get_endpoint u s id ≡ some (with_call e []))
    × (has id (claims_of sid answer.1) ≡ false)

release_claimed-Loses :
    (u : Unicode) (registry : Registry) (r : ClaimRegistry) (sid id : Text) (e : PhoneEndpoint)
    → IsIndexed u registry
    → r.endpoint_registry ≡ some registry
    → strip sid ≡ sid
    → non_empty sid ≡ true
    → get_endpoint u registry id ≡ some e
    → eq_text e.active_call_id sid ≡ true
    → Loses u sid id e (release_claimed u sid id r)
unfolding release_claimed get_endpoint
release_claimed-Loses u registry r sid id e i bound clean solid there own =
    let s = (replace_runtime u registry e []).1 in
    let answer : release_in u sid id r.endpoint_registry ≡ (true, some s) =
      ap (release_in u sid id) bound
      ∙ release_in_registered u registry sid id e there
      ∙ ap (λ p. (p.0, some p.1)) (release_found_own u registry sid e clean solid own) in
    let same = tell_fields (release_resource sid id) sid (get sid r.calls.sessions) (record r {
      endpoint_registry = (release_in u sid id r.endpoint_registry).1;
      endpoint_claims = keep_claims sid (pop id (claims_of sid r)) r.endpoint_claims;
    }) in
    (
      s,
      ap (λ p. p.0) answer,
      same.0 ∙ ap (λ p. p.1) answer,
      subst (λ k. get k s.endpoints ≡ some (with_call e []))
          (sym (i.roster.keyed (key u id) e there).0) (get-replace_runtime u registry e []),
      ap (λ m. has id (or_else (get sid m) [])) same.1
          ∙ has-keep_claims sid id (pop id (claims_of sid r)) r.endpoint_claims
              (has-pop_self id (claims_of sid r)),
    )

-- On a registry that registry calls have built, release_endpoint_claim for a call with a clean
-- session id that is not empty and a phone that it claims and is engaged in answers true, leaves
-- that phone registered as it was but for an empty call, and removes its claim.
pub release_endpoint_claim-Loses :
    (u : Unicode) (ops : List Op) (r : ClaimRegistry) (call id : Text) (e : PhoneEndpoint)
    → r.endpoint_registry ≡ some (run u ops empty_registry)
    → strip (resolve_session_id (strip call) r.calls) ≡ resolve_session_id (strip call) r.calls
    → non_empty (resolve_session_id (strip call) r.calls) ≡ true
    → non_empty (strip id) ≡ true
    → has (strip id) (claims_of (resolve_session_id (strip call) r.calls) r) ≡ true
    → get_endpoint u (run u ops empty_registry) (strip id) ≡ some e
    → eq_text e.active_call_id (resolve_session_id (strip call) r.calls) ≡ true
    → Loses u
        (resolve_session_id (strip call) r.calls)
        (strip id)
        e
        (release_endpoint_claim u call id r)
release_endpoint_claim-Loses u ops r call id e bound clean solid named claimed there own =
    let sid = resolve_session_id (strip call) r.calls in
    subst (Loses u sid (strip id) e) (sym (release_endpoint_claim_passed u call id r named claimed))
      (release_claimed-Loses u (run u ops empty_registry) r sid (strip id) e (run-IsIndexed u ops)
        bound clean solid there own)
