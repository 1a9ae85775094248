-- ===== src/CallRegistry/Claims.antt =====
-- The endpoints that a call claims, after `claim_endpoint`, `release_endpoint_claims` and
-- `release_endpoint_claim` of custom_components/voip_stack/call_registry.py, on the registry of
-- endpoint_registry.py.
use esphome_intercom.Prelude.{
  if◌then◌else◌, Text, codes, eq_text, non_empty, or_text, strip, Dict, get, put, pop, Outcome,
  raise, return, ℕ, ◌+◌, Bool, true, false, not, Option, none, some, List, [], ◌∷◌, ◌++◌,
}
use esphome_intercom.PhoneEndpoint.{Unicode, PhoneEndpoint}
use esphome_intercom.EndpointRegistry.State.{Problem, Registry}
use esphome_intercom.EndpointRegistry.Operations.{Call, get_endpoint}
use esphome_intercom.EndpointRegistry.Calls.{claim_call, release_call, adopt_transport_call}
use esphome_intercom.EndpointRegistry.Stored.{after}
use esphome_intercom.CallRegistry.{CallSession, CallRegistry, or_else, resolve_session_id}

-- A call of the bound session owner about the claim of an endpoint, with the session's generation.
pub data OwnerCall : Type 0 where
  own_resource : Text → Text → ℕ → OwnerCall
  release_resource : Text → Text → ℕ → OwnerCall

-- The fields of CallRegistry that claims use. Without a session owner the calls are none.
pub record ClaimRegistry : Type 0 where
  pub calls : CallRegistry
  pub endpoint_claims : Dict (Dict Text)
  pub endpoint_registry : Option Registry
  pub owner_calls : Option (List OwnerCall)

-- claims = self.endpoint_claims.get(session_id, {})
unfoldable pub claims_of : Text → ClaimRegistry → Dict Text
unfolding get
claims_of session_id r = or_else (get session_id r.endpoint_claims) []

abbrev pub noted : Option (List OwnerCall) → OwnerCall → Option (List OwnerCall)
noted none call = none
noted (some calls) call = some (calls ++ call ∷ [])

-- The owner is told, if the call has a session.
unfoldable pub tell : (ℕ → OwnerCall) → Option CallSession → ClaimRegistry → ClaimRegistry
tell call none r = r
tell call (some session) r = record r {
  owner_calls = noted r.owner_calls (call session.generation);
}

-- session.revision += 1
unfoldable pub revise : Text → Option CallSession → ClaimRegistry → ClaimRegistry
unfolding put
revise session_id none r = r
revise session_id (some session) r = record r {
  calls = record r.calls {
    sessions = put session_id (record session { revision = session.revision + 1 }) r.calls.sessions;
  };
}

unfoldable pub same_role : Option Text → Text → Bool
unfolding eq_text
same_role none role = false
same_role (some previous) role = eq_text previous role

-- The rest of `claim_endpoint`, once the endpoint is claimed.
unfoldable pub note_claim : Text → Text → Text → Registry → ClaimRegistry → ClaimRegistry
unfolding claims_of tell revise same_role get put
note_claim session_id endpoint_id role registry r =
    let session = get session_id r.calls.sessions in
    let told = tell (own_resource session_id endpoint_id) session (record r {
      endpoint_registry = some registry;
      endpoint_claims =
          put session_id (put endpoint_id role (claims_of session_id r)) r.endpoint_claims;
    }) in
    if same_role (get endpoint_id (claims_of session_id r)) role
    then told
    else revise session_id session told

-- The ValueError of an empty call id, or what the endpoint registry raises.
pub data ClaimProblem : Type 0 where
  empty_call_id : ClaimProblem
  refused : Problem → ClaimProblem

module _ (u : Unicode) where
  unfoldable pub noted_claim :
      Text
      → Text
      → Text
      → ClaimRegistry
      → Call PhoneEndpoint
      → Outcome ClaimProblem (Bool × ClaimRegistry)
  unfolding note_claim
  noted_claim session_id endpoint_id role r (raise problem) = raise (refused problem)
  noted_claim session_id endpoint_id role r (return (e, registry)) =
      return (true, note_claim session_id endpoint_id role registry r)

  -- The call of the endpoint registry, with its default prefix.
  unfoldable pub claimed_in : Bool → Registry → Text → Text → Call PhoneEndpoint
  unfolding claim_call adopt_transport_call
  claimed_in true registry endpoint_id session_id =
      adopt_transport_call u registry endpoint_id session_id (codes "physical:")
  claimed_in false registry endpoint_id session_id = claim_call u registry endpoint_id session_id

  unfoldable pub claim_endpoint_in :
      Option Registry
      → Text
      → Text
      → Text
      → Bool
      → ClaimRegistry
      → Outcome ClaimProblem (Bool × ClaimRegistry)
  unfolding noted_claim claimed_in
  claim_endpoint_in none session_id endpoint_id role adopt r = return (false, r)
  claim_endpoint_in (some registry) session_id endpoint_id role adopt r =
      if not (non_empty endpoint_id)
      then return (false, r)
      else if not (non_empty session_id)
      then raise empty_call_id
      else noted_claim session_id endpoint_id (or_text role (codes "endpoint")) r
          (claimed_in adopt registry endpoint_id session_id)

  unfoldable pub claim_endpoint :
      Text → Text → Text → Bool → ClaimRegistry → Outcome ClaimProblem (Bool × ClaimRegistry)
  unfolding claim_endpoint_in resolve_session_id strip
  claim_endpoint call_id endpoint_id role adopt r =
      claim_endpoint_in r.endpoint_registry (resolve_session_id (strip call_id) r.calls)
        (strip endpoint_id) role adopt r

  -- `release_call`, if `get` finds the endpoint; then it does not raise.
  unfoldable pub released_if : Text → Text → Option PhoneEndpoint → Registry → Registry
  unfolding release_call
  released_if session_id endpoint_id none registry = registry
  released_if session_id endpoint_id (some e) registry =
      after registry (release_call u registry endpoint_id session_id)

  -- The loop over the claims.
  unfoldable pub release_loop : Text → Dict Text → Registry → Registry
  unfolding released_if get_endpoint
  release_loop session_id [] registry = registry
  release_loop session_id ((endpoint_id, role) ∷ rest) registry =
      release_loop session_id rest
        (released_if session_id endpoint_id (get_endpoint u registry endpoint_id) registry)

  unfoldable pub registry_released : Text → Dict Text → Option Registry → Option Registry
  unfolding release_loop
  registry_released session_id claims none = none
  registry_released session_id claims (some registry) =
      some (release_loop session_id claims registry)

  unfoldable pub release_endpoint_claims : Text → ClaimRegistry → ClaimRegistry
  unfolding registry_released claims_of resolve_session_id strip pop
  release_endpoint_claims call_id r =
      let session_id = resolve_session_id (strip call_id) r.calls in
      record r {
        endpoint_registry =
            registry_released session_id (claims_of session_id r) r.endpoint_registry;
        endpoint_claims = pop session_id r.endpoint_claims;
      }
