-- ===== src/CallRegistry/Claimed.antt =====
-- Two phones, one of them in a call: the claims of custom_components/voip_stack/call_registry.py.
use esphome_intercom.Prelude.{
  codes, eq_text, non_empty, strip, lower, has, ◌≡◌, refl, true, none, some, List, [], ◌∷◌,
}
use esphome_intercom.CallRegistry.Losing.{
  release_endpoint_claim, Loses, release_endpoint_claim-Loses,
}
use esphome_intercom.PhoneEndpoint.{absent}
use esphome_intercom.EndpointRegistry.State.{empty_registry}
use esphome_intercom.EndpointRegistry.Operations.{get_endpoint}
use esphome_intercom.EndpointRegistry.Runs.{Op, op_register, op_claim, run}
use esphome_intercom.EndpointRegistry.Examples.{ascii, draft, kitchen}
use esphome_intercom.CallRegistry.{resolve_session_id}
use esphome_intercom.CallRegistry.Claims.{ClaimRegistry, claims_of, release_endpoint_claims}
use esphome_intercom.CallRegistry.Released.{Releases, release_endpoint_claims-Releases}

abbrev phones : List Op
phones =
    op_register (draft (codes "K") (codes "Cook") (codes "10") (codes "d1"))
    ∷ op_register (record (draft (codes "h") (codes "Hall") (codes "11") (codes "d2")) {
      entity_ids = absent;
    })
    ∷ op_claim (codes "K") (codes "c1")
    ∷ []

abbrev claims : ClaimRegistry
claims = record {
  calls = record {
    sessions = [];
    leg_index = (codes "leg", codes "c1") ∷ [];
    terminated_call_ids = [];
    terminal_summary_ids = [];
  };
  endpoint_claims = (codes "c1", (codes "K", codes "endpoint") ∷ []) ∷ [];
  endpoint_registry = some (run ascii phones empty_registry);
  owner_calls = none;
}

session_id : resolve_session_id (strip (codes "leg")) claims.calls ≡ codes "c1"
unfolding resolve_session_id strip
session_id = refl

session_clean :
    strip (resolve_session_id (strip (codes "leg")) claims.calls)
    ≡ resolve_session_id (strip (codes "leg")) claims.calls
unfolding resolve_session_id strip
session_clean = refl

session_named : non_empty (resolve_session_id (strip (codes "leg")) claims.calls) ≡ true
unfolding resolve_session_id strip
session_named = refl

release_endpoint_claims-Releases_example :
    Releases ascii
      (resolve_session_id (strip (codes "leg")) claims.calls)
      (codes "K")
      (claims_of (resolve_session_id (strip (codes "leg")) claims.calls) claims)
      (run ascii phones empty_registry)
      (release_endpoint_claims ascii (codes "leg") claims)
release_endpoint_claims-Releases_example =
    release_endpoint_claims-Releases ascii phones claims (codes "leg") (codes "K") refl
      session_clean session_named

kitchen_named : non_empty (strip (codes " K ")) ≡ true
unfolding strip
kitchen_named = refl

kitchen_in_claims :
    has
      (strip (codes " K "))
      (claims_of (resolve_session_id (strip (codes "leg")) claims.calls) claims)
    ≡ true
unfolding resolve_session_id strip claims_of has
kitchen_in_claims = refl

kitchen_found :
    get_endpoint ascii (run ascii phones empty_registry) (strip (codes " K "))
    ≡ some (kitchen (codes "c1"))
unfolding run get_endpoint lower strip
kitchen_found = refl

kitchen_own :
    eq_text
      (kitchen (codes "c1")).active_call_id
      (resolve_session_id (strip (codes "leg")) claims.calls)
    ≡ true
unfolding resolve_session_id strip eq_text
kitchen_own = refl

release_endpoint_claim-Loses_example :
    Loses ascii
      (resolve_session_id (strip (codes "leg")) claims.calls)
      (strip (codes " K "))
      (kitchen (codes "c1"))
      (release_endpoint_claim ascii (codes "leg") (codes " K ") claims)
release_endpoint_claim-Loses_example =
    release_endpoint_claim-Loses ascii phones claims (codes "leg") (codes " K ")
      (kitchen (codes "c1")) refl session_clean session_named kitchen_named kitchen_in_claims
      kitchen_found kitchen_own
