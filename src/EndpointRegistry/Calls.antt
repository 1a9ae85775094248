-- ===== src/EndpointRegistry/Calls.antt =====
-- `claim_call`, `release_call`, `sync_transport_call` and `adopt_transport_call` of EndpointRegistry
-- in custom_components/voip_stack/endpoint_registry.py.
use esphome_intercom.Prelude.{
  if◌then◌else◌, Text, codes, eq_text, non_empty, or_text, strip, starts_with, raise, return,
  ◌and_then◌, Bool, true, false, not, ◌||◌, some, [],
}
use esphome_intercom.PhoneEndpoint.{Unicode, PhoneEndpoint, key}
use esphome_intercom.EndpointRegistry.State.{
  busy, empty_call, no_fallback, updated, Registry, store,
}
use esphome_intercom.EndpointRegistry.Operations.{Call, is_engaged, require}

module _ (u : Unicode) where
  -- `dataclasses.replace` runs the constructor again. The endpoint has been through it before; that it
  -- leaves such fields as they are is assumed here.
  unfoldable pub replace_runtime : Registry → PhoneEndpoint → Text → PhoneEndpoint × Registry
  unfolding store key
  replace_runtime r e call_id =
      let renewed : PhoneEndpoint = record e { active_call_id = call_id } in
      (
        renewed,
        store u (key u e.endpoint_id) renewed
            (record { event_type = updated; endpoint = renewed; previous = some e }) r,
      )

  -- `claim_call` at the endpoint that it finds, and the stripped call id.
  unfoldable pub claim_found : Registry → Text → PhoneEndpoint → Call PhoneEndpoint
  unfolding replace_runtime eq_text
  claim_found r requested e =
      if is_engaged e
      then (if eq_text e.active_call_id requested
          then return (e, r)
          else raise (busy e.endpoint_id e.active_call_id requested))
      else return (replace_runtime r e requested)

  unfoldable pub claim_call : Registry → Text → Text → Call PhoneEndpoint
  unfolding claim_found require strip
  claim_call r endpoint_id call_id =
      if non_empty (strip call_id)
      then (require u r endpoint_id and_then λ e. claim_found r (strip call_id) e)
      else raise empty_call

  unfoldable pub release_found : Registry → Text → PhoneEndpoint → Bool × Registry
  unfolding replace_runtime eq_text
  release_found r requested e =
      if not (is_engaged e) || not (eq_text e.active_call_id requested)
      then (false, r)
      else (true, (replace_runtime r e []).1)

  unfoldable pub release_call : Registry → Text → Text → Call Bool
  unfolding release_found require strip
  release_call r endpoint_id call_id =
      require u r endpoint_id and_then λ e. return (release_found r (strip call_id) e)

  -- The state and the endpoint that the last line of `sync_transport_call` returns.
  unfoldable pub looked_up_again : Text → Bool × Registry → Call PhoneEndpoint
  unfolding require
  looked_up_again endpoint_id (released, r) = require u r endpoint_id and_then λ e. return (e, r)

  unfoldable pub sync_found : Registry → Bool → Text → PhoneEndpoint → Call PhoneEndpoint
  unfolding claim_call release_call looked_up_again strip
  sync_found r true fallback_call_id e =
      let call_id = or_text e.active_call_id (strip fallback_call_id) in
      if non_empty call_id then claim_call r e.endpoint_id call_id else raise no_fallback
  sync_found r false fallback_call_id e =
      if is_engaged e
      then (release_call r e.endpoint_id e.active_call_id and_then looked_up_again e.endpoint_id)
      else looked_up_again e.endpoint_id (false, r)

  unfoldable pub sync_transport_call : Registry → Text → Bool → Text → Call PhoneEndpoint
  unfolding sync_found require
  sync_transport_call r endpoint_id active fallback_call_id =
      require u r endpoint_id and_then λ e. sync_found r active fallback_call_id e

  -- `str(transport_prefix or "physical:")` is the prefix.
  unfoldable pub adopt_found : Registry → Text → Text → PhoneEndpoint → Call PhoneEndpoint
  unfolding claim_call replace_runtime eq_text starts_with
  adopt_found r requested prefix e =
      if not (is_engaged e)
      then claim_call r e.endpoint_id requested
      else if eq_text e.active_call_id requested
      then return (e, r)
      else if starts_with e.active_call_id (or_text prefix (codes "physical:"))
      then return (replace_runtime r e requested)
      else raise (busy e.endpoint_id e.active_call_id requested)

  unfoldable pub adopt_transport_call : Registry → Text → Text → Text → Call PhoneEndpoint
  unfolding adopt_found require strip
  adopt_transport_call r endpoint_id call_id prefix =
      if non_empty (strip call_id)
      then (require u r endpoint_id and_then λ e. adopt_found r (strip call_id) prefix e)
      else raise empty_call
