-- ===== src/EndpointRegistry/Runs.antt =====
-- Sequences of the calls of EndpointRegistry, custom_components/voip_stack/endpoint_registry.py, from
-- the empty registry. The snapshots that are stored have been made by the constructor.
use esphome_intercom.Prelude.{
  Text, codes, eq_text, or_text, strip, starts_with, ◌and_then◌, ℕ, Bool, false, not, ◌&&◌, List,
  [], ◌∷◌,
}
use esphome_intercom.PhoneEndpoint.{Unicode, PhoneEndpoint, Draft, key, new_endpoint}
use esphome_intercom.EndpointRegistry.State.{Registry, subscribe, unsubscribe}
use esphome_intercom.EndpointRegistry.Operations.{Change, adapted, register, upsert, update, remove}
use esphome_intercom.EndpointRegistry.Calls.{
  claim_call, release_call, sync_transport_call, adopt_transport_call,
}
use esphome_intercom.EndpointRegistry.Stored.{after}

pub data Op : Type 0 where
  op_register : Draft → Op
  op_upsert : Draft → Op
  op_update : Text → List Change → Op
  op_remove : Text → Bool → Op
  op_claim : Text → Text → Op
  op_release : Text → Text → Op
  op_sync : Text → Bool → Text → Op
  op_adopt : Text → Text → Text → Op
  op_subscribe : ℕ → Op
  op_unsubscribe : ℕ → Op

module _ (u : Unicode) where
  unfoldable pub apply : Op → Registry → Registry
  unfolding register upsert update remove claim_call release_call sync_transport_call
      adopt_transport_call subscribe unsubscribe new_endpoint adapted
  apply (op_register d) r = after r (adapted (new_endpoint u d) and_then λ e. register u r e)
  apply (op_upsert d) r = after r (adapted (new_endpoint u d) and_then λ e. upsert u r e)
  apply (op_update id changes) r = after r (update u r id changes)
  apply (op_remove id force) r = after r (remove u r id force)
  apply (op_claim id call) r = after r (claim_call u r id call)
  apply (op_release id call) r = after r (release_call u r id call)
  apply (op_sync id active fallback) r = after r (sync_transport_call u r id active fallback)
  apply (op_adopt id call prefix) r = after r (adopt_transport_call u r id call prefix)
  apply (op_subscribe listener) r = subscribe listener r
  apply (op_unsubscribe listener) r = unsubscribe listener r

  unfoldable pub run : List Op → Registry → Registry
  unfolding apply
  run [] r = r
  run (op ∷ ops) r = run ops (apply op r)

  -- The call takes the claim from an engaged endpoint: the release of its own call, the end of a
  -- physical call, the adoption of a provisional one, or a forced removal.
  abbrev pub frees : Op → PhoneEndpoint → Bool
  frees (op_remove id force) e = force && eq_text (key u id) (key u e.endpoint_id)
  frees (op_release id call) e =
      eq_text (key u id) (key u e.endpoint_id) && eq_text e.active_call_id (strip call)
  frees (op_sync id active fallback) e = not active && eq_text (key u id) (key u e.endpoint_id)
  frees (op_adopt id call prefix) e =
      eq_text (key u id) (key u e.endpoint_id)
      && starts_with e.active_call_id (or_text prefix (codes "physical:"))
  frees _ e = false
