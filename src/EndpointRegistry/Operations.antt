-- ===== src/EndpointRegistry/Operations.antt =====
-- `register`, `upsert`, `update` and `remove` of EndpointRegistry in
-- custom_components/voip_stack/endpoint_registry.py.
use esphome_intercom.Prelude.{
  if◌then◌else◌, any, all, Text, codes, eq_text, non_empty, mem_text, strip, get, Outcome, raise,
  return, ◌and_then◌, Bool, true, false, not, ◌&&◌, Option, none, some, List, [], ◌∷◌,
}
use esphome_intercom.PhoneEndpoint.{
  Unicode, EndpointKind, browser, sip_account, esphome, EndpointAvailability, available, offline,
  unavailable, OfflinePolicy, refuse, forward, Invalid, PhoneEndpoint, Flag, flag_bool, Values,
  several, Draft, key, new_endpoint,
}
use esphome_intercom.EndpointRegistry.State.{
  Problem, invalid, not_found, collision, busy, immutable, call_managed, registered, updated,
  removed, Registry, store, delete,
}
use esphome_intercom.EndpointRegistry.Validation.{validate}

-- A call returns the endpoint and the registry after it; one that raises leaves the registry.
abbrev pub Call : Type 0 → Type 0
Call A = Outcome Problem (A × Registry)

-- bool(endpoint.active_call_id)
abbrev pub is_engaged : PhoneEndpoint → Bool
is_engaged e = non_empty e.active_call_id

-- The fields as `dataclasses.replace` gives them to the constructor again.
unfoldable pub kind_text : EndpointKind → Text
kind_text browser = codes "browser"
kind_text sip_account = codes "sip_account"
kind_text esphome = codes "esphome"

unfoldable pub availability_text : EndpointAvailability → Text
availability_text available = codes "available"
availability_text offline = codes "offline"
availability_text unavailable = codes "unavailable"

unfoldable pub policy_text : OfflinePolicy → Text
policy_text refuse = codes "unavailable"
policy_text forward = codes "forward"

unfoldable pub draft_of : PhoneEndpoint → Draft
unfolding kind_text availability_text policy_text
draft_of e = record {
  endpoint_id = e.endpoint_id;
  name = e.name;
  kind = kind_text e.kind;
  extension = e.extension;
  username = e.username;
  device_id = e.device_id;
  entity_ids = several e.entity_ids;
  availability = availability_text e.availability;
  capabilities = several e.capabilities;
  dnd = flag_bool e.dnd;
  auto_answer = flag_bool e.auto_answer;
  send_video = flag_bool e.send_video;
  offline_policy = policy_text e.offline_policy;
  ring_group = e.ring_group;
  conference_group = e.conference_group;
  conference_ring = flag_bool e.conference_ring;
  offline_forward_target = e.offline_forward_target;
  active_call_id = e.active_call_id;
}

-- A keyword argument of `update`.
pub data Change : Type 0 where
  set_endpoint_id : Text → Change
  set_active_call_id : Text → Change
  set_name : Text → Change
  set_kind : Text → Change
  set_extension : Text → Change
  set_username : Text → Change
  set_device_id : Text → Change
  set_entity_ids : Values → Change
  set_availability : Text → Change
  set_capabilities : Values → Change
  set_dnd : Flag → Change
  set_auto_answer : Flag → Change
  set_send_video : Flag → Change
  set_offline_policy : Text → Change
  set_ring_group : Text → Change
  set_conference_group : Text → Change
  set_conference_ring : Flag → Change
  set_offline_forward_target : Text → Change

unfoldable pub changed : Change → Draft → Draft
changed (set_endpoint_id v) d = record d { endpoint_id = v }
changed (set_active_call_id v) d = record d { active_call_id = v }
changed (set_name v) d = record d { name = v }
changed (set_kind v) d = record d { kind = v }
changed (set_extension v) d = record d { extension = v }
changed (set_username v) d = record d { username = v }
changed (set_device_id v) d = record d { device_id = v }
changed (set_entity_ids v) d = record d { entity_ids = v }
changed (set_availability v) d = record d { availability = v }
changed (set_capabilities v) d = record d { capabilities = v }
changed (set_dnd v) d = record d { dnd = v }
changed (set_auto_answer v) d = record d { auto_answer = v }
changed (set_send_video v) d = record d { send_video = v }
changed (set_offline_policy v) d = record d { offline_policy = v }
changed (set_ring_group v) d = record d { ring_group = v }
changed (set_conference_group v) d = record d { conference_group = v }
changed (set_conference_ring v) d = record d { conference_ring = v }
changed (set_offline_forward_target v) d = record d { offline_forward_target = v }

unfoldable pub changed_by : List Change → Draft → Draft
unfolding changed
changed_by [] d = d
changed_by (change ∷ rest) d = changed_by rest (changed change d)

unfoldable pub sets_endpoint_id : Change → Bool
sets_endpoint_id (set_endpoint_id v) = true
sets_endpoint_id change = false

unfoldable pub sets_active_call_id : Change → Bool
sets_active_call_id (set_active_call_id v) = true
sets_active_call_id change = false

-- previous == endpoint, where the two sets are compared without their order.
abbrev pub includes : List Text → List Text → Bool
includes ss ts = all (λ t. mem_text t ss) ts

unfoldable pub same_bool : Bool → Bool → Bool
same_bool true b = b
same_bool false b = not b

unfoldable pub same_endpoint : PhoneEndpoint → PhoneEndpoint → Bool
unfolding eq_text mem_text kind_text availability_text policy_text same_bool
same_endpoint d e =
    eq_text d.endpoint_id e.endpoint_id
    && eq_text d.name e.name
    && eq_text (kind_text d.kind) (kind_text e.kind)
    && eq_text d.extension e.extension
    && eq_text d.username e.username
    && eq_text d.device_id e.device_id
    && includes d.entity_ids e.entity_ids
    && includes e.entity_ids d.entity_ids
    && eq_text (availability_text d.availability) (availability_text e.availability)
    && includes d.capabilities e.capabilities
    && includes e.capabilities d.capabilities
    && same_bool d.dnd e.dnd
    && same_bool d.auto_answer e.auto_answer
    && same_bool d.send_video e.send_video
    && eq_text (policy_text d.offline_policy) (policy_text e.offline_policy)
    && eq_text d.ring_group e.ring_group
    && eq_text d.conference_group e.conference_group
    && same_bool d.conference_ring e.conference_ring
    && eq_text d.offline_forward_target e.offline_forward_target
    && eq_text d.active_call_id e.active_call_id

unfoldable pub found_or_raise : Text → Option PhoneEndpoint → Outcome Problem PhoneEndpoint
unfolding strip
found_or_raise endpoint_id none = raise (not_found (strip endpoint_id))
found_or_raise endpoint_id (some e) = return e

unfoldable pub adapted : Outcome Invalid PhoneEndpoint → Outcome Problem PhoneEndpoint
adapted (raise problem) = raise (invalid problem)
adapted (return e) = return e

module _ (u : Unicode) where
  unfoldable pub get_endpoint : Registry → Text → Option PhoneEndpoint
  unfolding get key
  get_endpoint r endpoint_id = get (key u endpoint_id) r.endpoints

  unfoldable pub require : Registry → Text → Outcome Problem PhoneEndpoint
  unfolding found_or_raise get_endpoint
  require r endpoint_id = found_or_raise endpoint_id (get_endpoint r endpoint_id)

  unfoldable pub register_new : Registry → PhoneEndpoint → Option PhoneEndpoint → Call PhoneEndpoint
  unfolding validate store key
  register_new r e (some existing) =
      raise (collision (codes "endpoint_id") e.endpoint_id e.endpoint_id existing.endpoint_id)
  register_new r e none = validate u r e (key u []) and_then λ _. return (
    e,
    store u (key u e.endpoint_id) e
        (record { event_type = registered; endpoint = e; previous = none }) r,
  )

  unfoldable pub register : Registry → PhoneEndpoint → Call PhoneEndpoint
  unfolding register_new get_endpoint
  register r e = register_new r e (get_endpoint r e.endpoint_id)

  unfoldable pub replace_endpoint : Registry → PhoneEndpoint → PhoneEndpoint → Call PhoneEndpoint
  unfolding same_endpoint store key
  replace_endpoint r e previous =
      if same_endpoint previous e
      then return (previous, r)
      else return (
        e,
        store u (key u e.endpoint_id) e
            (record { event_type = updated; endpoint = e; previous = some previous }) r,
      )

  unfoldable pub upsert_over : Registry → PhoneEndpoint → Option PhoneEndpoint → Call PhoneEndpoint
  unfolding validate replace_endpoint store key eq_text
  upsert_over r e none = validate u r e (key u []) and_then λ _. return (
    e,
    store u (key u e.endpoint_id) e
        (record { event_type = registered; endpoint = e; previous = none }) r,
  )
  upsert_over r e (some previous) =
      if not (eq_text previous.endpoint_id e.endpoint_id)
      then raise immutable
      else if is_engaged previous && not (eq_text e.active_call_id previous.active_call_id)
      then raise (busy previous.endpoint_id previous.active_call_id e.active_call_id)
      else (validate u r e (key u previous.endpoint_id) and_then λ _. replace_endpoint r e previous)

  unfoldable pub upsert : Registry → PhoneEndpoint → Call PhoneEndpoint
  unfolding upsert_over get_endpoint
  upsert r e = upsert_over r e (get_endpoint r e.endpoint_id)

  unfoldable pub update : Registry → Text → List Change → Call PhoneEndpoint
  unfolding sets_endpoint_id sets_active_call_id require upsert adapted new_endpoint changed_by
      draft_of
  update r endpoint_id changes =
      if any sets_endpoint_id changes
      then raise immutable
      else if any sets_active_call_id changes
      then raise call_managed
      else (require r endpoint_id and_then λ previous.
          adapted (new_endpoint u (changed_by changes (draft_of previous))) and_then λ e.
          upsert r e)

  unfoldable pub remove : Registry → Text → Bool → Call PhoneEndpoint
  unfolding require delete key
  remove r endpoint_id force = require r endpoint_id and_then λ e.
      if is_engaged e && not force
      then raise (busy e.endpoint_id e.active_call_id [])
      else return (
        e,
        delete u (key u e.endpoint_id)
            (record { event_type = removed; endpoint = e; previous = some e }) r,
      )
