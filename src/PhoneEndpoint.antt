-- ===== src/PhoneEndpoint.antt =====
-- One logical phone, after custom_components/voip_stack/phone_endpoint.py, and the roster key of
-- custom_components/voip_stack/roster.py that its route aliases are compared by.
use esphome_intercom.Prelude.{
  ◌==◌, if◌then◌else◌, Text, codes, eq_text, non_empty, mem_text, strip, Outcome, raise, return,
  ◌and_then◌, ℕ, ◌≡◌, Bool, true, false, not, ◌&&◌, List, [], ◌∷◌, map,
}

-- What Python takes from the Unicode tables and from `urllib.parse`.
pub record Unicode : Type 0 where
  pub casefold : Text → Text
  pub lower_case : Text → Text
  pub is_alnum : ℕ → Bool
  pub unquote : Text → Text
  pub casefold_empty : casefold [] ≡ []
  pub casefold_keeps : (s : Text) → non_empty s ≡ true → non_empty (casefold s) ≡ true

pub data EndpointKind : Type 0 where
  browser : EndpointKind
  sip_account : EndpointKind
  esphome : EndpointKind

pub data EndpointAvailability : Type 0 where
  available : EndpointAvailability
  offline : EndpointAvailability
  unavailable : EndpointAvailability

-- The members UNAVAILABLE and FORWARD.
pub data OfflinePolicy : Type 0 where
  refuse : OfflinePolicy
  forward : OfflinePolicy

-- The reasons of an EndpointValidationError.
pub data Invalid : Type 0 where
  empty_field : Text → Invalid
  unsupported_kind : Text → Invalid
  unsupported_availability : Text → Invalid
  unsupported_policy : Text → Invalid
  not_boolean : Text → Invalid
  not_iterable : Text → Invalid
  forward_target_required : Invalid
  browser_policy : Invalid

pub record PhoneEndpoint : Type 0 where
  pub endpoint_id : Text
  pub name : Text
  pub kind : EndpointKind
  pub extension : Text
  pub username : Text
  pub device_id : Text
  pub entity_ids : List Text
  pub availability : EndpointAvailability
  pub capabilities : List Text
  pub dnd : Bool
  pub auto_answer : Bool
  pub send_video : Bool
  pub offline_policy : OfflinePolicy
  pub ring_group : Text
  pub conference_group : Text
  pub conference_ring : Bool
  pub offline_forward_target : Text
  pub active_call_id : Text

-- A value that `_boolean` is given.
pub data Flag : Type 0 where
  flag_bool : Bool → Flag
  flag_int : ℕ → Flag
  flag_text : Text → Flag
  flag_other : Flag

-- A value that `_token_set` and `_entity_id_set` are given.
pub data Values : Type 0 where
  absent : Values
  single : Text → Values
  several : List Text → Values
  scalar : Values

-- The fields as the constructor is given them, before `__post_init__` checks them.
pub record Draft : Type 0 where
  pub endpoint_id : Text
  pub name : Text
  pub kind : Text
  pub extension : Text
  pub username : Text
  pub device_id : Text
  pub entity_ids : Values
  pub availability : Text
  pub capabilities : Values
  pub dnd : Flag
  pub auto_answer : Flag
  pub send_video : Flag
  pub offline_policy : Text
  pub ring_group : Text
  pub conference_group : Text
  pub conference_ring : Flag
  pub offline_forward_target : Text
  pub active_call_id : Text

unfoldable pub required_text : Text → Text → Outcome Invalid Text
unfolding strip
required_text value field_name =
    if non_empty (strip value) then return (strip value) else raise (empty_field field_name)

-- The texts that are not empty.
unfoldable pub filled : List Text → List Text
filled [] = []
filled (s ∷ ss) = if non_empty s then s ∷ filled ss else filled ss

unfoldable pub iterated : Values → Text → Outcome Invalid (List Text)
iterated absent field_name = return []
iterated (single s) field_name = return (s ∷ [])
iterated (several ss) field_name = return ss
iterated scalar field_name = raise (not_iterable field_name)

unfoldable pub entity_id_set : Values → Outcome Invalid (List Text)
unfolding iterated filled strip
entity_id_set values =
    iterated values (codes "entity_ids") and_then λ items. return (filled (map strip items))

-- EndpointKind(value), EndpointAvailability(value), OfflinePolicy(value)
unfoldable pub kind_of : Text → Outcome Invalid EndpointKind
unfolding eq_text
kind_of value =
    if eq_text value (codes "browser")
    then return browser
    else if eq_text value (codes "sip_account")
    then return sip_account
    else if eq_text value (codes "esphome")
    then return esphome
    else raise (unsupported_kind value)

unfoldable pub availability_of : Text → Outcome Invalid EndpointAvailability
unfolding eq_text
availability_of value =
    if eq_text value (codes "available")
    then return available
    else if eq_text value (codes "offline")
    then return offline
    else if eq_text value (codes "unavailable")
    then return unavailable
    else raise (unsupported_availability value)

unfoldable pub policy_of : Text → Outcome Invalid OfflinePolicy
unfolding eq_text
policy_of value =
    if eq_text value (codes "unavailable")
    then return refuse
    else if eq_text value (codes "forward")
    then return forward
    else raise (unsupported_policy value)

-- The two checks at the end of `__post_init__`.
unfoldable pub check_policy : EndpointKind → OfflinePolicy → Text → Outcome Invalid (Unit {0})
check_policy sip_account refuse target = return tt
check_policy esphome refuse target = return tt
check_policy browser refuse target = if non_empty target then raise browser_policy else return tt
check_policy browser forward target =
    if non_empty target then raise browser_policy else raise forward_target_required
check_policy sip_account forward target =
    if non_empty target then return tt else raise forward_target_required
check_policy esphome forward target =
    if non_empty target then return tt else raise forward_target_required

module _ (u : Unicode) where
  open u use {casefold, lower_case, is_alnum, unquote}

  -- `_key` of the registry, at a text.
  unfoldable pub key : Text → Text
  unfolding strip
  key value = casefold (strip value)

  unfoldable pub kept_chars : Text → Text
  kept_chars [] = []
  kept_chars (c ∷ s) = if is_alnum c then c ∷ kept_chars s else kept_chars s

  unfoldable pub normalize_roster_key : Text → Text
  unfolding kept_chars strip
  normalize_roster_key value = kept_chars (lower_case (strip (unquote value)))

  unfoldable pub token_set : Values → Text → Outcome Invalid (List Text)
  unfolding iterated filled key
  token_set values field_name =
      iterated values field_name and_then λ items. return (filled (map key items))

  unfoldable pub boolean : Flag → Text → Outcome Invalid Bool
  unfolding key mem_text
  boolean (flag_bool b) field_name = return b
  boolean (flag_int n) field_name =
      if n == 0
      then return false
      else if n == 1
      then return true
      else raise (not_boolean field_name)
  boolean (flag_text s) field_name =
      if mem_text (key s) (codes "1" ∷ codes "true" ∷ codes "yes" ∷ codes "on" ∷ [])
      then return true
      else if mem_text (key s) (codes "0" ∷ codes "false" ∷ codes "no" ∷ codes "off" ∷ [] ∷ [])
      then return false
      else raise (not_boolean field_name)
  boolean flag_other field_name = raise (not_boolean field_name)

  -- `PhoneEndpoint(...)`: what `__post_init__` makes of the fields.
  unfoldable pub new_endpoint : Draft → Outcome Invalid PhoneEndpoint
  unfolding required_text kind_of availability_of policy_of entity_id_set token_set boolean
      check_policy strip
  new_endpoint d = required_text d.endpoint_id (codes "endpoint_id") and_then λ id.
      required_text d.name (codes "name") and_then λ called. kind_of d.kind and_then λ sort.
      availability_of d.availability and_then λ reach. policy_of d.offline_policy and_then λ policy.
      entity_id_set d.entity_ids and_then λ entities.
      token_set d.capabilities (codes "capabilities") and_then λ tokens.
      boolean d.dnd (codes "dnd") and_then λ quiet.
      boolean d.auto_answer (codes "auto_answer") and_then λ auto.
      boolean d.send_video (codes "send_video") and_then λ video.
      boolean d.conference_ring (codes "conference_ring") and_then λ ring.
      check_policy sort policy (strip d.offline_forward_target) and_then λ _. return (record {
        endpoint_id = id;
        name = called;
        kind = sort;
        extension = strip d.extension;
        username = strip d.username;
        device_id = strip d.device_id;
        entity_ids = entities;
        availability = reach;
        capabilities = tokens;
        dnd = quiet;
        auto_answer = auto;
        send_video = video;
        offline_policy = policy;
        ring_group = strip d.ring_group;
        conference_group = strip d.conference_group;
        conference_ring = ring;
        offline_forward_target = strip d.offline_forward_target;
        active_call_id = strip d.active_call_id;
      })

  -- The loop of `route_aliases` over name, extension and username.
  unfoldable pub aliases_among : List Text → List Text → List Text
  unfolding mem_text
  aliases_among seen [] = []
  aliases_among seen (value ∷ rest) =
      if non_empty value && not (mem_text (casefold value) seen)
      then value ∷ aliases_among (casefold value ∷ seen) rest
      else aliases_among seen rest

  unfoldable pub route_aliases : PhoneEndpoint → List Text
  unfolding aliases_among
  route_aliases e = aliases_among [] (e.name ∷ e.extension ∷ e.username ∷ [])

  unfoldable pub supports : PhoneEndpoint → Text → Bool
  unfolding mem_text key
  supports e capability = mem_text (key capability) e.capabilities
