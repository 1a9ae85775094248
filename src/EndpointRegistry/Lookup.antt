-- ===== src/EndpointRegistry/Lookup.antt =====
-- The lookups of EndpointRegistry in custom_components/voip_stack/endpoint_registry.py.
use esphome_intercom.Prelude.{
  ltb, ◌==◌, if◌then◌else◌, Text, strip, Dict, get, put, Outcome, raise, return, Bool, true, false,
  ◌&&◌, ◌||◌, Option, none, some, List, [], ◌∷◌, map,
}
use esphome_intercom.PhoneEndpoint.{Unicode, PhoneEndpoint, key}
use esphome_intercom.EndpointRegistry.State.{Problem, ambiguous, Registry}
use esphome_intercom.EndpointRegistry.Operations.{get_endpoint}

pub data EndpointLookup : Type 0 where
  by_id : EndpointLookup
  by_device : EndpointLookup
  by_entity : EndpointLookup
  by_called : EndpointLookup
  by_number : EndpointLookup
  by_user : EndpointLookup

-- `_from_index` at the key that the index gives.
unfoldable pub owned_by : Registry → Option Text → Option PhoneEndpoint
unfolding get
owned_by r none = none
owned_by r (some owner_key) = get owner_key r.endpoints

-- The code points of one text come before those of the other.
unfoldable pub le_text : Text → Text → Bool
le_text [] t = true
le_text (c ∷ s) [] = false
le_text (c ∷ s) (d ∷ t) = ltb c d || c == d && le_text s t

unfoldable pub insert_sorted : Text → List Text → List Text
unfolding le_text
insert_sorted s [] = s ∷ []
insert_sorted s (t ∷ ts) = if le_text s t then s ∷ t ∷ ts else t ∷ insert_sorted s ts

unfoldable pub sorted : List Text → List Text
unfolding insert_sorted
sorted [] = []
sorted (s ∷ ss) = insert_sorted s (sorted ss)

-- The comprehension `{endpoint.endpoint_id: endpoint ...}` over the six answers.
unfoldable pub collected : List (Option PhoneEndpoint) → Dict PhoneEndpoint → Dict PhoneEndpoint
unfolding put
collected [] matches = matches
collected (none ∷ rest) matches = collected rest matches
collected (some e ∷ rest) matches = collected rest (put e.endpoint_id e matches)

unfoldable pub the_match : Text → Dict PhoneEndpoint → Outcome Problem (Option PhoneEndpoint)
unfolding sorted strip
the_match value [] = return none
the_match value ((id, e) ∷ []) = return (some e)
the_match value (first ∷ second ∷ rest) =
    raise (ambiguous (strip value) (sorted (map (λ m. m.0) (first ∷ second ∷ rest))))

module _ (u : Unicode) where
  unfoldable pub from_index : Registry → Dict Text → Text → Option PhoneEndpoint
  unfolding owned_by get key
  from_index r index value = owned_by r (get (key u value) index)

  unfoldable pub by_device_id : Registry → Text → Option PhoneEndpoint
  unfolding from_index
  by_device_id r value = from_index r r.device_index value

  unfoldable pub by_entity_id : Registry → Text → Option PhoneEndpoint
  unfolding from_index
  by_entity_id r value = from_index r r.entity_index value

  unfoldable pub by_name : Registry → Text → Option PhoneEndpoint
  unfolding from_index
  by_name r value = from_index r r.name_index value

  unfoldable pub by_extension : Registry → Text → Option PhoneEndpoint
  unfolding from_index
  by_extension r value = from_index r r.extension_index value

  unfoldable pub by_username : Registry → Text → Option PhoneEndpoint
  unfolding from_index
  by_username r value = from_index r r.username_index value

  -- `resolve` with a namespace.
  unfoldable pub resolve_in : Registry → EndpointLookup → Text → Option PhoneEndpoint
  unfolding get_endpoint by_device_id by_entity_id by_name by_extension by_username
  resolve_in r by_id value = get_endpoint u r value
  resolve_in r by_device value = by_device_id r value
  resolve_in r by_entity value = by_entity_id r value
  resolve_in r by_called value = by_name r value
  resolve_in r by_number value = by_extension r value
  resolve_in r by_user value = by_username r value

  -- `resolve` with no namespace.
  unfoldable pub resolve : Registry → Text → Outcome Problem (Option PhoneEndpoint)
  unfolding collected the_match resolve_in
  resolve r value = the_match value (
      collected
        (map (λ lookup. resolve_in r lookup value)
          (by_id ∷ by_device ∷ by_entity ∷ by_called ∷ by_number ∷ by_user ∷ []))
        [])
