-- ===== src/EndpointRegistry/Validation.antt =====
-- `validate` of EndpointRegistry in custom_components/voip_stack/endpoint_registry.py.
use esphome_intercom.Prelude.{
  if◌then◌else◌, Text, codes, eq_text, non_empty, Dict, get, Outcome, raise, return, ◌and_then◌,
  Option, none, some, List, [], ◌∷◌,
}
use esphome_intercom.PhoneEndpoint.{Unicode, PhoneEndpoint, key, normalize_roster_key}
use esphome_intercom.EndpointRegistry.State.{Problem, collision, key_error, Registry}

unfoldable pub raise_collision :
    PhoneEndpoint → Text → Text → PhoneEndpoint → Outcome Problem (Unit {0})
raise_collision e field value owner = raise (collision field value e.endpoint_id owner.endpoint_id)

-- The collision with the endpoint that an index names.
unfoldable pub collide_with :
    PhoneEndpoint → Text → Text → Text → Option PhoneEndpoint → Outcome Problem (Unit {0})
unfolding raise_collision
collide_with e field value owner_key none = raise (key_error owner_key)
collide_with e field value owner_key (some owner) = raise_collision e field value owner

-- `owner_key is None or owner_key == replacing_key`, and the collision where that is false.
unfoldable pub check_owner :
    Registry → PhoneEndpoint → Text → Text → Text → Option Text → Outcome Problem (Unit {0})
unfolding collide_with get eq_text
check_owner r e field value replacing_key none = return tt
check_owner r e field value replacing_key (some owner_key) =
    if eq_text owner_key replacing_key
    then return tt
    else collide_with e field value owner_key (get owner_key r.endpoints)

-- The body of `_validate_index_value`, at the key of the value.
unfoldable pub check_key :
    Registry → PhoneEndpoint → Text → Text → Text → Dict Text → Text → Outcome Problem (Unit {0})
unfolding check_owner get
check_key r e field value value_key index replacing_key =
    if non_empty value_key
    then check_owner r e field value replacing_key (get value_key index)
    else return tt

module _ (u : Unicode) where
  unfoldable pub validate_index_value :
      Registry → PhoneEndpoint → Text → Text → Dict Text → Text → Outcome Problem (Unit {0})
  unfolding check_key key
  validate_index_value r e field value index replacing_key =
      check_key r e field value (key u value) index replacing_key

  -- The loop over the entities.
  unfoldable pub validate_entities :
      Registry → PhoneEndpoint → Text → List Text → Outcome Problem (Unit {0})
  unfolding validate_index_value
  validate_entities r e replacing_key [] = return tt
  validate_entities r e replacing_key (entity_id ∷ rest) =
      validate_index_value r e (codes "entity_id") entity_id r.entity_index replacing_key
      and_then λ _. validate_entities r e replacing_key rest

  -- One round of the loop over name, extension and username.
  unfoldable pub validate_route :
      Registry → PhoneEndpoint → Text → Text → Text → Outcome Problem (Unit {0})
  unfolding check_key normalize_roster_key
  validate_route r e replacing_key field value =
      check_key r e field value (normalize_roster_key u value) r.route_index replacing_key

  -- The first check, at the endpoint that has the identity.
  unfoldable pub check_identity :
      PhoneEndpoint → Text → Option PhoneEndpoint → Outcome Problem (Unit {0})
  unfolding raise_collision key eq_text
  check_identity e replacing_key none = return tt
  check_identity e replacing_key (some existing) =
      if eq_text (key u e.endpoint_id) replacing_key
      then return tt
      else raise_collision e (codes "endpoint_id") e.endpoint_id existing

  -- `validate`, at the key of the endpoint that is replaced; the key of None is the empty text.
  unfoldable pub validate : Registry → PhoneEndpoint → Text → Outcome Problem (Unit {0})
  unfolding check_identity validate_index_value validate_entities validate_route get key
  validate r e replacing_key =
      check_identity e replacing_key (get (key u e.endpoint_id) r.endpoints) and_then λ _.
      validate_index_value r e (codes "device_id") e.device_id r.device_index replacing_key
      and_then λ _. validate_entities r e replacing_key e.entity_ids and_then λ _.
          validate_route r e replacing_key (codes "name") e.name and_then λ _.
          validate_route r e replacing_key (codes "extension") e.extension and_then λ _.
          validate_route r e replacing_key (codes "username") e.username
