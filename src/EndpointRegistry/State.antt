-- ===== src/EndpointRegistry/State.antt =====
-- The state of EndpointRegistry in custom_components/voip_stack/endpoint_registry.py, the rebuilding
-- of its indexes and the delivery of its events.
use esphome_intercom.Prelude.{
  ◌==◌, if◌then◌else◌, any, Text, non_empty, Dict, put, pop, ℕ, Option, List, [], ◌∷◌, ◌++◌, map,
}
use esphome_intercom.PhoneEndpoint.{
  Unicode, Invalid, PhoneEndpoint, key, normalize_roster_key, route_aliases,
}

-- EndpointRegistryError and its subclasses, and the KeyError of an index that names no endpoint.
pub data Problem : Type 0 where
  invalid : Invalid → Problem
  not_found : Text → Problem
  collision : Text → Text → Text → Text → Problem
  ambiguous : Text → List Text → Problem
  busy : Text → Text → Text → Problem
  immutable : Problem
  call_managed : Problem
  empty_call : Problem
  no_fallback : Problem
  key_error : Text → Problem

pub data EventType : Type 0 where
  registered : EventType
  updated : EventType
  removed : EventType

pub record Event : Type 0 where
  pub event_type : EventType
  pub endpoint : PhoneEndpoint
  pub previous : Option PhoneEndpoint

-- `delivered` is what the listeners, which stand as numbers, have been called with, the latest last.
pub record Registry : Type 0 where
  pub endpoints : Dict PhoneEndpoint
  pub device_index : Dict Text
  pub entity_index : Dict Text
  pub name_index : Dict Text
  pub extension_index : Dict Text
  pub username_index : Dict Text
  pub route_index : Dict Text
  pub listeners : List ℕ
  pub delivered : List (ℕ × Event)

abbrev pub empty_registry : Registry
empty_registry = record {
  endpoints = [];
  device_index = [];
  entity_index = [];
  name_index = [];
  extension_index = [];
  username_index = [];
  route_index = [];
  listeners = [];
  delivered = [];
}

-- The body of `_add_index`, at the key of the value; `_rebuild_indexes` guards a route key so too.
unfoldable pub add_key : Text → Text → Dict Text → Dict Text
unfolding put
add_key value_key owner index = if non_empty value_key then put value_key owner index else index

unfoldable pub add_keys : List Text → Text → Dict Text → Dict Text
unfolding add_key
add_keys [] owner index = index
add_keys (value_key ∷ rest) owner index = add_keys rest owner (add_key value_key owner index)

unfoldable pub subscribe : ℕ → Registry → Registry
subscribe listener r =
    if any (λ known. known == listener) r.listeners
    then r
    else record r { listeners = r.listeners ++ listener ∷ [] }

-- listeners.discard_listener(listener)
unfoldable pub discard_listener : ℕ → List ℕ → List ℕ
discard_listener listener [] = []
discard_listener listener (known ∷ rest) =
    if known == listener
    then discard_listener listener rest
    else known ∷ discard_listener listener rest

unfoldable pub unsubscribe : ℕ → Registry → Registry
unfolding discard_listener
unsubscribe listener r = record r { listeners = discard_listener listener r.listeners }

unfoldable pub emit : Event → Registry → Registry
emit event r = record r {
  delivered = r.delivered ++ map (λ listener. (listener, event)) r.listeners;
}

module _ (u : Unicode) where
  -- The body of the loop of `_rebuild_indexes`.
  unfoldable pub index_endpoint : Text → PhoneEndpoint → Registry → Registry
  unfolding add_key add_keys key normalize_roster_key route_aliases
  index_endpoint owner e r = record r {
    device_index = add_key (key u e.device_id) owner r.device_index;
    entity_index = add_keys (map (key u) e.entity_ids) owner r.entity_index;
    name_index = add_key (key u e.name) owner r.name_index;
    extension_index = add_key (key u e.extension) owner r.extension_index;
    username_index = add_key (key u e.username) owner r.username_index;
    route_index = add_keys (map (normalize_roster_key u) (route_aliases u e)) owner r.route_index;
  }

  unfoldable pub index_all : Dict PhoneEndpoint → Registry → Registry
  unfolding index_endpoint
  index_all [] r = r
  index_all ((owner, e) ∷ rest) r = index_all rest (index_endpoint owner e r)

  unfoldable pub rebuild_indexes : Registry → Registry
  unfolding index_all
  rebuild_indexes r = index_all r.endpoints (record r {
    device_index = [];
    entity_index = [];
    name_index = [];
    extension_index = [];
    username_index = [];
    route_index = [];
  })

  -- `self._endpoints[k] = endpoint`, the rebuilding and the event, which every mutation ends with.
  unfoldable pub store : Text → PhoneEndpoint → Event → Registry → Registry
  unfolding rebuild_indexes emit put
  store k e event r = emit event (rebuild_indexes (record r { endpoints = put k e r.endpoints }))

  -- `del self._endpoints[k]` and the same.
  unfoldable pub delete : Text → Event → Registry → Registry
  unfolding rebuild_indexes emit pop
  delete k event r = emit event (rebuild_indexes (record r { endpoints = pop k r.endpoints }))
