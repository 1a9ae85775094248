-- ===== src/EndpointRegistry/Indexed.antt =====
-- The agreement of the indexes and the endpoints of EndpointRegistry,
-- custom_components/voip_stack/endpoint_registry.py, under `store` and `delete`.
use esphome_intercom.Prelude.{
  Text, eq_text_sound, non_empty, Dict, get, put, pop, unique_keys, get-put, get-pop,
  unique_keys-put, unique_keys-pop, ◌≡◌, refl, sym, ap, ◌∙◌, subst, true, some, [], ◌∷◌, arith,
}
use esphome_intercom.PhoneEndpoint.{Unicode, PhoneEndpoint, key}
use esphome_intercom.EndpointRegistry.State.{
  Event, Registry, add_keys, emit, index_endpoint, index_all, rebuild_indexes, store, delete,
}
use esphome_intercom.EndpointRegistry.Index.{build, Exclusive, put-Exclusive, pop-Exclusive}
use esphome_intercom.EndpointRegistry.Passed.{device_claims, entity_claims, route_claims, IsFree}

module _ (u : Unicode) where
  -- The endpoints stand under their own keys, and no two claim one device, entity or route.
  pub record IsRoster (m : Dict PhoneEndpoint) : Type 0 where
    pub unique : unique_keys m ≡ true
    pub keyed :
        (k : Text) (e : PhoneEndpoint)
        → get k m ≡ some e
        → (k ≡ key u e.endpoint_id) × (non_empty k ≡ true)
    pub devices : Exclusive (device_claims u) m
    pub entities : Exclusive (entity_claims u) m
    pub routes : Exclusive (route_claims u) m

  -- The three indexes are those of the endpoints.
  pub record IsIndexed (r : Registry) : Type 0 where
    pub roster : IsRoster r.endpoints
    pub device_built : r.device_index ≡ build (device_claims u) r.endpoints []
    pub entity_built : r.entity_index ≡ build (entity_claims u) r.endpoints []
    pub route_built : r.route_index ≡ build (route_claims u) r.endpoints []

  index_all_lem :
      (m : Dict PhoneEndpoint) (r : Registry)
      → ((index_all u m r).endpoints ≡ r.endpoints)
        × ((index_all u m r).device_index ≡ build (device_claims u) m r.device_index)
        × ((index_all u m r).entity_index ≡ build (entity_claims u) m r.entity_index)
        × ((index_all u m r).route_index ≡ build (route_claims u) m r.route_index)
  unfolding index_all build add_keys
  index_all_lem [] r = (refl, refl, refl, refl)
  index_all_lem ((k, e) ∷ rest) r = index_all_lem rest (index_endpoint u k e r)

  built-IsIndexed :
      (m : Dict PhoneEndpoint) (s : Registry)
      → IsRoster m
      → s.endpoints ≡ m
      → s.device_index ≡ build (device_claims u) m []
      → s.entity_index ≡ build (entity_claims u) m []
      → s.route_index ≡ build (route_claims u) m []
      → IsIndexed s
  built-IsIndexed m s i same ds es rs = record {
    roster = subst IsRoster (sym same) i;
    device_built = ds ∙ ap (λ n. build (device_claims u) n []) (sym same);
    entity_built = es ∙ ap (λ n. build (entity_claims u) n []) (sym same);
    route_built = rs ∙ ap (λ n. build (route_claims u) n []) (sym same);
  }

  rebuild_indexes-IsIndexed :
      (r : Registry) → IsRoster r.endpoints → IsIndexed (rebuild_indexes u r)
  unfolding rebuild_indexes
  rebuild_indexes-IsIndexed r i =
      let (es, ds, ns, rs) = index_all_lem r.endpoints _ in
      built-IsIndexed r.endpoints (rebuild_indexes u r) i es ds ns rs

  emit-IsIndexed : (event : Event) (r : Registry) → IsIndexed r → IsIndexed (emit event r)
  unfolding emit
  emit-IsIndexed event r i =
      built-IsIndexed r.endpoints (emit event r) i.roster refl i.device_built i.entity_built
        i.route_built

  pub store_endpoints :
      (k : Text) (e : PhoneEndpoint) (event : Event) (r : Registry)
      → (store u k e event r).endpoints ≡ put k e r.endpoints
  unfolding store rebuild_indexes
  store_endpoints k e event r = (index_all_lem (put k e r.endpoints) _).0

  pub delete_endpoints :
      (k : Text) (event : Event) (r : Registry) → (delete u k event r).endpoints ≡ pop k r.endpoints
  unfolding delete rebuild_indexes
  delete_endpoints k event r = (index_all_lem (pop k r.endpoints) _).0

  put-IsRoster :
      (k : Text) (e : PhoneEndpoint) (m : Dict PhoneEndpoint)
      → IsRoster m
      → k ≡ key u e.endpoint_id
      → non_empty k ≡ true
      → IsFree (device_claims u e) (build (device_claims u) m []) k
      → IsFree (entity_claims u e) (build (entity_claims u) m []) k
      → IsFree (route_claims u e) (build (route_claims u) m []) k
      → IsRoster (put k e m)
  put-IsRoster k e m i own solid ds es rs = record {
    unique = unique_keys-put k e m i.unique;
    keyed = λ j d found. ground (arith, get-put j k e m, eq_text_sound k j, i.keyed j d);
    devices = put-Exclusive (device_claims u) k e m i.unique i.devices ds;
    entities = put-Exclusive (entity_claims u) k e m i.unique i.entities es;
    routes = put-Exclusive (route_claims u) k e m i.unique i.routes rs;
  }

  pop-IsRoster : (k : Text) (m : Dict PhoneEndpoint) → IsRoster m → IsRoster (pop k m)
  pop-IsRoster k m i = record {
    unique = unique_keys-pop k m i.unique;
    keyed = λ j d found. i.keyed j d (ground (arith, get-pop j k m));
    devices = pop-Exclusive (device_claims u) k m i.devices;
    entities = pop-Exclusive (entity_claims u) k m i.entities;
    routes = pop-Exclusive (route_claims u) k m i.routes;
  }

  pub store-IsIndexed :
      (k : Text) (e : PhoneEndpoint) (event : Event) (r : Registry)
      → IsIndexed r
      → k ≡ key u e.endpoint_id
      → non_empty k ≡ true
      → IsFree (device_claims u e) r.device_index k
      → IsFree (entity_claims u e) r.entity_index k
      → IsFree (route_claims u e) r.route_index k
      → IsIndexed (store u k e event r)
  unfolding store
  store-IsIndexed k e event r i own solid ds es rs = emit-IsIndexed event _ (
      rebuild_indexes-IsIndexed (record r { endpoints = put k e r.endpoints })
        (put-IsRoster k e r.endpoints i.roster own solid
          (subst (λ index. IsFree (device_claims u e) index k) i.device_built ds)
          (subst (λ index. IsFree (entity_claims u e) index k) i.entity_built es)
          (subst (λ index. IsFree (route_claims u e) index k) i.route_built rs)))

  pub delete-IsIndexed :
      (k : Text) (event : Event) (r : Registry) → IsIndexed r → IsIndexed (delete u k event r)
  unfolding delete
  delete-IsIndexed k event r i = emit-IsIndexed event _ (
      rebuild_indexes-IsIndexed (record r { endpoints = pop k r.endpoints })
        (pop-IsRoster k r.endpoints i.roster))
