-- ===== src/EndpointRegistry/Invariant.antt =====
-- Sequences of calls of EndpointRegistry, custom_components/voip_stack/endpoint_registry.py, and the agreement of
-- its indexes with its endpoints.
use esphome_intercom.Prelude.{
  ◌==◌, Bool-cases, any, Text, non_empty, get, unique_keys, raise, ◌and_then◌, Outcome-cases, ℕ,
  ◌≡◌, refl, inl, inr, Bool, true, not, ◌&&◌, List, [], ◌∷◌, ◌++◌,
}
use esphome_intercom.PhoneEndpoint.{Unicode, PhoneEndpoint, Draft, key, new_endpoint}
use esphome_intercom.EndpointRegistry.State.{
  busy, immutable, call_managed, Registry, empty_registry, subscribe, discard_listener,
}
use esphome_intercom.EndpointRegistry.Operations.{
  Call, is_engaged, draft_of, Change, changed_by, sets_endpoint_id, sets_active_call_id, adapted,
  register, upsert, update, remove,
}
use esphome_intercom.EndpointRegistry.Runs.{
  Op, op_register, op_upsert, op_update, op_remove, op_claim, op_release, op_sync, op_adopt,
  op_subscribe, op_unsubscribe, apply, run,
}
use esphome_intercom.EndpointRegistry.Index.{build}
use esphome_intercom.EndpointRegistry.Indexed.{IsIndexed, delete-IsIndexed}
use esphome_intercom.EndpointRegistry.Stored.{
  after, if_after, Stores, leaves, Stores-IsIndexed, register-Stores, upsert-Stores,
}
use esphome_intercom.EndpointRegistry.Named.{new_endpoint-key}
use esphome_intercom.EndpointRegistry.Recalled.{Recalls-IsIndexed}
use esphome_intercom.EndpointRegistry.Effects.{
  after_require, claim_call-Recalls, release_call-Recalls, sync_transport_call-Recalls,
  adopt_transport_call-Recalls,
}

module _ (u : Unicode) where
  pub made_Stores :
      (r : Registry) (d : Draft) (next : PhoneEndpoint → Call PhoneEndpoint)
      → ((e : PhoneEndpoint)
          → non_empty (key u e.endpoint_id) ≡ true
          → Stores u r (after r (next e)))
      → Stores u r (after r (adapted (new_endpoint u d) and_then next))
  unfolding adapted
  made_Stores r d next kept = elim (Outcome-cases (new_endpoint u d)) [
    | inl (problem, raised) ↦ rw raised leaves
    | inr (e, made) ↦ rw made (kept e (new_endpoint-key u d e made))
  ]

  pub update-Stores :
      (r : Registry) (id : Text) (changes : List Change)
      → IsIndexed u r
      → Stores u r (after r (update u r id changes))
  unfolding update
  update-Stores r id changes i =
      let P = Stores u r in
      if_after P r (any sets_endpoint_id changes) (raise immutable) _ (λ _. leaves)
        (λ _.
          if_after P r (any sets_active_call_id changes) (raise call_managed) _ (λ _. leaves)
            (λ _. after_require u P r id _ i leaves (λ previous there own.
              made_Stores r (changed_by changes (draft_of previous)) (upsert u r)
                (λ e named. upsert-Stores u r e i named))))

  remove-IsIndexed :
      (r : Registry) (id : Text) (force : Bool)
      → IsIndexed u r
      → IsIndexed u (after r (remove u r id force))
  unfolding remove
  remove-IsIndexed r id force i = after_require u (IsIndexed u) r id _ i i (λ e there own.
      if_after (IsIndexed u) r (is_engaged e && not force)
        (raise (busy e.endpoint_id e.active_call_id [])) _ (λ _. i)
        (λ _. delete-IsIndexed u (key u e.endpoint_id) _ r i))

  same_endpoints-IsIndexed :
      (r : Registry) (known : List ℕ) → IsIndexed u r → IsIndexed u (record r { listeners = known })
  same_endpoints-IsIndexed r known i = record {
    roster = i.roster;
    device_built = i.device_built;
    entity_built = i.entity_built;
    route_built = i.route_built;
  }

  subscribe-IsIndexed :
      (r : Registry) (listener : ℕ) → IsIndexed u r → IsIndexed u (subscribe listener r)
  unfolding subscribe
  subscribe-IsIndexed r listener i =
      elim (Bool-cases (any (λ known. known == listener) r.listeners)) [
        | inl old ↦ simp old i
        | inr new ↦ simp new (same_endpoints-IsIndexed r (r.listeners ++ listener ∷ []) i)
      ]

  apply-IsIndexed : (op : Op) (r : Registry) → IsIndexed u r → IsIndexed u (apply u op r)
  unfolding apply
  apply-IsIndexed (op_register d) r i =
      Stores-IsIndexed u (made_Stores r d (register u r) (λ e named. register-Stores u r e i named))
        i
  apply-IsIndexed (op_upsert d) r i =
      Stores-IsIndexed u (made_Stores r d (upsert u r) (λ e named. upsert-Stores u r e i named)) i
  apply-IsIndexed (op_update id changes) r i = Stores-IsIndexed u (update-Stores r id changes i) i
  apply-IsIndexed (op_remove id force) r i = remove-IsIndexed r id force i
  apply-IsIndexed (op_claim id call) r i = Recalls-IsIndexed u (claim_call-Recalls u r id call i) i
  apply-IsIndexed (op_release id call) r i =
      Recalls-IsIndexed u (release_call-Recalls u r id call i) i
  apply-IsIndexed (op_sync id active fallback) r i =
      Recalls-IsIndexed u (sync_transport_call-Recalls u r id fallback active i) i
  apply-IsIndexed (op_adopt id call prefix) r i =
      Recalls-IsIndexed u (adopt_transport_call-Recalls u r id call prefix i) i
  apply-IsIndexed (op_subscribe listener) r i = subscribe-IsIndexed r listener i
  apply-IsIndexed (op_unsubscribe listener) r i =
      same_endpoints-IsIndexed r (discard_listener listener r.listeners) i

  empty_registry-IsIndexed : IsIndexed u empty_registry
  unfolding get build unique_keys
  empty_registry-IsIndexed = record {
    roster = record {
      unique = refl;
      keyed = λ k e h. cc;
      devices = λ t j k d e h. cc;
      entities = λ t j k d e h. cc;
      routes = λ t j k d e h. cc;
    };
    device_built = refl;
    entity_built = refl;
    route_built = refl;
  }

  run-IsIndexed_from : (ops : List Op) (r : Registry) → IsIndexed u r → IsIndexed u (run u ops r)
  unfolding run
  run-IsIndexed_from [] r i = i
  run-IsIndexed_from (op ∷ ops) r i = run-IsIndexed_from ops (apply u op r) (apply-IsIndexed op r i)

  -- After any sequence of registry calls, each endpoint stands once under its own non-empty key, no
  -- two endpoints claim one device, one entity or one route alias, and these three indexes are
  -- those that the endpoints give.
  pub run-IsIndexed : (ops : List Op) → IsIndexed u (run u ops empty_registry)
  run-IsIndexed ops = run-IsIndexed_from ops empty_registry empty_registry-IsIndexed
