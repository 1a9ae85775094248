-- ===== src/EndpointRegistry/Kept.antt =====
-- The call that an endpoint of EndpointRegistry is engaged in, custom_components/voip_stack/endpoint_registry.py.
use esphome_intercom.Prelude.{
  ◌==◌, if◌then◌else◌, Bool-cases, any, Text, eq_text, eq_text_refl, eq_text_sound, get, get-put,
  get-pop, raise, ◌≡◌, refl, ap, ◌∙◌, inl, inr, Bool, true, false, not, ◌&&◌, none, some, List, [],
  arith,
}
use esphome_intercom.PhoneEndpoint.{Unicode, PhoneEndpoint, key}
use esphome_intercom.EndpointRegistry.State.{busy, removed, Registry, empty_registry, subscribe}
use esphome_intercom.EndpointRegistry.Operations.{is_engaged, register, upsert, remove}
use esphome_intercom.EndpointRegistry.Runs.{
  Op, op_register, op_upsert, op_update, op_remove, op_claim, op_release, op_sync, op_adopt,
  op_subscribe, op_unsubscribe, apply, run, frees,
}
use esphome_intercom.EndpointRegistry.Indexed.{IsIndexed, store_endpoints, delete_endpoints}
use esphome_intercom.EndpointRegistry.Stored.{
  after, if_after, Stores, leaves, stores, register-Stores, upsert-Stores,
}
use esphome_intercom.EndpointRegistry.Recalled.{Recalls, Recalls-get}
use esphome_intercom.EndpointRegistry.Effects.{
  after_require, claim_call-Recalls, release_call-Recalls, sync_transport_call-Recalls,
  adopt_transport_call-Recalls,
}
use esphome_intercom.EndpointRegistry.Invariant.{made_Stores, update-Stores, run-IsIndexed}

-- An endpoint stands under the key, with the call.
abbrev pub Holds : Text → Text → Registry → Type 0
Holds k call r = (d : PhoneEndpoint) × (get k r.endpoints ≡ some d) × (d.active_call_id ≡ call)

module _ (u : Unicode) (k : Text) (e : PhoneEndpoint) where
  Stores-Holds :
      {r s : Registry}
      → Stores u r s
      → get k r.endpoints ≡ some e
      → is_engaged e ≡ true
      → Holds k e.active_call_id s
  Stores-Holds leaves found engaged = (e, found, refl)
  Stores-Holds {r} (stores d event w same) found engaged =
      let now =
        ap (get k) (store_endpoints u (key u d.endpoint_id) d event r)
        ∙ get-put k (key u d.endpoint_id) d r.endpoints in
      elim (Bool-cases (eq_text (key u d.endpoint_id) k)) [
        | inl here ↦ (
          d,
          now ∙ ap (λ b. if b then some d else get k r.endpoints) here,
          same e (rw (eq_text_sound (key u d.endpoint_id) k here) found) engaged,
        )
        | inr there ↦
            (e, now ∙ ap (λ b. if b then some d else get k r.endpoints) there ∙ found, refl)
      ]

  Recalls-Holds :
      {allows : PhoneEndpoint → Bool} {r s : Registry}
      → Recalls u allows r s
      → get k r.endpoints ≡ some e
      → allows e ≡ false
      → Holds k e.active_call_id s
  Recalls-Holds moved found barred = (e, Recalls-get u k e moved found barred, refl)

  -- The endpoint that is removed is another one.
  removed_other :
      (r : Registry) (id : Text) (force : Bool) (d : PhoneEndpoint)
      → k ≡ key u e.endpoint_id
      → get k r.endpoints ≡ some e
      → is_engaged e ≡ true
      → (force && eq_text (key u id) (key u e.endpoint_id)) ≡ false
      → get (key u d.endpoint_id) r.endpoints ≡ some d
      → key u id ≡ key u d.endpoint_id
      → (is_engaged d && not force) ≡ false
      → eq_text (key u d.endpoint_id) k ≡ false
  removed_other r id force d own found engaged barred there same freed =
      ground (arith, eq_text_sound (key u d.endpoint_id) k, eq_text_refl (key u id))

  remove-Holds :
      (r : Registry) (id : Text) (force : Bool)
      → IsIndexed u r
      → get k r.endpoints ≡ some e
      → is_engaged e ≡ true
      → (force && eq_text (key u id) (key u e.endpoint_id)) ≡ false
      → Holds k e.active_call_id (after r (remove u r id force))
  unfolding remove
  remove-Holds r id force i found engaged barred =
      let own = (i.roster.keyed k e found).0 in
      after_require u (Holds k e.active_call_id) r id _ i (e, found, refl)
        (λ d there same.
          if_after (Holds k e.active_call_id) r (is_engaged d && not force)
            (raise (busy d.endpoint_id d.active_call_id [])) _ (λ _. (e, found, refl))
            (λ freed. (
              e,
              ap (get k) (
                    delete_endpoints u (key u d.endpoint_id)
                      (record { event_type = removed; endpoint = d; previous = some d }) r)
                  ∙ get-pop k (key u d.endpoint_id) r.endpoints
                  ∙ (ap (λ b. if b then none else get k r.endpoints)
                        (removed_other r id force d own found engaged barred there same freed)
                      ∙ found),
              refl,
            )))

  apply-Holds :
      (op : Op) (r : Registry)
      → IsIndexed u r
      → get k r.endpoints ≡ some e
      → is_engaged e ≡ true
      → frees u op e ≡ false
      → Holds k e.active_call_id (apply u op r)
  unfolding apply subscribe
  apply-Holds (op_register d) r i found engaged barred =
      Stores-Holds (made_Stores u r d (register u r) (λ d' named. register-Stores u r d' i named))
        found engaged
  apply-Holds (op_upsert d) r i found engaged barred =
      Stores-Holds (made_Stores u r d (upsert u r) (λ d' named. upsert-Stores u r d' i named)) found
        engaged
  apply-Holds (op_update id changes) r i found engaged barred =
      Stores-Holds (update-Stores u r id changes i) found engaged
  apply-Holds (op_remove id force) r i found engaged barred =
      remove-Holds r id force i found engaged barred
  apply-Holds (op_claim id call) r i found engaged barred =
      Recalls-Holds (claim_call-Recalls u r id call i) found (ground arith)
  apply-Holds (op_release id call) r i found engaged barred =
      Recalls-Holds (release_call-Recalls u r id call i) found barred
  apply-Holds (op_sync id active fallback) r i found engaged barred =
      Recalls-Holds (sync_transport_call-Recalls u r id fallback active i) found (ground arith)
  apply-Holds (op_adopt id call prefix) r i found engaged barred =
      Recalls-Holds (adopt_transport_call-Recalls u r id call prefix i) found (ground arith)
  apply-Holds (op_subscribe listener) r i found engaged barred =
      elim (Bool-cases (any (λ known. known == listener) r.listeners)) [
        | inl old ↦ simp old (e, found, refl)
        | inr new ↦ simp new (e, found, refl)
      ]
  apply-Holds (op_unsubscribe listener) r i found engaged barred = (e, found, refl)

-- After any sequence of registry calls, an endpoint that is engaged in a call stays registered with
-- that call over the next registry call, unless this is the release of its own call, the end of a
-- physical call, the adoption of a call id with the provisional prefix, or a forced removal, of
-- this endpoint.
pub apply-keeps_claim :
    (u : Unicode) (ops : List Op) (op : Op) (k : Text) (e : PhoneEndpoint)
    → get k (run u ops empty_registry).endpoints ≡ some e
    → is_engaged e ≡ true
    → frees u op e ≡ false
    → Holds k e.active_call_id (apply u op (run u ops empty_registry))
apply-keeps_claim u ops op k e found engaged barred =
    apply-Holds u k e op (run u ops empty_registry) (run-IsIndexed u ops) found engaged barred
