-- ===== src/CallRegistry/Released.antt =====
-- `release_endpoint_claims` of custom_components/voip_stack/call_registry.py, on the registry of
-- endpoint_registry.py.
use esphome_intercom.Prelude.{
  Bool-cases, Text, eq_text, eq_text_sound, non_empty, strip, Dict, get, has, has-pop_self, return,
  ◌≡◌, refl, sym, ap, ◌∙◌, subst, inl, inr, Bool, true, false, not, ◌||◌, Option, none, some, List,
  [], ◌∷◌, arith,
}
use esphome_intercom.EndpointRegistry.Runs.{Op, run}
use esphome_intercom.EndpointRegistry.Invariant.{run-IsIndexed}
use esphome_intercom.CallRegistry.{resolve_session_id}
use esphome_intercom.PhoneEndpoint.{Unicode, PhoneEndpoint, key}
use esphome_intercom.EndpointRegistry.Lifecycle.{release_call_lem, get-replace_runtime}
use esphome_intercom.EndpointRegistry.Effects.{if_second, is_own_call, release_call-Recalls}
use esphome_intercom.EndpointRegistry.Recalled.{
  Recalls, keeps, Recalls-IsIndexed, Recalls-get, Recalls-present,
}
use esphome_intercom.EndpointRegistry.Operations.{is_engaged, get_endpoint}
use esphome_intercom.EndpointRegistry.State.{Registry, empty_registry}
use esphome_intercom.EndpointRegistry.Calls.{replace_runtime, release_found, release_call}
use esphome_intercom.EndpointRegistry.Stored.{after}
use esphome_intercom.EndpointRegistry.Indexed.{IsIndexed}
use esphome_intercom.CallRegistry.Claims.{
  ClaimRegistry, claims_of, released_if, release_loop, registry_released, release_endpoint_claims,
}

-- An endpoint stands under the key, and has another call or none.
abbrev pub Freed : Text → Text → Registry → Type 0
Freed sid k r =
    (d : PhoneEndpoint) × (get k r.endpoints ≡ some d) × (eq_text d.active_call_id sid ≡ false)

module _ (u : Unicode) (sid : Text) (clean : strip sid ≡ sid) (solid : non_empty sid ≡ true) where
  released_if-Recalls :
      (r : Registry) (id : Text) (found : Option PhoneEndpoint)
      → IsIndexed u r
      → Recalls u (is_own_call u id sid) r (released_if u sid id found r)
  unfolding released_if
  released_if-Recalls r id none i = keeps
  released_if-Recalls r id (some e) i =
      subst (λ call. Recalls u (is_own_call u id call) r (after r (release_call u r id sid))) clean
        (release_call-Recalls u r id sid i)

  -- The endpoint of another call is left, and one that is freed stays so.
  released_if_kept :
      (r : Registry) (id k : Text) (d : PhoneEndpoint) (found : Option PhoneEndpoint)
      → IsIndexed u r
      → get k r.endpoints ≡ some d
      → eq_text d.active_call_id sid ≡ false
      → get k (released_if u sid id found r).endpoints ≡ some d
  released_if_kept r id k d found i there other =
      Recalls-get u k d (released_if-Recalls r id found i) there (ground arith)

  no_call : eq_text [] sid ≡ false
  no_call = ground (arith, eq_text_sound [] sid)

  idle_other :
      (e : PhoneEndpoint)
      → (not (is_engaged e) || not (eq_text e.active_call_id sid)) ≡ true
      → eq_text e.active_call_id sid ≡ false
  idle_other e test = ground (arith, eq_text_sound e.active_call_id sid)

  release_found_frees :
      (r : Registry) (e : PhoneEndpoint)
      → get (key u e.endpoint_id) r.endpoints ≡ some e
      → Freed sid (key u e.endpoint_id) (release_found u r sid e).1
  unfolding release_found
  release_found_frees r e there =
      if_second (Freed sid (key u e.endpoint_id))
        (not (is_engaged e) || not (eq_text e.active_call_id sid)) (false, r)
        (true, (replace_runtime u r e []).1) (λ test. (e, there, idle_other e test))
        (λ test. (record e { active_call_id = [] }, get-replace_runtime u r e [], no_call))

  released_if_frees :
      (r : Registry) (id : Text) (e : PhoneEndpoint)
      → IsIndexed u r
      → get (key u id) r.endpoints ≡ some e
      → Freed sid (key u id) (released_if u sid id (some e) r)
  unfolding released_if
  released_if_frees r id e i there =
      let own = (i.roster.keyed (key u id) e there).0 in
      let answer =
        release_call_lem u r id sid e there ∙ ap (λ c. return (release_found u r c e)) clean in
      subst (λ k. Freed sid k (after r (release_call u r id sid))) (sym own)
        (subst (λ call. Freed sid (key u e.endpoint_id) (after r call)) (sym answer)
          (release_found_frees r e (subst (λ k. get k r.endpoints ≡ some e) own there)))

  -- An endpoint that is there stays, freed if it was not.
  released_if_present :
      (r : Registry) (id k : Text) (d : PhoneEndpoint) (found : Option PhoneEndpoint)
      → IsIndexed u r
      → get k r.endpoints ≡ some d
      → (e : PhoneEndpoint) × (get k (released_if u sid id found r).endpoints ≡ some e)
  released_if_present r id k d found i there =
      Recalls-present u k d (released_if-Recalls r id found i) there

  release_loop_kept :
      (claims : Dict Text) (r : Registry) (k : Text) (d : PhoneEndpoint)
      → IsIndexed u r
      → get k r.endpoints ≡ some d
      → eq_text d.active_call_id sid ≡ false
      → get k (release_loop u sid claims r).endpoints ≡ some d
  unfolding release_loop
  release_loop_kept [] r k d i there other = there
  release_loop_kept ((id, role) ∷ rest) r k d i there other =
      let found = get_endpoint u r id in
      release_loop_kept rest (released_if u sid id found r) k d
        (Recalls-IsIndexed u (released_if-Recalls r id found i) i)
        (released_if_kept r id k d found i there other) other

  release_first :
      (rest : Dict Text) (r : Registry) (j : Text) (e : PhoneEndpoint)
      → IsIndexed u r
      → get_endpoint u r j ≡ some e
      → Freed sid (key u j) (release_loop u sid rest (released_if u sid j (get_endpoint u r j) r))
  unfolding get_endpoint
  release_first rest r j e i there = rw there (
      let (d, present, freed) = released_if_frees r j e i there in
      (
        d,
        release_loop_kept rest (released_if u sid j (some e) r) (key u j) d
            (Recalls-IsIndexed u (released_if-Recalls r j (some e) i) i) present freed,
        freed,
      ))

  pub release_loop_frees :
      (claims : Dict Text) (r : Registry) (id : Text) (e : PhoneEndpoint)
      → IsIndexed u r
      → has id claims ≡ true
      → get (key u id) r.endpoints ≡ some e
      → Freed sid (key u id) (release_loop u sid claims r)
  unfolding release_loop has
  release_loop_frees [] r id e i claimed there = cc
  release_loop_frees ((j, role) ∷ rest) r id e i claimed there =
      let found = get_endpoint u r j in
      let next = Recalls-IsIndexed u (released_if-Recalls r j found i) i in
      elim (Bool-cases (eq_text j id)) [
        | inl same ↦
            subst (λ k. Freed sid (key u k) (release_loop u sid rest (released_if u sid j found r)))
              (eq_text_sound j id same)
              (release_first rest r j e i
                (ap (λ k. get (key u k) r.endpoints) (eq_text_sound j id same) ∙ there))
        | inr other ↦
            let (d, present) = released_if_present r j (key u id) e found i there in
            release_loop_frees rest (released_if u sid j found r) id d next (ground arith) present
      ]

-- An endpoint that the call has claimed is still there, and has another call or none.
abbrev ClaimFreed : Text → Bool → Option PhoneEndpoint → Type 0
ClaimFreed sid false now = Unit {0}
ClaimFreed sid true now =
    (d : PhoneEndpoint) × (now ≡ some d) × (eq_text d.active_call_id sid ≡ false)

-- An endpoint that had another call or none is as it was.
abbrev Untouched : Bool → PhoneEndpoint → Option PhoneEndpoint → Type 0
Untouched true e now = Unit {0}
Untouched false e now = now ≡ some e

-- What becomes of the endpoint under an id, claimed or not.
abbrev Follows : Text → Bool → Option PhoneEndpoint → Option PhoneEndpoint → Type 0
Follows sid claimed none now = Unit {0}
Follows sid claimed (some e) now =
    ClaimFreed sid claimed now × Untouched (eq_text e.active_call_id sid) e now

claim_freed :
    (sid : Text) (claimed : Bool) (now : Option PhoneEndpoint)
    → (claimed ≡ true
        → (d : PhoneEndpoint) × (now ≡ some d) × (eq_text d.active_call_id sid ≡ false))
    → ClaimFreed sid claimed now
claim_freed sid false now h = tt
claim_freed sid true now h = h refl

untouched :
    (own : Bool) (e : PhoneEndpoint) (now : Option PhoneEndpoint)
    → (own ≡ false → now ≡ some e)
    → Untouched own e now
untouched true e now h = tt
untouched false e now h = h refl

follows :
    (sid : Text) (claimed : Bool) (found now : Option PhoneEndpoint)
    → ((e : PhoneEndpoint)
        → found ≡ some e
        → claimed ≡ true
        → (d : PhoneEndpoint) × (now ≡ some d) × (eq_text d.active_call_id sid ≡ false))
    → ((e : PhoneEndpoint) → found ≡ some e → eq_text e.active_call_id sid ≡ false → now ≡ some e)
    → Follows sid claimed found now
follows sid claimed none now freed kept = tt
follows sid claimed (some e) now freed kept = (
  claim_freed sid claimed now (freed e refl),
  untouched (eq_text e.active_call_id sid) e now (kept e refl),
)

-- The call has no claims, and the endpoint that `before` has under the id, if it has one, is free of
-- the call if the call had claimed it, and as it was if it had another call or none.
abbrev pub Releases : Unicode → Text → Text → Dict Text → Registry → ClaimRegistry → Type 0
Releases u sid id claims before r =
    (has sid r.endpoint_claims ≡ false)
    × (s : Registry) × (r.endpoint_registry ≡ some s)
    × Follows sid (has id claims) (get_endpoint u before id) (get_endpoint u s id)

-- The end of a call frees its phones in the endpoint registry: after release_endpoint_claims for a
-- call with a clean session id that is not empty, on a registry that registry calls have built, the
-- session has no claims, and for every id: an endpoint registered under it that the session had
-- claimed stays registered and no longer has that call, and an endpoint registered under it with
-- another call or none is as it was.
pub release_endpoint_claims-Releases :
    (u : Unicode) (ops : List Op) (r : ClaimRegistry) (call id : Text)
    → r.endpoint_registry ≡ some (run u ops empty_registry)
    → strip (resolve_session_id (strip call) r.calls) ≡ resolve_session_id (strip call) r.calls
    → non_empty (resolve_session_id (strip call) r.calls) ≡ true
    → Releases u
        (resolve_session_id (strip call) r.calls)
        id
        (claims_of (resolve_session_id (strip call) r.calls) r)
        (run u ops empty_registry)
        (release_endpoint_claims u call r)
unfolding release_endpoint_claims get_endpoint
release_endpoint_claims-Releases u ops r call id bound clean solid =
    let sid = resolve_session_id (strip call) r.calls in
    let claims = claims_of sid r in
    let registry = run u ops empty_registry in
    let i = run-IsIndexed u ops in
    (
      has-pop_self sid r.endpoint_claims,
      release_loop u sid claims registry,
      ap (registry_released u sid claims) bound,
      follows sid (has id claims) (get (key u id) registry.endpoints) _
          (λ e there claimed.
            release_loop_frees u sid clean solid claims registry id e i claimed there)
          (λ e there other.
            release_loop_kept u sid clean solid claims registry (key u id) e i there other),
    )
