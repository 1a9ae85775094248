-- ===== src/EndpointRegistry/Named.antt =====
-- The identity of a phone that the constructor of custom_components/voip_stack/phone_endpoint.py
-- makes.
use mathlib.Core.List.{reverse, reverse-cons}
use esphome_intercom.Prelude.{
  Text, codes, non_empty, is_space, lstrip, strip, Outcome, raise, return, and_then_return,
  lstrip-cons, lstrip-nil, ℕ, ◌≡◌, refl, sym, ap, ◌∙◌, Bool, true, false, not, ◌||◌, [], ◌∷◌, ◌++◌,
  arith,
}
use esphome_intercom.PhoneEndpoint.{
  Unicode, EndpointKind, browser, sip_account, esphome, OfflinePolicy, refuse, forward, Invalid,
  PhoneEndpoint, Draft, required_text, entity_id_set, kind_of, availability_of, policy_of,
  check_policy, key, token_set, boolean, new_endpoint,
}

-- Some character is no white space.
has_ink : Text → Bool
has_ink [] = false
has_ink (c ∷ s) = not (is_space c) || has_ink s

has_ink-append : (s t : Text) → has_ink (s ++ t) ≡ (has_ink s || has_ink t)
unfolding has_ink
has_ink-append [] t = refl
has_ink-append (c ∷ s) t = ground (arith, has_ink-append s t)

has_ink-reverse : (s : Text) → has_ink (reverse s) ≡ has_ink s
unfolding has_ink
has_ink-reverse [] = refl
has_ink-reverse (c ∷ s) =
    rw (reverse-cons c s) (ground (arith, has_ink-append (reverse s) (c ∷ []), has_ink-reverse s))

has_ink-lstrip : (s : Text) → has_ink (lstrip s) ≡ has_ink s
unfolding has_ink
has_ink-lstrip [] = rw lstrip-nil
has_ink-lstrip (c ∷ s) = rw (lstrip-cons c s) (ground (arith, has_ink-lstrip s))

non_empty-lstrip : (s : Text) → non_empty (lstrip s) ≡ has_ink s
unfolding has_ink
non_empty-lstrip [] = rw lstrip-nil
non_empty-lstrip (c ∷ s) = rw (lstrip-cons c s) (ground (arith, non_empty-lstrip s))

non_empty-append : (s : Text) (c : ℕ) → non_empty (s ++ c ∷ []) ≡ true
non_empty-append [] c = refl
non_empty-append (d ∷ s) c = refl

non_empty-reverse : (s : Text) → non_empty (reverse s) ≡ non_empty s
non_empty-reverse [] = refl
non_empty-reverse (c ∷ s) = rw (reverse-cons c s) (non_empty-append (reverse s) c)

has_ink-strip : (s : Text) → has_ink (strip s) ≡ has_ink s
unfolding strip
has_ink-strip s =
    has_ink-reverse (lstrip (reverse (lstrip s)))
    ∙ has_ink-lstrip (reverse (lstrip s))
    ∙ has_ink-reverse (lstrip s)
    ∙ has_ink-lstrip s

non_empty-strip : (s : Text) → non_empty (strip s) ≡ has_ink s
unfolding strip
non_empty-strip s =
    non_empty-reverse (lstrip (reverse (lstrip s)))
    ∙ non_empty-lstrip (reverse (lstrip s))
    ∙ has_ink-reverse (lstrip s)
    ∙ has_ink-lstrip s

pub non_empty-strip-strip : (s : Text) → non_empty (strip (strip s)) ≡ non_empty (strip s)
non_empty-strip-strip s = non_empty-strip (strip s) ∙ has_ink-strip s ∙ sym (non_empty-strip s)

required_text-strip :
    (value field id : Text)
    → required_text value field ≡ return id
    → (id ≡ strip value) × (non_empty (strip value) ≡ true)
unfolding required_text
required_text-strip value field id h = ground arith

-- The fields that the constructor checks.
pub record Checked : Type 0 where
  pub id : Text
  pub called : Text
  pub kind : EndpointKind
  pub policy : OfflinePolicy
  pub target : Text

checked_fields : Outcome Invalid PhoneEndpoint → Checked
checked_fields (raise problem) = record {
  id = [];
  called = [];
  kind = browser;
  policy = refuse;
  target = [];
}
checked_fields (return e) = record {
  id = e.endpoint_id;
  called = e.name;
  kind = e.kind;
  policy = e.offline_policy;
  target = e.offline_forward_target;
}

module _ (u : Unicode) where
  -- The constructor keeps the stripped identity, which has a character left.
  -- The checks that the fields of a returned endpoint have passed.
  new_endpoint_checks :
      (d : Draft) (call : Outcome Invalid PhoneEndpoint) (e : PhoneEndpoint)
      → call ≡ new_endpoint u d
      → call ≡ return e
      → (c : Checked) × (c ≡ checked_fields call)
        × (required_text d.endpoint_id (codes "endpoint_id") ≡ return c.id)
        × (required_text d.name (codes "name") ≡ return c.called)
        × (check_policy c.kind c.policy c.target ≡ return tt)
  unfolding new_endpoint checked_fields
  new_endpoint_checks d call e made returned =
      let h = sym made ∙ returned in
      let (id, h1, k1) = and_then_return (required_text d.endpoint_id (codes "endpoint_id")) _ h in
      let (called, h2, k2) = and_then_return (required_text d.name (codes "name")) _ k1 in
      let (sort, h3, k3) = and_then_return (kind_of d.kind) _ k2 in
      let (reach, h4, k4) = and_then_return (availability_of d.availability) _ k3 in
      let (policy, h5, k5) = and_then_return (policy_of d.offline_policy) _ k4 in
      let (entities, h6, k6) = and_then_return (entity_id_set d.entity_ids) _ k5 in
      let (tokens, h7, k7) =
        and_then_return (token_set u d.capabilities (codes "capabilities")) _ k6 in
      let (quiet, h8, k8) = and_then_return (boolean u d.dnd (codes "dnd")) _ k7 in
      let (auto, h9, k9) = and_then_return (boolean u d.auto_answer (codes "auto_answer")) _ k8 in
      let (video, ha, ka) = and_then_return (boolean u d.send_video (codes "send_video")) _ k9 in
      let (ring, hb, kb) =
        and_then_return (boolean u d.conference_ring (codes "conference_ring")) _ ka in
      let (checked, hc, kc) =
        and_then_return (check_policy sort policy (strip d.offline_forward_target)) _ kb in
      (
        record {
          id = id;
          called = called;
          kind = sort;
          policy = policy;
          target = strip d.offline_forward_target;
        },
        ap checked_fields (kc ∙ sym returned),
        h1,
        h2,
        hc,
      )

  new_endpoint_parts :
      (d : Draft) (e : PhoneEndpoint)
      → new_endpoint u d ≡ return e
      → (e.endpoint_id ≡ strip d.endpoint_id)
        × (non_empty (strip d.endpoint_id) ≡ true)
        × (e.name ≡ strip d.name)
        × (non_empty (strip d.name) ≡ true)
        × (check_policy e.kind e.offline_policy e.offline_forward_target ≡ return tt)
  unfolding checked_fields
  new_endpoint_parts d e h =
      let (c, same, id, called, policy) = new_endpoint_checks d (new_endpoint u d) e refl h in
      let fields : c ≡ checked_fields (return e) = same ∙ ap checked_fields h in
      let (id_same, id_solid) =
        required_text-strip d.endpoint_id (codes "endpoint_id") e.endpoint_id
          (id ∙ ap (λ x. return x.id) fields) in
      let (name_same, name_solid) =
        required_text-strip d.name (codes "name") e.name
          (called ∙ ap (λ x. return x.called) fields) in
      (
        id_same,
        id_solid,
        name_same,
        name_solid,
        sym (ap (λ x. check_policy x.kind x.policy x.target) fields) ∙ policy,
      )

  pub new_endpoint-key :
      (d : Draft) (e : PhoneEndpoint)
      → new_endpoint u d ≡ return e
      → non_empty (key u e.endpoint_id) ≡ true
  unfolding key
  new_endpoint-key d e h =
      let (same, named, _, _, _) = new_endpoint_parts d e h in
      ap (λ id. non_empty (key u id)) same
      ∙ u.casefold_keeps (strip (strip d.endpoint_id)) (non_empty-strip-strip d.endpoint_id ∙ named)

-- The policy of a phone that is offline: a browser has none, and forwarding has a target.
abbrev pub is_routable : EndpointKind → OfflinePolicy → Text → Bool
is_routable browser refuse target = not (non_empty target)
is_routable browser forward target = false
is_routable sip_account refuse target = true
is_routable sip_account forward target = non_empty target
is_routable esphome refuse target = true
is_routable esphome forward target = non_empty target

check_policy_sound :
    (kind : EndpointKind) (policy : OfflinePolicy) (target : Text)
    → check_policy kind policy target ≡ return tt
    → is_routable kind policy target ≡ true
unfolding check_policy
check_policy_sound browser refuse target h = ground arith
check_policy_sound browser forward target h = ground arith
check_policy_sound sip_account refuse target h = refl
check_policy_sound sip_account forward target h = ground arith
check_policy_sound esphome refuse target h = refl
check_policy_sound esphome forward target h = ground arith

-- An endpoint that its constructor returns has the stripped identity and name it was given, a key
-- and a name that are not empty, a target if it forwards while offline, and, as a browser, neither
-- forwarding nor a target.
pub new_endpoint_sound :
    (u : Unicode) (d : Draft) (e : PhoneEndpoint)
    → new_endpoint u d ≡ return e
    → (e.endpoint_id ≡ strip d.endpoint_id)
      × (non_empty (key u e.endpoint_id) ≡ true)
      × (e.name ≡ strip d.name)
      × (non_empty e.name ≡ true)
      × (is_routable e.kind e.offline_policy e.offline_forward_target ≡ true)
new_endpoint_sound u d e h =
    let (same, named, called_same, called_named, policy) = new_endpoint_parts u d e h in
    (
      same,
      new_endpoint-key u d e h,
      called_same,
      ap non_empty called_same ∙ called_named,
      check_policy_sound e.kind e.offline_policy e.offline_forward_target policy,
    )
