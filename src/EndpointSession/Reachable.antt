-- ===== src/EndpointSession/Reachable.antt =====
-- endpoint_session.py: sessions that sequences of operations reach.
use esphome_intercom.Prelude.{
  ℕ, ◌≡◌, refl, ◌∙◌, Bool, true, false, not, ◌||◌, Option, none, some, List, [], ◌∷◌, ◌==◌,
  if◌then◌else◌, arith, inl, inr, Bool-cases, Text, non_empty, strip, any,
}
use esphome_intercom.EndpointSession.{
  CleanupStage, Session, SessionPhase, CallLeg, ManagedResource, Answer, accepted, is_live,
  ensure_live, transition, update_metadata, set_all, has_leg, add_leg, has_resource, add_resource,
  release_resource, pop_leg, same_dialog, release_leg, own_task, release_task, start_termination,
  new_session,
}
use esphome_intercom.EndpointSession.Termination.{run_termination}
use esphome_intercom.EndpointSession.Ownership.{
  Op, behind, apply, operate, IsEnding, Keeps, operate-Keeps,
}
use esphome_intercom.EndpointSession.Unique.{
  unique_legs, unique_resources, unique_legs-snoc, unique_legs-pop, unique_legs-closed,
  unique_resources-snoc, unique_resources-pop,
}

-- Leg identifiers are distinct and not empty, resource names are distinct and not blank, and a session
-- is not live once its termination has begun.
pub record IsOwner (legs : List CallLeg) (resources : List ManagedResource) (started task : Bool)
    (phase : SessionPhase) : Type 0 where
  pub legs_unique : unique_legs legs ≡ true
  pub resources_unique : unique_resources resources ≡ true
  pub started_once : started ≡ task
  pub ending : task ≡ true → is_live phase ≡ false

abbrev pub IsSession : Session → Type 0
IsSession s = IsOwner s.legs s.resources s.termination_started s.termination_task s.phase

ensure_live-IsSession {ℓ} :
    {A : Type ℓ} (s : Session) (rest : Answer A)
    → IsSession s
    → (is_live s.phase ≡ true → IsSession (behind s rest))
    → IsSession (behind s (ensure_live s rest))
unfolding ensure_live
ensure_live-IsSession s rest i h = elim (Bool-cases (is_live s.phase)) [
  | inl live ↦ rw live (h live)
  | inr dead ↦ rw dead i
]

with_legs :
    (s : Session) (legs : List CallLeg)
    → IsSession s
    → unique_legs legs ≡ true
    → IsSession (record s { legs = legs })
with_legs s legs i u = record {
  legs_unique = u;
  resources_unique = i.resources_unique;
  started_once = i.started_once;
  ending = i.ending;
}

with_resources :
    (s : Session) (resources : List ManagedResource)
    → IsSession s
    → unique_resources resources ≡ true
    → IsSession (record s { resources = resources })
with_resources s resources i u = record {
  legs_unique = i.legs_unique;
  resources_unique = u;
  started_once = i.started_once;
  ending = i.ending;
}

released_leg :
    (id : Text) (dialog : Option ℕ) (s : Session)
    → IsSession s
    → (found : Option CallLeg)
    → IsSession (
        behind s (elim found as (λ x. Answer (Option CallLeg)) [
          | none ↦ accepted none s
          | some l ↦
              if same_dialog dialog l.dialog
              then accepted (some l) (record s { legs = (pop_leg (strip id) s.legs).1 })
              else accepted none s
        ]))
released_leg id dialog s i none = i
released_leg id dialog s i (some l) = elim (Bool-cases (same_dialog dialog l.dialog)) [
  | inl e ↦ simp e (with_legs s _ i (unique_legs-pop (strip id) s.legs i.legs_unique))
  | inr e ↦ simp e i
]

transition-IsSession :
    (admits : SessionPhase → Bool) (phase : SessionPhase) (s : Session)
    → IsSession s
    → IsSession (behind s (transition admits phase s))
unfolding transition
transition-IsSession admits phase s i = ensure_live-IsSession s _ i (λ live.
    elim (Bool-cases (admits s.phase)) [
      | inl e ↦ simp e (record {
        legs_unique = i.legs_unique;
        resources_unique = i.resources_unique;
        started_once = i.started_once;
        ending = λ t. absurd (ground (arith, t, i.ending, live));
      })
      | inr e ↦ simp e i
    ])

add_leg-IsSession : (l : CallLeg) (s : Session) → IsSession s → IsSession (behind s (add_leg l s))
unfolding add_leg
add_leg-IsSession l s i = ensure_live-IsSession s _ i (λ live.
    elim (Bool-cases (not (non_empty l.leg_id) || has_leg l.leg_id s.legs)) [
      | inl e ↦ simp e i
      | inr e ↦ simp e (
          with_legs s _ i
            (unique_legs-snoc s.legs l i.legs_unique (ground (arith, e)) (ground (arith, e))))
    ])

add_resource-IsSession :
    (name : Text) (value : ℕ) (stage : CleanupStage) (s : Session)
    → IsSession s
    → IsSession (behind s (add_resource name value stage s))
unfolding add_resource
add_resource-IsSession name value stage s i = ensure_live-IsSession s _ i (λ live.
    elim (Bool-cases (non_empty (strip name))) [
      | inr e ↦ simp e i
      | inl e ↦ elim (Bool-cases (has_resource name s.resources)) [
        | inl f ↦ simp (e, f) i
        | inr f ↦
            simp (e, f)
              (with_resources s _ i (
                unique_resources-snoc s.resources
                  (record { name = name; value = value; stage = stage }) i.resources_unique e f))
      ]
    ])

chosen :
    (test : Bool) (s s' : Session)
    → (test ≡ true → IsSession s)
    → (test ≡ false → IsSession s')
    → IsSession (if test then s else s')
chosen true s s' then_ else_ = then_ refl
chosen false s s' then_ else_ = else_ refl

apply-IsSession : (op : Op) (s : Session) → IsSession s → IsSession (apply op s)
unfolding apply update_metadata release_resource release_leg own_task release_task start_termination
    run_termination is_live
apply-IsSession (Op.does_transition admits phase) s i = transition-IsSession admits phase s i
apply-IsSession (Op.does_update_metadata values) s i = ensure_live-IsSession s _ i (λ live.
    elim (Bool-cases (set_all values s.metadata false).1) [ inl e ↦ simp e i | inr e ↦ simp e i ])
apply-IsSession (Op.does_add_leg l) s i = add_leg-IsSession l s i
apply-IsSession (Op.does_add_resource name value stage) s i =
    add_resource-IsSession name value stage s i
apply-IsSession (Op.does_release_resource name value) s i =
    ensure_live-IsSession s _ i (λ live.
      with_resources s _ i (unique_resources-pop name value s.resources i.resources_unique))
apply-IsSession (Op.does_release_leg id dialog) s i =
    ensure_live-IsSession s _ i (λ live. released_leg id dialog s i (pop_leg (strip id) s.legs).0)
apply-IsSession (Op.does_own_task task) s i = ensure_live-IsSession s _ i (λ live. i)
apply-IsSession (Op.does_release_task task) s i = ensure_live-IsSession s _ i (λ live.
    elim (Bool-cases (any (λ t. t == task) s.tasks)) [ inl e ↦ simp e i | inr e ↦ simp e i ])
apply-IsSession (Op.ends_task task) s i = i
apply-IsSession (Op.does_start_termination reason initiator) s i =
    chosen s.termination_task s _ (λ e. i)
      (λ e. record {
        legs_unique = i.legs_unique;
        resources_unique = i.resources_unique;
        started_once = refl;
        ending = λ t. refl;
      })
apply-IsSession (Op.does_run_termination env current) s i =
    chosen s.termination_task (run_termination env current s).2 s
      (λ e. record {
        legs_unique = unique_legs-closed s.legs ∙ i.legs_unique;
        resources_unique = i.resources_unique;
        started_once = i.started_once;
        ending = λ t. refl;
      })
      (λ e. i)

new_session-IsSession :
    (call_id : Text) (generation : ℕ) (phase : SessionPhase) (s : Session)
    → new_session call_id generation phase ≡ accepted tt s
    → IsSession s
unfolding new_session unique_legs unique_resources
new_session-IsSession call_id generation phase s h = record {
  legs_unique = ground (arith, h);
  resources_unique = ground (arith, h);
  started_once = ground (arith, h);
  ending = λ t. ground (arith, h, t);
}

operated : (ops : List Op) (s : Session) → IsSession s → IsSession (operate ops s)
unfolding operate
operated [] s i = i
operated (op ∷ ops) s i = operated ops (apply op s) (apply-IsSession op s i)

-- Every session that a constructed one reaches by its operations has distinct non-empty leg ids and
-- distinct non-blank resource names, and is not live once its termination has begun.
pub operate-IsSession :
    (call_id : Text) (generation : ℕ) (phase : SessionPhase) (s : Session) (ops : List Op)
    → new_session call_id generation phase ≡ accepted tt s
    → IsSession (operate ops s)
operate-IsSession call_id generation phase s ops h =
    operated ops s (new_session-IsSession call_id generation phase s h)

start_termination-IsEnding :
    (reason : Text) (initiator : Option ℕ) (s : Session)
    → IsSession s
    → IsEnding (start_termination reason initiator s)
unfolding start_termination is_live
start_termination-IsEnding reason initiator s i = elim (Bool-cases s.termination_task) [
  | inl e ↦ simp e (record { task_there = e; not_live = i.ending e })
  | inr e ↦ simp e (record { task_there = refl; not_live = refl })
]

-- From the start of its termination on a session that satisfies the invariant is never live again,
-- takes no new leg, resource or metadata, gives none away, and keeps its reason, whatever
-- operations follow, further starts of a termination among them.
pub start_termination-Keeps :
    (reason : Text) (initiator : Option ℕ) (s : Session) (ops : List Op)
    → IsSession s
    → IsEnding (operate ops (start_termination reason initiator s))
      × Keeps
          (start_termination reason initiator s)
          (operate ops (start_termination reason initiator s))
start_termination-Keeps reason initiator s ops i =
    operate-Keeps ops (start_termination reason initiator s)
      (start_termination-IsEnding reason initiator s i)
