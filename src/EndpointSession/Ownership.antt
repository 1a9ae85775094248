-- ===== src/EndpointSession/Ownership.antt =====
-- endpoint_session.py: who owns what in a session, through its operations.
use mathlib.Core.Path.{subst}
use esphome_intercom.Prelude.{
  ℕ, ◌≡◌, refl, sym, ◌∙◌, Bool, true, false, Option, List, [], ◌∷◌, map, if◌then◌else◌, arith, Text,
}
use esphome_intercom.EndpointSession.{
  Session, SessionPhase, CallLeg, CleanupStage, Answer, accepted, rejected, is_live, ensure_live,
  transition, update_metadata, add_leg, add_resource, release_resource, release_leg, discard_task,
  own_task, release_task, start_termination,
}
use esphome_intercom.EndpointSession.Termination.{
  Closers, run_termination, close_session_leg, close_leg,
}

-- An operation of a session, the end of one of its tasks, or the run of its termination task.
pub data Op : Type 0 where
  does_transition : (SessionPhase → Bool) → SessionPhase → Op
  does_update_metadata : List (Text × Text) → Op
  does_add_leg : CallLeg → Op
  does_add_resource : Text → ℕ → CleanupStage → Op
  does_release_resource : Text → Option ℕ → Op
  does_release_leg : Text → Option ℕ → Op
  does_own_task does_release_task ends_task : ℕ → Op
  does_start_termination : Text → Option ℕ → Op
  does_run_termination : Closers → ℕ → Op

-- The session behind an operation: one that raises changes nothing.
abbrev pub behind {ℓ} : {A : Type ℓ} → Session → Answer A → Session
behind s (accepted a s') = s'
behind s (rejected e) = s

unfoldable pub apply : Op → Session → Session
apply (does_transition admits phase) s = behind s (transition admits phase s)
apply (does_update_metadata values) s = behind s (update_metadata values s)
apply (does_add_leg l) s = behind s (add_leg l s)
apply (does_add_resource name value stage) s = behind s (add_resource name value stage s)
apply (does_release_resource name value) s = behind s (release_resource name value s)
apply (does_release_leg id dialog) s = behind s (release_leg id dialog s)
apply (does_own_task task) s = behind s (own_task task s)
apply (does_release_task task) s = behind s (release_task task s)
apply (ends_task task) s = record s { tasks = discard_task task s.tasks }
apply (does_start_termination reason initiator) s = start_termination reason initiator s
apply (does_run_termination env current) s =
    if s.termination_task then (run_termination env current s).2 else s

unfoldable pub operate : List Op → Session → Session
operate [] s = s
operate (op ∷ ops) s = operate ops (apply op s)

abbrev pub leg_ids : List CallLeg → List Text
leg_ids = map λ l. l.leg_id

-- A session whose termination has begun.
pub record IsEnding (s : Session) : Type 0 where
  pub task_there : s.termination_task ≡ true
  pub not_live : is_live s.phase ≡ false

-- What a later session keeps of one whose termination has begun.
pub record Keeps (s s' : Session) : Type 0 where
  pub same_resources : s'.resources ≡ s.resources
  pub same_legs : leg_ids s'.legs ≡ leg_ids s.legs
  pub same_reason : s'.terminal_reason ≡ s.terminal_reason
  pub same_metadata : s'.metadata ≡ s.metadata

behind_shut {ℓ} :
    {A : Type ℓ} (s : Session) (rest : Answer A)
    → is_live s.phase ≡ false
    → behind s (ensure_live s rest) ≡ s
unfolding ensure_live
behind_shut s rest h = rw h refl

pub close_session_leg_id : (l : CallLeg) → (close_session_leg l).leg_id ≡ l.leg_id
unfolding close_session_leg close_leg
close_session_leg_id l = ground arith

leg_ids-closed : (ls : List CallLeg) → leg_ids (map close_session_leg ls) ≡ leg_ids ls
leg_ids-closed [] = refl
leg_ids-closed (l ∷ ls) = rw (close_session_leg_id l, leg_ids-closed ls) refl

Keeps-itself : (s : Session) → IsEnding s → IsEnding s × Keeps s s
Keeps-itself s e = (
  e,
  record { same_resources = refl; same_legs = refl; same_reason = refl; same_metadata = refl },
)

refused_Keeps {ℓ} :
    {A : Type ℓ} (s : Session) (rest : Answer A)
    → IsEnding s
    → IsEnding (behind s (ensure_live s rest)) × Keeps s (behind s (ensure_live s rest))
refused_Keeps s rest e =
    subst (λ (x : Session). IsEnding x × Keeps s x) (sym (behind_shut s rest e.not_live))
      (Keeps-itself s e)

apply-Keeps : (op : Op) (s : Session) → IsEnding s → IsEnding (apply op s) × Keeps s (apply op s)
unfolding apply transition update_metadata add_leg add_resource release_resource release_leg
    own_task release_task start_termination run_termination is_live
apply-Keeps (does_transition admits phase) s e = refused_Keeps s _ e
apply-Keeps (does_update_metadata values) s e = refused_Keeps s _ e
apply-Keeps (does_add_leg l) s e = refused_Keeps s _ e
apply-Keeps (does_add_resource name value stage) s e = refused_Keeps s _ e
apply-Keeps (does_release_resource name value) s e = refused_Keeps s _ e
apply-Keeps (does_release_leg id dialog) s e = refused_Keeps s _ e
apply-Keeps (does_own_task task) s e = refused_Keeps s _ e
apply-Keeps (does_release_task task) s e = refused_Keeps s _ e
apply-Keeps (ends_task task) s e = (
  record { task_there = e.task_there; not_live = e.not_live },
  record { same_resources = refl; same_legs = refl; same_reason = refl; same_metadata = refl },
)
apply-Keeps (does_start_termination reason initiator) s e = simp e.task_there (Keeps-itself s e)
apply-Keeps (does_run_termination env current) s e = simp e.task_there (
  record { task_there = refl; not_live = refl },
  record {
    same_resources = refl;
    same_legs = leg_ids-closed s.legs;
    same_reason = refl;
    same_metadata = refl;
  },
)

pub operate-Keeps :
    (ops : List Op) (s : Session) → IsEnding s → IsEnding (operate ops s) × Keeps s (operate ops s)
unfolding operate
operate-Keeps [] s e = Keeps-itself s e
operate-Keeps (op ∷ ops) s e =
    let (ending, kept) = apply-Keeps op s e in
    let (ending', kept') = operate-Keeps ops (apply op s) ending in
    (
      ending',
      record {
        same_resources = kept'.same_resources ∙ kept.same_resources;
        same_legs = kept'.same_legs ∙ kept.same_legs;
        same_reason = kept'.same_reason ∙ kept.same_reason;
        same_metadata = kept'.same_metadata ∙ kept.same_metadata;
      },
    )
