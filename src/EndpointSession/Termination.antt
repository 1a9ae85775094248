-- ===== src/EndpointSession/Termination.antt =====
-- endpoint_session.py: `CallLeg.close` and `_run_termination`.
-- What the closers and the cancelled tasks end with is the environment's; the trace is the list of the
-- calls of `cancel` and `close`, in order.
use mathlib.Core.List.{reverse}
use esphome_intercom.Prelude.{
  ℕ, Bool, true, false, ◌||◌, Option, none, some, List, [], ◌∷◌, ◌++◌, map, ◌==◌, if◌then◌else◌,
  ltb, leb, Text, codes,
}
use esphome_intercom.EndpointSession.{
  Session, terminated, ManagedResource, CallLeg, closed, stage_value,
}

-- The name of the type of an exception, or a normal end.
pub record Closers : Type 0 where
  pub resource_error : Text → Option Text
  pub leg_error : Text → Option Text
  pub task_done : ℕ → Bool
  pub task_error : ℕ → Option Text
  pub task_name : ℕ → Text

pub data Teardown : Type 0 where
  cancels : ℕ → Teardown
  closes_resource : ManagedResource → Teardown
  closes_leg : CallLeg → Teardown

-- CallLeg.close: whether the closer runs, and the leg behind the close.
unfoldable pub close_leg : CallLeg → Bool × CallLeg
close_leg l =
    if l.close_task
    then (false, record l { leg_phase = closed })
    else (true, record l { leg_phase = closed; close_task = true })

pub record SessionTerminationResult : Type 0 where
  pub reason : Text
  pub closed_legs : List Text
  pub closed_resources : List Text
  pub errors : List Text

-- f"{kind}:{name}:{type(err).__name__}"
abbrev pub error_text : Text → Text → Text → Text
error_text kind name type_name = kind ++ (codes ":" ++ (name ++ (codes ":" ++ type_name)))

-- What one awaited close adds to the names that closed and to the errors.
unfoldable pub note_close :
    Option Text → Text → Text → List Text → List Text → List Text × List Text
note_close none kind name done errors = (done ++ name ∷ [], errors)
note_close (some e) kind name done errors = (done, errors ++ error_text kind name e ∷ [])

unfoldable pub close_resources :
    (Text → Option Text)
    → List ManagedResource
    → List Text
    → List Text
    → (List Text × List Text) × List Teardown
unfolding note_close
close_resources fails [] done errors = ((done, errors), [])
close_resources fails (r ∷ resources) done errors =
    let (done', errors') = note_close (fails r.name) (codes "resource") r.name done errors in
    let (noted, behind) = close_resources fails resources done' errors' in
    (noted, closes_resource r ∷ behind)

unfoldable pub close_legs :
    (Text → Option Text)
    → List CallLeg
    → List Text
    → List Text
    → (List Text × List Text) × List Teardown
unfolding note_close
close_legs fails [] done errors = ((done, errors), [])
close_legs fails (l ∷ legs) done errors =
    let (done', errors') = note_close (fails l.leg_id) (codes "leg") l.leg_id done errors in
    let (noted, behind) = close_legs fails legs done' errors' in (noted, closes_leg l ∷ behind)

unfoldable pub insert_resource : ManagedResource → List ManagedResource → List ManagedResource
insert_resource r [] = r ∷ []
insert_resource r (x ∷ xs) =
    let rest = insert_resource r xs in
    if ltb (stage_value r.stage) (stage_value x.stage) then x ∷ rest else r ∷ x ∷ xs

-- sorted(..., key=stage, reverse=True), which keeps the order of equal stages
unfoldable pub sort_resources : List ManagedResource → List ManagedResource
unfolding insert_resource
sort_resources [] = []
sort_resources (r ∷ rs) = insert_resource r (sort_resources rs)

-- The resources whose stage passes a test.
unfoldable pub staged : (ℕ → Bool) → List ManagedResource → List ManagedResource
staged test [] = []
staged test (r ∷ rs) =
    let rest = staged test rs in if test (stage_value r.stage) then r ∷ rest else rest

unfoldable pub is_task : Option ℕ → ℕ → Bool
is_task none task = false
is_task (some t) task = t == task

-- The tasks that are cancelled: neither this one nor the one that began the termination.
unfoldable pub cancelled_tasks : ℕ → Option ℕ → List ℕ → List ℕ
unfolding is_task
cancelled_tasks current initiator [] = []
cancelled_tasks current initiator (t ∷ tasks) =
    let rest = cancelled_tasks current initiator tasks in
    if t == current || is_task initiator t then rest else t ∷ rest

unfoldable pub cancel_tasks : Closers → List ℕ → List Teardown
cancel_tasks env [] = []
cancel_tasks env (t ∷ tasks) =
    let rest = cancel_tasks env tasks in if env.task_done t then rest else cancels t ∷ rest

unfoldable pub task_errors : Closers → List ℕ → List Text
task_errors env [] = []
task_errors env (t ∷ tasks) =
    let rest = task_errors env tasks in
    elim (env.task_error t) [
      | none ↦ rest
      | some e ↦ error_text (codes "task") (env.task_name t) e ∷ rest
    ]

unfoldable pub close_session_leg : CallLeg → CallLeg
unfolding close_leg
close_session_leg l = (close_leg l).1

-- _run_termination: the result, the trace and the session behind it.
unfoldable pub run_termination :
    Closers → ℕ → Session → SessionTerminationResult × List Teardown × Session
unfolding close_session_leg
run_termination env current s =
    let tasks = cancelled_tasks current s.termination_initiator s.tasks in
    let ordered = sort_resources (reverse s.resources) in
    let before_legs = staged (λ n. leb 20 n) ordered in
    let after_legs = staged (λ n. ltb n 20) ordered in
    let ((resources, errors), first) =
      close_resources env.resource_error before_legs [] (task_errors env tasks) in
    let ((legs, errors'), second) = close_legs env.leg_error (reverse s.legs) [] errors in
    let ((resources', errors''), third) =
      close_resources env.resource_error after_legs resources errors' in
    (
      record {
        reason = s.terminal_reason;
        closed_legs = legs;
        closed_resources = resources';
        errors = errors'';
      },
      cancel_tasks env tasks ++ (first ++ (second ++ third)),
      record s { phase = terminated; termination_done = true; legs = map close_session_leg s.legs },
    )
