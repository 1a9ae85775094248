-- ===== src/DialFork.antt =====
-- custom_components/voip_stack/dial_fork.py: the fork of one call over its candidates.
-- A candidate's `dial` and `close` are coroutines of other modules: what `dial` ends with, and when,
-- is given by the environment, and each call of `close` is an action of the trace.
pub mod Batches
pub mod Tiers
pub mod Controller
pub mod Reduce
pub mod Ids
pub mod Sequence
pub mod Settled
pub mod Winner
pub mod Order
pub mod Cleanup
pub mod Deadline
pub mod Examples
use esphome_intercom.Prelude.{
  if◌then◌else◌, any, all, Text, codes, ℕ, Bool, true, false, not, ◌||◌, Option, none, some, List,
  [], ◌∷◌, ◌++◌, map,
}

pub data ForkStrategy : Type 0 where
  parallel sequential : ForkStrategy

pub data DialDisposition : Type 0 where
  answered busy dnd declined unavailable timeout media_incompatible auth_failed : DialDisposition
  cancelled source_cancelled reroute protocol_error : DialDisposition

pub data LegCloseMode : Type 0 where
  cancel_or_bye bye close : LegCloseMode

pub record DialOutcome : Type 0 where
  pub disposition : DialDisposition
  pub status : ℕ
  pub reason : Text

pub record DialCandidate : Type 0 where
  pub candidate_id : Text
  pub tier : ℕ
  pub order : ℕ
  pub endpoint_id : Text
  pub control : Bool

abbrev pub outcome_of : DialDisposition → ℕ → Text → DialOutcome
outcome_of disposition status reason = record {
  disposition = disposition;
  status = status;
  reason = reason;
}

-- `is` on the members of `DialDisposition`
abbrev pub is_answered : DialDisposition → Bool
is_answered answered = true
is_answered _ = false

abbrev pub is_busy : DialDisposition → Bool
is_busy busy = true
is_busy _ = false

abbrev pub is_dnd : DialDisposition → Bool
is_dnd dnd = true
is_dnd _ = false

abbrev pub is_declined : DialDisposition → Bool
is_declined declined = true
is_declined _ = false

abbrev pub is_media_incompatible : DialDisposition → Bool
is_media_incompatible media_incompatible = true
is_media_incompatible _ = false

abbrev pub is_timeout : DialDisposition → Bool
is_timeout timeout = true
is_timeout _ = false

abbrev pub is_source_cancelled : DialDisposition → Bool
is_source_cancelled source_cancelled = true
is_source_cancelled _ = false

abbrev pub is_reroute : DialDisposition → Bool
is_reroute reroute = true
is_reroute _ = false

-- disposition in {CANCELLED, SOURCE_CANCELLED, REROUTE}
abbrev pub ends_fork : DialDisposition → Bool
ends_fork cancelled = true
ends_fork source_cancelled = true
ends_fork reroute = true
ends_fork _ = false

abbrev pub temporarily_unavailable : DialOutcome
temporarily_unavailable = outcome_of unavailable 480 (codes "Temporarily Unavailable")

-- _reduce_failures
unfoldable pub reduce_failures : List DialOutcome → DialOutcome
reduce_failures [] = temporarily_unavailable
reduce_failures (o ∷ os) =
    let outcomes = o ∷ os in
    if all (λ x. is_declined x.disposition) outcomes
    then outcome_of declined 603 (codes "Decline")
    else if any (λ x. is_busy x.disposition) outcomes
    then outcome_of busy 486 (codes "Busy Here")
    else if any (λ x. is_dnd x.disposition) outcomes
    then outcome_of dnd 486 (codes "DND")
    else if all (λ x. is_media_incompatible x.disposition) outcomes
    then outcome_of media_incompatible 488 (codes "Not Acceptable Here")
    else if all (λ x. is_timeout x.disposition) outcomes
    then outcome_of timeout 408 (codes "Request Timeout")
    else temporarily_unavailable

-- What a tier ends with: a winner, the outcome that goes with it or that ends the fork, and the
-- failures. `waiting` is a tier that no event has ended yet, `interrupted` one that a cancellation left.
pub data TierResult : Type 0 where
  waiting : TierResult
  interrupted : TierResult
  done : Option DialCandidate → Option DialOutcome → List DialOutcome → TierResult

-- How a task of the fork ends.
pub data TaskResult : Type 0 where
  returned : DialOutcome → TaskResult
  was_cancelled : TaskResult
  raised : TaskResult

-- One return of `asyncio.wait`: the tests before it, whether a cancellation of the run ends it, the
-- session's state behind it, and the tasks that it reports.
pub record Wake : Type 0 where
  pub owns : Bool
  pub expired : Bool
  pub run_cancelled : Bool
  pub terminated : Bool
  pub finished : Text → Option TaskResult

unfoldable pub task_outcome : TaskResult → DialOutcome
task_outcome (returned outcome) = outcome
task_outcome was_cancelled = outcome_of cancelled 487 []
task_outcome raised = outcome_of protocol_error 500 []

abbrev pub Batch : Type 0
Batch = List (DialCandidate × DialOutcome)

unfoldable pub batch_of : (Text → Option TaskResult) → List DialCandidate → Batch
batch_of finished [] = []
batch_of finished (c ∷ cs) =
    let rest = batch_of finished cs in
    elim (finished c.candidate_id) [ none ↦ rest | some r ↦ (c, task_outcome r) ∷ rest ]

unfoldable pub still_pending : (Text → Option TaskResult) → List DialCandidate → List DialCandidate
still_pending finished [] = []
still_pending finished (c ∷ cs) =
    let rest = still_pending finished cs in
    elim (finished c.candidate_id) [ none ↦ c ∷ rest | some r ↦ rest ]

-- next(outcome for _candidate, outcome in batch if ...)
unfoldable pub find_control : (DialDisposition → Bool) → Batch → Option DialOutcome
find_control test [] = none
find_control test ((c, o) ∷ batch) = if test o.disposition then some o else find_control test batch

unfoldable pub control_of : Batch → Option DialOutcome
control_of batch = elim (find_control is_source_cancelled batch) [
  | some o ↦ some o
  | none ↦ find_control is_reroute batch
]

-- The first answer of a batch, and the failures before it.
unfoldable pub settle :
    Batch → List DialOutcome → Option (DialCandidate × DialOutcome) × List DialOutcome
settle [] failures = (none, failures)
settle ((c, o) ∷ batch) failures =
    let rest = settle batch (failures ++ o ∷ []) in
    if is_answered o.disposition then (some (c, o), failures) else rest

-- _dial_parallel_tier: `while pending`
unfoldable pub dial_parallel_tier : List Wake → List DialCandidate → List DialOutcome → TierResult
dial_parallel_tier wakes [] failures = done none none failures
dial_parallel_tier [] (c ∷ cs) failures = waiting
dial_parallel_tier (w ∷ wakes) (c ∷ cs) failures =
    let pending = c ∷ cs in
    let batch = batch_of w.finished pending in
    let (winner, failures') = settle batch failures in
    let rest = dial_parallel_tier wakes (still_pending w.finished pending) failures' in
    if not w.owns
    then done none (some (outcome_of cancelled 487 [])) failures
    else if w.expired
    then done none none (failures ++ map (λ _. outcome_of timeout 408 []) pending)
    else if w.run_cancelled
    then interrupted
    else if w.terminated
    then done none (some (outcome_of cancelled 487 [])) failures
    else elim (control_of batch) [
      | some control ↦ done none (some control) failures
      | none ↦ elim winner [ some (a, o) ↦ done (some a) (some o) failures' | none ↦ rest ]
    ]

-- A candidate of a sequential tier: the tests before its dial, how the dial ends within its time, and
-- whether the source terminated meanwhile.
pub data DialEnd : Type 0 where
  ended : DialOutcome → DialEnd
  timed_out : DialEnd
  failed : DialEnd
  left : DialEnd

pub record Attempt : Type 0 where
  pub owns : Bool
  pub expired : Bool
  pub dial : DialEnd
  pub terminated : Bool

-- `_close_candidates` with its mode, and the call of `commit_winner`.
pub data Action : Type 0 where
  closing : List Text → LegCloseMode → Action
  commits : Text → Action

unfoldable pub dial_outcome : DialEnd → DialOutcome
dial_outcome (ended outcome) = outcome
dial_outcome timed_out = outcome_of timeout 408 []
dial_outcome failed = outcome_of protocol_error 500 []
dial_outcome left = outcome_of cancelled 487 []

-- The close that a timeout brings at once.
unfoldable pub timeout_close : DialEnd → Text → List Action
timeout_close timed_out candidate_id = closing (candidate_id ∷ []) cancel_or_bye ∷ []
timeout_close _ candidate_id = []

abbrev pub was_left : DialEnd → Bool
was_left left = true
was_left _ = false

-- _dial_sequential_tier
unfoldable pub dial_sequential_tier :
    (Text → Attempt) → List DialCandidate → List DialOutcome → TierResult × List Action
dial_sequential_tier attempt [] failures = (done none none failures, [])
dial_sequential_tier attempt (c ∷ cs) failures =
    let id = c.candidate_id in
    let a = attempt id in
    let outcome = dial_outcome a.dial in
    let trace = timeout_close a.dial id in
    let (rest, later) = dial_sequential_tier attempt cs (failures ++ outcome ∷ []) in
    if not a.owns
    then (done none (some (outcome_of cancelled 487 [])) failures, [])
    else if a.expired
    then (done none none failures, [])
    else if was_left a.dial
    then (interrupted, [])
    else if a.terminated
    then (
      done none (some (outcome_of cancelled 487 [])) failures,
      trace ++ closing (id ∷ []) cancel_or_bye ∷ [],
    )
    else if is_source_cancelled outcome.disposition || is_reroute outcome.disposition
    then (done none (some outcome) failures, trace)
    else if is_answered outcome.disposition
    then (done (some c) (some outcome) failures, trace)
    else (rest, trace ++ closing (id ∷ []) close ∷ later)
