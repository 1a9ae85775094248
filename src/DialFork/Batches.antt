-- ===== src/DialFork/Batches.antt =====
-- dial_fork.py: the batch that one wake of a parallel tier reports.
use esphome_intercom.Prelude.{
  Bool-cases, Option-cases, length, length-append, All, Text, ◌+◌, ◌≡◌, refl, sym, ap, ◌∙◌, subst,
  ◌⊎◌, inl, inr, true, false, Option, none, some, List, [], ◌∷◌, ◌++◌, arith,
}
use esphome_intercom.DialFork.{
  DialOutcome, DialCandidate, is_answered, TaskResult, Wake, task_outcome, Batch, batch_of,
  still_pending, settle,
}

pub settle-length :
    (batch : Batch) (failures : List DialOutcome)
    → (settle batch failures).0 ≡ none
    → length (settle batch failures).1 ≡ length failures + length batch
unfolding settle
settle-length [] failures h = omega arith
settle-length ((c, o) ∷ batch) failures h =
    ground (arith, settle-length batch (failures ++ o ∷ []), length-append failures (o ∷ []))

pub batch-pending :
    (finished : Text → Option TaskResult) (cs : List DialCandidate)
    → length (batch_of finished cs) + length (still_pending finished cs) ≡ length cs
unfolding batch_of still_pending
batch-pending finished [] = refl
batch-pending finished (c ∷ cs) = ground (arith, batch-pending finished cs)

abbrev pub In : DialCandidate → List DialCandidate → Type 0
In a [] = ⊥
In a (c ∷ cs) = (a ≡ c) ⊎ In a cs

pub still_pending-In :
    (finished : Text → Option TaskResult) (a : DialCandidate) (cs : List DialCandidate)
    → In a (still_pending finished cs)
    → In a cs
unfolding still_pending
still_pending-In finished a [] i = i
still_pending-In finished a (c ∷ cs) i = ground (arith, still_pending-In finished a cs)

abbrev pub Unanswered : List DialOutcome → Type 0
Unanswered = All (λ o. is_answered o.disposition ≡ false)

pub Unanswered-snoc :
    (os : List DialOutcome) (o : DialOutcome)
    → Unanswered os
    → is_answered o.disposition ≡ false
    → Unanswered (os ++ o ∷ [])
Unanswered-snoc [] o h k = (k, tt)
Unanswered-snoc (x ∷ os) o h k = (h.0, Unanswered-snoc os o h.1 k)

pub settle-Unanswered :
    (batch : Batch) (failures : List DialOutcome)
    → Unanswered failures
    → Unanswered (settle batch failures).1
unfolding settle
settle-Unanswered [] failures h = h
settle-Unanswered ((c, o) ∷ batch) failures h = elim (Bool-cases (is_answered o.disposition)) [
  | inl e ↦ rw e h
  | inr e ↦ rw e (settle-Unanswered batch (failures ++ o ∷ []) (Unanswered-snoc failures o h e))
]

-- What a wake reports of a candidate.
unfoldable pub reported : (Text → Option TaskResult) → DialCandidate → Option DialOutcome
reported finished a = elim (finished a.candidate_id) [
  | none ↦ none
  | some r ↦ some (task_outcome r)
]

pub reported_task :
    (finished : Text → Option TaskResult) (a : DialCandidate) (r : TaskResult)
    → finished a.candidate_id ≡ some r
    → reported finished a ≡ some (task_outcome r)
unfolding reported
reported_task finished a r e = rw (e, reported) refl

pub reported_nothing :
    (finished : Text → Option TaskResult) (a : DialCandidate)
    → finished a.candidate_id ≡ none
    → reported finished a ≡ none
unfolding reported
reported_nothing finished a e = rw (e, reported) refl

-- The first report that the wakes make of a candidate.
abbrev pub first_report : List Wake → DialCandidate → Option DialOutcome
first_report [] a = none
first_report (w ∷ wakes) a = elim (reported w.finished a) [
  | none ↦ first_report wakes a
  | some o ↦ some o
]

pub first_report_later :
    (w : Wake) (wakes : List Wake) (a : DialCandidate)
    → reported w.finished a ≡ none
    → first_report (w ∷ wakes) a ≡ first_report wakes a
first_report_later w wakes a e = ground (arith, e)

pub first_report_now :
    (w : Wake) (wakes : List Wake) (a : DialCandidate) (o : DialOutcome)
    → reported w.finished a ≡ some o
    → first_report (w ∷ wakes) a ≡ some o
first_report_now w wakes a o e = ground (arith, e)

pub pending_unreported :
    (finished : Text → Option TaskResult) (a : DialCandidate) (cs : List DialCandidate)
    → In a (still_pending finished cs)
    → reported finished a ≡ none
unfolding still_pending
pending_unreported finished a [] i = absurd i
pending_unreported finished a (c ∷ cs) i =
    ground (arith, pending_unreported finished a cs, reported_nothing finished a)

-- The winner of a batch is a candidate of it, with the answer that is reported of it.
pub settle_winner :
    (finished : Text → Option TaskResult) (cs : List DialCandidate) (failures : List DialOutcome)
    (a : DialCandidate) (o : DialOutcome)
    → (settle (batch_of finished cs) failures).0 ≡ some (a, o)
    → In a cs × (is_answered o.disposition ≡ true) × (reported finished a ≡ some o)
unfolding batch_of settle
settle_winner finished [] failures a o h = absurd (ground arith)
settle_winner finished (c ∷ cs) failures a o h = elim (Option-cases (finished c.candidate_id)) [
  | inl e ↦
      let (i, k, told) = settle_winner finished cs failures a o (ground (arith, e)) in
      (inr i, k, told)
  | inr (r, e) ↦ elim (Bool-cases (is_answered (task_outcome r).disposition)) [
    | inl won ↦
        let same : c ≡ a = ground (arith, e, won) in
        let outcome : task_outcome r ≡ o = ground (arith, e, won) in
        (
          inl (sym same),
          ground (arith, outcome, won),
          subst (λ x. reported finished x ≡ some o) same
              (reported_task finished c r e ∙ ap some outcome),
        )
    | inr open_ ↦
        let (i, k, told) =
          settle_winner finished cs (failures ++ task_outcome r ∷ []) a o
            (ground (arith, e, open_)) in
        (inr i, k, told)
  ]
]
