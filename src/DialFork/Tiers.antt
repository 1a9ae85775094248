-- ===== src/DialFork/Tiers.antt =====
-- dial_fork.py: what one tier of a fork ends with.
use esphome_intercom.DialFork.Batches.{
  settle-length, batch-pending, In, still_pending-In, Unanswered, settle-Unanswered, first_report,
  first_report_later, first_report_now, pending_unreported, settle_winner,
}
use esphome_intercom.Prelude.{
  Bool-cases, Option-cases, length, length-append, length-map, All-append, ℕ, ◌+◌, ◌≡◌, refl, ◌∙◌,
  subst, inl, inr, Bool, true, false, none, some, List, [], ◌∷◌, ◌++◌, map, arith,
}
use esphome_intercom.DialFork.{
  DialDisposition, timeout, source_cancelled, reroute, DialOutcome, DialCandidate, outcome_of,
  is_answered, is_source_cancelled, is_reroute, ends_fork, TierResult, waiting, interrupted, done,
  Wake, Batch, batch_of, still_pending, find_control, control_of, settle, dial_parallel_tier,
}
use mathlib.Core.Path.{subst}

-- What a tier over the candidates `cs` may end with; `Gave` ties an outcome to its candidate, and
-- `R` bounds the failures of a tier without a winner.
abbrev pub Tier :
    (DialCandidate → DialOutcome → Type 0) → (ℕ → Type 0) → List DialCandidate → TierResult → Type 0
Tier Gave R cs waiting = Unit {0}
Tier Gave R cs interrupted = Unit {0}
Tier Gave R cs (done (some a) (some o) fs) =
    In a cs × (is_answered o.disposition ≡ true) × Gave a o × Unanswered fs
Tier Gave R cs (done (some a) none fs) = ⊥
Tier Gave R cs (done none (some o) fs) = (ends_fork o.disposition ≡ true) × Unanswered fs
Tier Gave R cs (done none none fs) = R (length fs) × Unanswered fs

find_control-holds :
    (test : DialDisposition → Bool) (batch : Batch) (o : DialOutcome)
    → find_control test batch ≡ some o
    → test o.disposition ≡ true
unfolding find_control
find_control-holds test [] o h = absurd (ground arith)
find_control-holds test ((c, x) ∷ batch) o h = elim (Bool-cases (test x.disposition)) [
  | inl e ↦ ground (arith, e)
  | inr e ↦ find_control-holds test batch o (ground (arith, e))
]

source_cancelled_ends : (d : DialDisposition) → is_source_cancelled d ≡ true → ends_fork d ≡ true
source_cancelled_ends source_cancelled h = refl
source_cancelled_ends _ h = cc

reroute_ends : (d : DialDisposition) → is_reroute d ≡ true → ends_fork d ≡ true
reroute_ends reroute h = refl
reroute_ends _ h = cc

control_of-ends :
    (batch : Batch) (o : DialOutcome) → control_of batch ≡ some o → ends_fork o.disposition ≡ true
unfolding control_of
control_of-ends batch o h = elim (Option-cases (find_control is_source_cancelled batch)) [
  | inl e ↦ reroute_ends o.disposition (find_control-holds is_reroute batch o (ground (arith, e)))
  | inr (x, e) ↦
      source_cancelled_ends o.disposition
        (find_control-holds is_source_cancelled batch o (ground (arith, e)))
]

Unanswered-timeouts :
    (cs : List DialCandidate) → Unanswered (map (λ _. outcome_of timeout 408 []) cs)
Unanswered-timeouts [] = tt
Unanswered-timeouts (c ∷ cs) = (refl, Unanswered-timeouts cs)

expired_failures :
    (failures : List DialOutcome) (cs : List DialCandidate)
    → Unanswered failures
    → (length (failures ++ map (λ _. outcome_of timeout 408 []) cs) ≡ length failures + length cs)
      × Unanswered (failures ++ map (λ _. outcome_of timeout 408 []) cs)
expired_failures failures cs h = (
  omega (
    arith,
    length-append failures (map (λ (_ : DialCandidate). outcome_of timeout 408 []) cs),
    length-map cs (λ (_ : DialCandidate). outcome_of timeout 408 []),
  ),
  All-append (λ o. is_answered o.disposition ≡ false) failures _ h (Unanswered-timeouts cs),
)

pub Tier-weaken :
    (Gave Told : DialCandidate → DialOutcome → Type 0) (R : ℕ → Type 0) (cs bs : List DialCandidate)
    (r : TierResult)
    → ((a : DialCandidate) → In a cs → In a bs)
    → ((a : DialCandidate) (o : DialOutcome) → In a cs → Gave a o → Told a o)
    → Tier Gave R cs r
    → Tier Told R bs r
Tier-weaken Gave Told R cs bs waiting sub said t = t
Tier-weaken Gave Told R cs bs interrupted sub said t = t
Tier-weaken Gave Told R cs bs (done (some a) (some o) fs) sub said t =
    (sub a t.0, t.1, said a o t.0 t.2, t.3)
Tier-weaken Gave Told R cs bs (done (some a) none fs) sub said t = t
Tier-weaken Gave Told R cs bs (done none (some o) fs) sub said t = t
Tier-weaken Gave Told R cs bs (done none none fs) sub said t = t

abbrev pub Reports : List Wake → DialCandidate → DialOutcome → Type 0
Reports wakes a o = first_report wakes a ≡ some o

-- What the candidates that are still pending end with, counted from the whole tier.
pending_Tier :
    (w : Wake) (wakes : List Wake) (cs : List DialCandidate) (failures : List DialOutcome)
    (r : TierResult)
    → (settle (batch_of w.finished cs) failures).0 ≡ none
    → Tier
        (Reports wakes)
        (λ n.
          n
          ≡ length (settle (batch_of w.finished cs) failures).1
            + length (still_pending w.finished cs))
        (still_pending w.finished cs)
        r
    → Tier (Reports (w ∷ wakes)) (λ n. n ≡ length failures + length cs) cs r
pending_Tier w wakes cs failures r open_ t =
    let count : length (settle (batch_of w.finished cs) failures).1
          + length (still_pending w.finished cs)
        ≡ length failures + length cs =
      omega (
        arith,
        settle-length (batch_of w.finished cs) failures open_,
        batch-pending w.finished cs,
      ) in
    Tier-weaken (Reports wakes) (Reports (w ∷ wakes)) (λ n. n ≡ length failures + length cs) _ cs r
      (λ a. still_pending-In w.finished a cs)
      (λ a o i told. first_report_later w wakes a (pending_unreported w.finished a cs i) ∙ told)
      (subst (λ (k : ℕ). Tier (Reports wakes) (λ n. n ≡ k) (still_pending w.finished cs) r) count t)

-- Begun on failures that are no answers, a parallel tier is still waiting, is left by a
-- cancellation of the run, has as winner one of its candidates with the answer that the first
-- report of that candidate among the wakes gives, ends the fork with a cancellation or a reroute,
-- or adds exactly one failure per candidate; no failure is an answer.
pub dial_parallel_tier-Tier :
    (wakes : List Wake) (cs : List DialCandidate) (failures : List DialOutcome)
    → Unanswered failures
    → Tier
        (Reports wakes)
        (λ n. n ≡ length failures + length cs)
        cs
        (dial_parallel_tier wakes cs failures)
unfolding dial_parallel_tier
dial_parallel_tier-Tier wakes [] failures h = (omega arith, h)
dial_parallel_tier-Tier [] (c ∷ cs) failures h = tt
dial_parallel_tier-Tier (w ∷ wakes) (c ∷ cs) failures h = elim (Bool-cases w.owns) [
  | inr lost ↦ rw lost (refl, h)
  | inl owns ↦ elim (Bool-cases w.expired) [
    | inl late ↦ rw (owns, late) (expired_failures failures (c ∷ cs) h)
    | inr early ↦ elim (Bool-cases w.run_cancelled) [
      | inl gone ↦ rw (owns, early, gone) tt
      | inr kept ↦ elim (Bool-cases w.terminated) [
        | inl over ↦ rw (owns, early, kept, over) (refl, h)
        | inr runs ↦
            rw (owns, early, kept, runs)
              (elim (Option-cases (control_of (batch_of w.finished (c ∷ cs)))) [
                | inr (o, e) ↦ rw e (control_of-ends _ o e, h)
                | inl e ↦
                    rw e (elim (Option-cases (settle (batch_of w.finished (c ∷ cs)) failures).0) [
                      | inr ((a, o), q) ↦
                          let (i, k, told) = settle_winner w.finished (c ∷ cs) failures a o q in
                          rw q (
                            i,
                            k,
                            first_report_now w wakes a o told,
                            settle-Unanswered (batch_of w.finished (c ∷ cs)) failures h,
                          )
                      | inl q ↦ rw q (
                          pending_Tier w wakes (c ∷ cs) failures _ q (
                            dial_parallel_tier-Tier wakes (still_pending w.finished (c ∷ cs)) _
                              (settle-Unanswered (batch_of w.finished (c ∷ cs)) failures h)))
                    ])
              ])
      ]
    ]
  ]
]
