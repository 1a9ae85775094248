-- ===== src/DialFork/Sequence.antt =====
-- dial_fork.py: what a tier closes by itself.
use esphome_intercom.DialFork.Batches.{In, Unanswered, Unanswered-snoc}
use esphome_intercom.Prelude.{
  Bool-cases, length, length-append, Text, eq_text, eq_text_sound, mem_text, ℕ, ◌+◌, ◌≤◌, ◌≡◌, refl,
  subst, inl, inr, true, false, ◌||◌, Option, some, List, [], ◌∷◌, ◌++◌, arith,
}
use esphome_intercom.DialFork.{
  DialDisposition, cancel_or_bye, close, DialOutcome, DialCandidate, is_answered,
  is_source_cancelled, is_reroute, ends_fork, TierResult, done, DialEnd, timed_out, Attempt,
  closing, dial_outcome, timeout_close, was_left, dial_sequential_tier,
}
use esphome_intercom.DialFork.Ids.{closed, closed-append, committed, committed-append, In-mem_text}
use mathlib.Core.Path.{subst}
use esphome_intercom.DialFork.Tiers.{Tier, Tier-weaken}
use esphome_intercom.DialFork.Controller.{ids, unique_ids}

closed-timeout_close :
    (d : DialEnd) (id c : Text) → eq_text id c ≡ false → closed id (timeout_close d c) ≡ false
unfolding timeout_close mem_text
closed-timeout_close timed_out id c h = ground arith
closed-timeout_close _ id c h = refl

-- Only candidates of the tier are closed.
pub sequential-closed :
    (attempt : Text → Attempt) (cs : List DialCandidate) (fs : List DialOutcome) (id : Text)
    → mem_text id (ids cs) ≡ false
    → closed id (dial_sequential_tier attempt cs fs).1 ≡ false
unfolding dial_sequential_tier mem_text
sequential-closed attempt [] fs id h = refl
sequential-closed attempt (c ∷ cs) fs id h =
    let a = attempt c.candidate_id in
    let o = dial_outcome a.dial in
    let early = timeout_close a.dial c.candidate_id in
    let rest = dial_sequential_tier attempt cs (fs ++ o ∷ []) in
    ground (
      arith,
      closed-timeout_close a.dial id c.candidate_id,
      closed-append id early (closing (c.candidate_id ∷ []) cancel_or_bye ∷ []),
      closed-append id early (closing (c.candidate_id ∷ []) close ∷ rest.1),
      sequential-closed attempt cs (fs ++ o ∷ []) id,
    )

answer_closes_nothing :
    (d : DialEnd) (id : Text)
    → is_answered (dial_outcome d).disposition ≡ true
    → timeout_close d id ≡ []
unfolding timeout_close dial_outcome
answer_closes_nothing timed_out id h = cc
answer_closes_nothing _ id h = refl

committed-timeout_close : (d : DialEnd) (c : Text) → committed (timeout_close d c) ≡ false
unfolding timeout_close
committed-timeout_close timed_out c = refl
committed-timeout_close _ c = refl

-- A sequential tier commits no winner.
pub sequential_uncommitted :
    (attempt : Text → Attempt) (cs : List DialCandidate) (fs : List DialOutcome)
    → committed (dial_sequential_tier attempt cs fs).1 ≡ false
unfolding dial_sequential_tier timeout_close
sequential_uncommitted attempt [] fs = refl
sequential_uncommitted attempt (c ∷ cs) fs =
    let a = attempt c.candidate_id in
    let o = dial_outcome a.dial in
    let rest = dial_sequential_tier attempt cs (fs ++ o ∷ []) in
    ground (
      arith,
      committed-timeout_close a.dial c.candidate_id,
      committed-append (timeout_close a.dial c.candidate_id)
          (closing (c.candidate_id ∷ []) cancel_or_bye ∷ []),
      committed-append (timeout_close a.dial c.candidate_id)
          (closing (c.candidate_id ∷ []) close ∷ rest.1),
      sequential_uncommitted attempt cs (fs ++ o ∷ []),
    )

-- The winner of the tier is not closed.
pub sequential_spares :
    (attempt : Text → Attempt) (cs : List DialCandidate) (fs : List DialOutcome) (w : DialCandidate)
    (o : Option DialOutcome) (gs : List DialOutcome)
    → unique_ids cs ≡ true
    → (dial_sequential_tier attempt cs fs).0 ≡ done (some w) o gs
    → In w cs × (closed w.candidate_id (dial_sequential_tier attempt cs fs).1 ≡ false)
unfolding dial_sequential_tier unique_ids mem_text
sequential_spares attempt [] fs w o gs u h = absurd (ground arith)
sequential_spares attempt (c ∷ cs) fs w o gs u h =
    let a = attempt c.candidate_id in
    let x = dial_outcome a.dial in
    let early = timeout_close a.dial c.candidate_id in
    let rest = dial_sequential_tier attempt cs (fs ++ x ∷ []) in
    ground (
      arith,
      answer_closes_nothing a.dial c.candidate_id,
      sequential_spares attempt cs (fs ++ x ∷ []) w o gs,
      In-mem_text w cs,
      eq_text_sound w.candidate_id c.candidate_id,
      closed-timeout_close a.dial w.candidate_id c.candidate_id,
      closed-append w.candidate_id early (closing (c.candidate_id ∷ []) close ∷ rest.1),
    )

control_ends :
    (d : DialDisposition) → (is_source_cancelled d || is_reroute d) ≡ true → ends_fork d ≡ true
control_ends d h = ground arith

-- How the dial of a candidate ended.
abbrev pub Dialed : (Text → Attempt) → DialCandidate → DialOutcome → Type 0
Dialed attempt a o = o ≡ dial_outcome (attempt a.candidate_id).dial

one_more :
    (Gave : DialCandidate → DialOutcome → Type 0) (c : DialCandidate) (cs : List DialCandidate)
    (fs : List DialOutcome) (x : DialOutcome) (r : TierResult)
    → Tier Gave (λ n. n ≤ length (fs ++ x ∷ []) + length cs) cs r
    → Tier Gave (λ n. n ≤ length fs + length (c ∷ cs)) (c ∷ cs) r
one_more Gave c cs fs x r t =
    let count : length (fs ++ x ∷ []) + length cs ≡ length fs + length (c ∷ cs) =
      omega (arith, length-append fs (x ∷ [])) in
    Tier-weaken Gave Gave (λ n. n ≤ length fs + length (c ∷ cs)) cs (c ∷ cs) r (λ a i. inr i)
      (λ a o i told. told) (subst (λ (k : ℕ). Tier Gave (λ n. n ≤ k) cs r) count t)

-- Begun on failures that are no answers, a sequential tier is left by a cancellation, has as winner
-- one of its candidates with the answer that its own dial ended with, ends the fork with a
-- cancellation or a reroute, or adds at most one failure per candidate; no failure is an answer.
pub dial_sequential_tier-Tier :
    (attempt : Text → Attempt) (cs : List DialCandidate) (fs : List DialOutcome)
    → Unanswered fs
    → Tier
        (Dialed attempt)
        (λ n. n ≤ length fs + length cs)
        cs
        (dial_sequential_tier attempt cs fs).0
unfolding dial_sequential_tier
dial_sequential_tier-Tier attempt [] fs h = (omega arith, h)
dial_sequential_tier-Tier attempt (c ∷ cs) fs h =
    let a = attempt c.candidate_id in
    let x = dial_outcome a.dial in
    let rest = dial_sequential_tier attempt cs (fs ++ x ∷ []) in
    elim (Bool-cases a.owns) [
      | inr lost ↦ rw lost (refl, h)
      | inl owns ↦ elim (Bool-cases a.expired) [
        | inl late ↦ rw (owns, late) (omega arith, h)
        | inr early ↦ elim (Bool-cases (was_left a.dial)) [
          | inl gone ↦ rw (owns, early, gone) tt
          | inr here ↦ elim (Bool-cases a.terminated) [
            | inl over ↦ rw (owns, early, here, over) (refl, h)
            | inr runs ↦
                elim (Bool-cases (is_source_cancelled x.disposition || is_reroute x.disposition)) [
                  | inl control ↦
                      rw (owns, early, here, runs, control) (control_ends x.disposition control, h)
                  | inr plain ↦ elim (Bool-cases (is_answered x.disposition)) [
                    | inl won ↦ rw (owns, early, here, runs, plain, won) (inl refl, won, refl, h)
                    | inr open_ ↦
                        rw (owns, early, here, runs, plain, open_)
                          (one_more (Dialed attempt) c cs fs x rest.0 (
                            dial_sequential_tier-Tier attempt cs (fs ++ x ∷ [])
                              (Unanswered-snoc fs x h open_)))
                  ]
                ]
          ]
        ]
      ]
    ]
