-- ===== src/DialFork/Deadline.antt =====
-- dial_fork.py: the waits of a fork, with its overall deadline.
use esphome_intercom.Prelude.{
  Bool-cases, any, Text, ℕ, ◌≡◌, refl, ap, ◌≢◌, inl, inr, Bool, true, false, none, some, List, [],
  ◌∷◌, ◌++◌, arith,
}
use esphome_intercom.DialFork.{
  DialOutcome, DialCandidate, TierResult, waiting, interrupted, done, Wake, batch_of, still_pending,
  settle, dial_parallel_tier, Attempt, Action, dial_outcome, dial_sequential_tier,
}
use esphome_intercom.DialFork.Controller.{
  ids, Controller, tiers_of, in_tier, Env, Ending, waits, run_tier, finish_winner, after_tier,
  run_tiers, start, run_candidates,
}

abbrev is_waiting : TierResult → Bool
is_waiting waiting = true
is_waiting _ = false

abbrev is_waits : Ending → Bool
is_waits waits = true
is_waits _ = false

-- Some test of the deadline among the wakes finds it over.
abbrev ExpiresIn : List Wake → Type 0
ExpiresIn wakes = any (λ w. w.expired) wakes ≡ true

parallel-ends :
    (wakes : List Wake) (cs : List DialCandidate) (failures : List DialOutcome)
    → ExpiresIn wakes
    → is_waiting (dial_parallel_tier wakes cs failures) ≡ false
unfolding dial_parallel_tier
parallel-ends wakes [] failures h = refl
parallel-ends [] (c ∷ cs) failures h = absurd (ground (arith, h))
parallel-ends (w ∷ wakes) (c ∷ cs) failures h = ground (
  arith,
  h,
  parallel-ends wakes (still_pending w.finished (c ∷ cs))
      (settle (batch_of w.finished (c ∷ cs)) failures).1,
)

sequential-ends :
    (attempt : Text → Attempt) (cs : List DialCandidate) (failures : List DialOutcome)
    → is_waiting (dial_sequential_tier attempt cs failures).0 ≡ false
unfolding dial_sequential_tier
sequential-ends attempt [] failures = refl
sequential-ends attempt (c ∷ cs) failures = ground (
  arith,
  sequential-ends attempt cs (failures ++ dial_outcome (attempt c.candidate_id).dial ∷ []),
)

run_tier-ends :
    (env : Env) (c : Controller) (t : ℕ) (cs : List DialCandidate)
    → ExpiresIn (env.wakes t)
    → is_waiting (run_tier env c t cs).0 ≡ false
unfolding run_tier
run_tier-ends env c t cs h =
    ground (arith, parallel-ends (env.wakes t) cs [] h, sequential-ends env.attempt cs [])

finish_winner-ends :
    (env : Env) (c : Controller) (w : DialCandidate) (o : DialOutcome) (attempted : List Text)
    → is_waits (finish_winner env c w o attempted).0 ≡ false
unfolding finish_winner
finish_winner-ends env c w o attempted = ground arith

after_tier-ends :
    (env : Env) (c : Controller) (next : List DialOutcome → Ending × List Action)
    (failures : List DialOutcome) (attempted : List Text) (r : TierResult) (trace : List Action)
    → ((fs : List DialOutcome) → is_waits (next fs).0 ≡ false)
    → is_waiting r ≡ false
    → is_waits (after_tier env c next failures attempted r trace).0 ≡ false
unfolding after_tier
after_tier-ends env c next failures attempted waiting trace rest h = absurd (ground (arith, h))
after_tier-ends env c next failures attempted interrupted trace rest h = refl
after_tier-ends env c next failures attempted (done none none fs) trace rest h =
    rest (failures ++ fs)
after_tier-ends env c next failures attempted (done (some w) none fs) trace rest h = refl
after_tier-ends env c next failures attempted (done none (some o) fs) trace rest h =
    ground (arith, rest (failures ++ fs))
after_tier-ends env c next failures attempted (done (some w) (some o) fs) trace rest h =
    ground (arith, finish_winner-ends env c w o attempted)

run_tiers-ends :
    (env : Env) (c : Controller) (tiers : List ℕ) (failures : List DialOutcome)
    (attempted : List Text)
    → ((t : ℕ) → ExpiresIn (env.wakes t))
    → is_waits (run_tiers env c tiers failures attempted).0 ≡ false
unfolding run_tiers
run_tiers-ends env c [] failures attempted h = refl
run_tiers-ends env c (t ∷ ts) failures attempted h =
    after_tier-ends env c _ failures _ _ _
      (λ fs. run_tiers-ends env c ts fs (attempted ++ ids (in_tier t c.candidates)) h)
      (run_tier-ends env c t (in_tier t c.candidates) (h t))

started-ends :
    (cs : List DialCandidate) (run : Ending × List Action)
    → is_waits run.0 ≡ false
    → is_waits (start cs run).0 ≡ false
unfolding start
started-ends [] run h = refl
started-ends (c ∷ cs) run h = h

run_candidates-goes_on :
    (env : Env) (c : Controller)
    → ((t : ℕ) → ExpiresIn (env.wakes t))
    → is_waits (run_candidates env c).0 ≡ false
unfolding run_candidates
run_candidates-goes_on env c h = elim (Bool-cases env.live) [
  | inl live ↦ simp live (
      started-ends c.candidates (run_tiers env c (tiers_of c.candidates) [] [])
        (run_tiers-ends env c (tiers_of c.candidates) [] [] h))
  | inr dead ↦ simp dead refl
]

-- When the wait of each tier meets the deadline at some wake, a fork run returns or raises and is
-- never left waiting.
pub run_candidates-ends :
    (env : Env) (c : Controller)
    → ((t : ℕ) → any (λ w. w.expired) (env.wakes t) ≡ true)
    → (run_candidates env c).0 ≢ waits
run_candidates-ends env c h e = ground (arith, ap is_waits e, run_candidates-goes_on env c h)
