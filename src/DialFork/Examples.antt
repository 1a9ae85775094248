-- ===== src/DialFork/Examples.antt =====
-- dial_fork.py: the theorems of DialFork at a concrete fork of three candidates.
use esphome_intercom.DialFork.{
  parallel, sequential, answered, busy, timeout, DialOutcome, DialCandidate, outcome_of,
  reduce_failures, done, returned, Wake, task_outcome, batch_of, still_pending, find_control,
  control_of, settle, dial_parallel_tier, ended, Attempt, dial_sequential_tier,
}
use esphome_intercom.Prelude.{
  if◌then◌else◌, any, Text, codes, eq_text, mem_text, ℕ, ◌+◌, ◌≤◌, ◌≡◌, refl, ◌≢◌, ◌⊎◌, true, false,
  none, some, [], ◌∷◌,
}
use esphome_intercom.DialFork.Controller.{
  unique_ids, Controller, tiers_of, Env, raises, waits, run_candidates,
}
use esphome_intercom.DialFork.Tiers.{Tier, Reports, dial_parallel_tier-Tier}
use esphome_intercom.DialFork.Sequence.{Dialed, dial_sequential_tier-Tier}
use mathlib.Core.List.{Permᴰ, Perm}
use esphome_intercom.DialFork.Reduce.{reduce_failures-perm}
use esphome_intercom.DialFork.Settled.{Settled}
use esphome_intercom.DialFork.Cleanup.{run_candidates-Settled}
use esphome_intercom.DialFork.Deadline.{run_candidates-ends}

abbrev candidate : Text → ℕ → ℕ → DialCandidate
candidate id tier order = record {
  candidate_id = id;
  tier = tier;
  order = order;
  endpoint_id = id;
  control = false;
}

abbrev hall : DialCandidate
hall = candidate (codes "hall") 0 0

abbrev desk : DialCandidate
desk = candidate (codes "desk") 0 1

abbrev trunk : DialCandidate
trunk = candidate (codes "trunk") 1 0

abbrev fork : Controller
fork = record {
  candidates = hall ∷ desk ∷ trunk ∷ [];
  strategy = parallel;
  tier_strategies = (1, sequential) ∷ [];
  overall_timeout = 30;
  step_timeout = 15;
}

abbrev is_busy_here : DialOutcome
is_busy_here = outcome_of busy 486 (codes "Busy Here")

abbrev ok_200 : DialOutcome
ok_200 = outcome_of answered 200 (codes "OK")

abbrev too_late : DialOutcome
too_late = outcome_of timeout 408 []

-- The hall is busy, nobody answers at the desk until the deadline.
abbrev hall_wake : Wake
hall_wake = record {
  owns = true;
  expired = false;
  run_cancelled = false;
  terminated = false;
  finished = λ id. if eq_text id (codes "hall") then some (returned is_busy_here) else none;
}

abbrev late_wake : Wake
late_wake = record {
  owns = true;
  expired = true;
  run_cancelled = false;
  terminated = false;
  finished = λ id. none;
}

-- The desk answers behind the hall.
abbrev desk_wake : Wake
desk_wake = record {
  owns = true;
  expired = false;
  run_cancelled = false;
  terminated = false;
  finished = λ id. if eq_text id (codes "desk") then some (returned ok_200) else none;
}

abbrev answers : Text → Attempt
answers id = record { owns = true; expired = false; dial = ended ok_200; terminated = false }

abbrev env : Env
env = record {
  live = true;
  wakes = λ tier. hall_wake ∷ late_wake ∷ [];
  attempt = answers;
  termination_started = false;
  terminated_meanwhile = false;
  owned = true;
  owns = true;
  commit_winner = λ id. true;
}

fork_unique : unique_ids fork.candidates ≡ true
unfolding unique_ids mem_text eq_text
fork_unique = refl

dial_parallel_tier-Tier_example :
    Tier
      (Reports (hall_wake ∷ desk_wake ∷ []))
      (λ n. n ≡ 0 + 2)
      (hall ∷ desk ∷ [])
      (dial_parallel_tier (hall_wake ∷ desk_wake ∷ []) (hall ∷ desk ∷ []) [])
dial_parallel_tier-Tier_example =
    dial_parallel_tier-Tier (hall_wake ∷ desk_wake ∷ []) (hall ∷ desk ∷ []) [] tt

desk_wins :
    dial_parallel_tier (hall_wake ∷ desk_wake ∷ []) (hall ∷ desk ∷ []) []
    ≡ done (some desk) (some ok_200) (is_busy_here ∷ [])
unfolding dial_parallel_tier eq_text control_of find_control batch_of task_outcome settle
    still_pending
desk_wins = refl

dial_sequential_tier-Tier_example :
    Tier
      (Dialed answers)
      (λ n. n ≤ 1 + 1)
      (trunk ∷ [])
      (dial_sequential_tier answers (trunk ∷ []) (is_busy_here ∷ [])).0
dial_sequential_tier-Tier_example =
    dial_sequential_tier-Tier answers (trunk ∷ []) (is_busy_here ∷ []) (refl, tt)

run_candidates-Settled_example :
    ((env.live ≡ false) × (run_candidates env fork ≡ (raises, [])))
    ⊎ ((env.live ≡ true)
        × Settled env fork.candidates
            (tiers_of fork.candidates)
            (run_candidates env fork).0
            (run_candidates env fork).1)
run_candidates-Settled_example = run_candidates-Settled env fork fork_unique

every_wait_expires : (t : ℕ) → any (λ w. w.expired) (env.wakes t) ≡ true
every_wait_expires t = refl

run_candidates-ends_example : (run_candidates env fork).0 ≢ waits
run_candidates-ends_example = run_candidates-ends env fork every_wait_expires

busy_and_late : Perm (is_busy_here ∷ too_late ∷ []) (too_late ∷ is_busy_here ∷ [])
busy_and_late = ∣ Permᴰ.swap refl refl ∣₁

reduce_failures-perm_example :
    reduce_failures (is_busy_here ∷ too_late ∷ []) ≡ reduce_failures (too_late ∷ is_busy_here ∷ [])
reduce_failures-perm_example =
    reduce_failures-perm (is_busy_here ∷ too_late ∷ []) (too_late ∷ is_busy_here ∷ []) busy_and_late
