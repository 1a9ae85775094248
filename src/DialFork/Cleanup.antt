-- ===== src/DialFork/Cleanup.antt =====
-- dial_fork.py: `_run_candidates`, from its tiers to its ending.
use esphome_intercom.DialFork.Batches.{In}
use esphome_intercom.Prelude.{
  ◌==◌, Bool-cases, length, any, Text, mem_text, ℕ, ◌+◌, ◌≤◌, ◌≡◌, refl, ap, ◌≢◌, ◌⊎◌, inl, inr,
  true, false, Option, none, some, List, [], ◌∷◌, ◌++◌, arith,
}
use esphome_intercom.DialFork.{
  parallel, sequential, DialDisposition, cancel_or_bye, close, DialOutcome, DialCandidate,
  is_answered, ends_fork, TierResult, waiting, interrupted, done, dial_parallel_tier, Action,
  dial_sequential_tier,
}
use esphome_intercom.DialFork.Ids.{closed, committed, unique_ids-in_tier, in_tier-In, other_tier}
use esphome_intercom.DialFork.Controller.{
  ids, unique_ids, Controller, strategy_of, tiers_of, in_tier, Env, Ending, raises, run_tier,
  after_tier, run_tiers, start, run_candidates,
}
use esphome_intercom.DialFork.Tiers.{Tier, Reports, dial_parallel_tier-Tier}
use esphome_intercom.DialFork.Sequence.{
  sequential-closed, sequential_uncommitted, sequential_spares, Dialed, dial_sequential_tier-Tier,
}
use esphome_intercom.DialFork.Settled.{Settled, close_all, AllClosed-before, Spares, Settled-before}
use esphome_intercom.DialFork.Winner.{finish_winner-Settled}
use esphome_intercom.DialFork.Order.{Distinct, tiers_of-Rising, Rising-Distinct}

-- What a tier closes by itself, by its strategy.
run_tier_others :
    (env : Env) (c : Controller) (t : ℕ) (cs : List DialCandidate) (id : Text)
    → mem_text id (ids cs) ≡ false
    → closed id (run_tier env c t cs).1 ≡ false
unfolding run_tier
run_tier_others env c t cs id h = ground (arith, sequential-closed env.attempt cs [] id)

abbrev Won : List DialCandidate → TierResult × List Action → Type 0
Won cs (waiting, trace) = Unit {0}
Won cs (interrupted, trace) = Unit {0}
Won cs (done none control fs, trace) = Unit {0}
Won cs (done (some w) none fs, trace) = ⊥
Won cs (done (some w) (some o) fs, trace) =
    In w cs × (is_answered o.disposition ≡ true) × (closed w.candidate_id trace ≡ false)

Tier-Won :
    (Gave : DialCandidate → DialOutcome → Type 0) (R : ℕ → Type 0) (cs : List DialCandidate)
    (r : TierResult) (trace : List Action)
    → Tier Gave R cs r
    → ((w : DialCandidate) (o : Option DialOutcome) (gs : List DialOutcome)
        → r ≡ done (some w) o gs
        → closed w.candidate_id trace ≡ false)
    → Won cs (r, trace)
Tier-Won Gave R cs waiting trace t spares = tt
Tier-Won Gave R cs interrupted trace t spares = tt
Tier-Won Gave R cs (done none control fs) trace t spares = tt
Tier-Won Gave R cs (done (some w) none fs) trace t spares = t
Tier-Won Gave R cs (done (some w) (some o) fs) trace t spares =
    (t.0, t.1, spares w (some o) fs refl)

run_tier-Won :
    (env : Env) (c : Controller) (t : ℕ) (cs : List DialCandidate)
    → unique_ids cs ≡ true
    → Won cs (run_tier env c t cs)
unfolding run_tier
run_tier-Won env c t cs u =
    elim (strategy_of t c.tier_strategies c.strategy)
      as (λ s. Won cs (elim s [
        | parallel ↦ (dial_parallel_tier (env.wakes t) cs [], [])
        | sequential ↦ dial_sequential_tier env.attempt cs []
      ])) [
        | parallel ↦
            Tier-Won (Reports (env.wakes t)) (λ n. n ≡ 0 + length cs) cs _ []
              (dial_parallel_tier-Tier (env.wakes t) cs [] tt) (λ w o gs h. refl)
        | sequential ↦
            Tier-Won (Dialed env.attempt) (λ n. n ≤ 0 + length cs) cs _ _
              (dial_sequential_tier-Tier env.attempt cs [] tt)
              (λ w o gs h. (sequential_spares env.attempt cs [] w o gs u h).1)
      ]

-- The candidates of the later tiers are not closed by an earlier one.
tier_spares :
    (env : Env) (c : Controller) (t : ℕ) (ts : List ℕ)
    → unique_ids c.candidates ≡ true
    → any (λ u. u == t) ts ≡ false
    → (a : DialCandidate) → In a c.candidates
    → any (λ u. u == a.tier) ts ≡ true
    → closed a.candidate_id (run_tier env c t (in_tier t c.candidates)).1 ≡ false
tier_spares env c t ts u fresh a i m =
    let far : a.tier ≢ t = λ e. ground (arith, ap (λ k. any (λ v. v == k) ts) e) in
    run_tier_others env c t (in_tier t c.candidates) a.candidate_id
      (other_tier t a c.candidates u i far)

run_tier_uncommitted :
    (env : Env) (c : Controller) (t : ℕ) (cs : List DialCandidate)
    → committed (run_tier env c t cs).1 ≡ false
unfolding run_tier
run_tier_uncommitted env c t cs = ground (arith, sequential_uncommitted env.attempt cs [])

-- A disposition that is an answer does not end the fork.
answered_goes_on : (d : DialDisposition) → is_answered d ≡ true → ends_fork d ≡ false
answered_goes_on d h = ground arith

after_tier-Settled :
    (env : Env) (c : Controller) (t : ℕ) (ts : List ℕ)
    (next : List DialOutcome → Ending × List Action) (failures : List DialOutcome)
    (attempted : List Text) (r : TierResult) (trace : List Action)
    → ((fs : List DialOutcome) → Settled env c.candidates ts (next fs).0 (next fs).1)
    → Spares c.candidates ts trace
    → Won (in_tier t c.candidates) (r, trace)
    → Settled env c.candidates
        (t ∷ ts)
        (after_tier env c next failures attempted r trace).0
        (after_tier env c next failures attempted r trace).1
unfolding after_tier
after_tier-Settled env c t ts next failures attempted waiting trace rest spares won = tt
after_tier-Settled env c t ts next failures attempted interrupted trace rest spares won =
    AllClosed-before c.candidates trace _ (close_all c.candidates cancel_or_bye)
after_tier-Settled env c t ts next failures attempted (done none none fs) trace rest spares won =
    Settled-before env c.candidates t ts _ trace _ spares (rest (failures ++ fs))
after_tier-Settled env c t ts next failures attempted (done (some w) none fs) trace rest spares
      won =
    absurd won
after_tier-Settled env c t ts next failures attempted (done none (some o) fs) trace rest spares
      won =
    elim (Bool-cases (ends_fork o.disposition)) [
      | inl e ↦
          simp e (AllClosed-before c.candidates trace _ (close_all c.candidates cancel_or_bye))
      | inr e ↦
          simp e (Settled-before env c.candidates t ts _ trace _ spares (rest (failures ++ fs)))
    ]
after_tier-Settled env c t ts next failures attempted (done (some w) (some o) fs) trace rest spares
      won =
    let mine = in_tier-In t w c.candidates won.0 in
    simp (answered_goes_on o.disposition won.1)
      (finish_winner-Settled env c w o attempted t ts trace mine.0 mine.1 won.1 spares.0 won.2)

run_tiers-Settled :
    (env : Env) (c : Controller) (tiers : List ℕ) (failures : List DialOutcome)
    (attempted : List Text)
    → unique_ids c.candidates ≡ true
    → Distinct tiers
    → Settled env c.candidates tiers
        (run_tiers env c tiers failures attempted).0
        (run_tiers env c tiers failures attempted).1
unfolding run_tiers
run_tiers-Settled env c [] failures attempted u d = close_all c.candidates close
run_tiers-Settled env c (t ∷ ts) failures attempted u d =
    after_tier-Settled env c t ts _ failures _ _ _
      (λ fs. run_tiers-Settled env c ts fs (attempted ++ ids (in_tier t c.candidates)) u d.1)
      (run_tier_uncommitted env c t (in_tier t c.candidates), tier_spares env c t ts u d.0)
      (run_tier-Won env c t (in_tier t c.candidates) (unique_ids-in_tier t c.candidates u))

-- A fork over no candidate has nothing to close.
opened :
    (env : Env) (cs : List DialCandidate) (tiers : List ℕ) (run : Ending × List Action)
    → Settled env cs tiers run.0 run.1
    → Settled env cs tiers (start cs run).0 (start cs run).1
unfolding start
opened env [] tiers run s = λ a i. absurd i
opened env (x ∷ xs) tiers run s = s

-- For every behaviour of the environment and distinct candidate ids: a fork run that returns a
-- winner does so on an answered outcome, with the source still there and the commit of the winner
-- accepted; its last action is the one commit of the run, of that winner, and the actions before it
-- have closed every other candidate and not the winner. A run that returns without a winner or
-- raises has closed every candidate; with a session that is not live it raises and closes nothing.
-- A run still waiting for an event owes nothing yet.
pub run_candidates-Settled :
    (env : Env) (c : Controller)
    → unique_ids c.candidates ≡ true
    → ((env.live ≡ false) × (run_candidates env c ≡ (raises, [])))
      ⊎ ((env.live ≡ true)
          × Settled env c.candidates
              (tiers_of c.candidates)
              (run_candidates env c).0
              (run_candidates env c).1)
unfolding run_candidates
run_candidates-Settled env c u = elim (Bool-cases env.live) [
  | inr dead ↦ inl (dead, ground arith)
  | inl live ↦ inr (
    live,
    simp live (
        opened env c.candidates (tiers_of c.candidates) _ (
          run_tiers-Settled env c (tiers_of c.candidates) [] [] u
            (Rising-Distinct _ (tiers_of-Rising c.candidates)))),
  )
]
