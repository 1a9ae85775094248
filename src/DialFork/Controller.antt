-- ===== src/DialFork/Controller.antt =====
-- dial_fork.py: `DialForkController`, its candidates and the run over their tiers.
use esphome_intercom.Prelude.{
  ltb, ◌==◌, if◌then◌else◌, Text, codes, eq_text, mem_text, ℕ, Bool, true, false, not, ◌&&◌, ◌||◌,
  Option, none, some, List, [], ◌∷◌, ◌++◌, map,
}
use esphome_intercom.DialFork.{
  ForkStrategy, parallel, sequential, cancelled, LegCloseMode, cancel_or_bye, bye, close,
  DialOutcome, DialCandidate, outcome_of, ends_fork, reduce_failures, TierResult, waiting,
  interrupted, done, Wake, dial_parallel_tier, Attempt, Action, closing, commits,
  dial_sequential_tier,
}

-- Strings in the order of their code points.
unfoldable pub lt_text : Text → Text → Bool
lt_text s [] = false
lt_text [] (d ∷ t) = true
lt_text (c ∷ s) (d ∷ t) = ltb c d || c == d && lt_text s t

-- (item.tier, item.order, item.candidate_id)
unfoldable pub before : DialCandidate → DialCandidate → Bool
before a b =
    ltb a.tier b.tier
    || a.tier == b.tier
      && (ltb a.order b.order || a.order == b.order && lt_text a.candidate_id b.candidate_id)

unfoldable pub insert_candidate : DialCandidate → List DialCandidate → List DialCandidate
insert_candidate c [] = c ∷ []
insert_candidate c (x ∷ xs) =
    let rest = insert_candidate c xs in if before x c then x ∷ rest else c ∷ x ∷ xs

-- sorted(candidates, key=...)
unfoldable pub sort_candidates : List DialCandidate → List DialCandidate
unfolding before lt_text insert_candidate
sort_candidates [] = []
sort_candidates (c ∷ cs) = insert_candidate c (sort_candidates cs)

abbrev pub ids : List DialCandidate → List Text
ids = map λ c. c.candidate_id

-- len({candidate.candidate_id ...}) == len(candidates)
unfoldable pub unique_ids : List DialCandidate → Bool
unique_ids [] = true
unique_ids (c ∷ cs) = not (mem_text c.candidate_id (ids cs)) && unique_ids cs

pub record Controller : Type 0 where
  pub candidates : List DialCandidate
  pub strategy : ForkStrategy
  pub tier_strategies : List (ℕ × ForkStrategy)
  pub overall_timeout : ℕ
  pub step_timeout : ℕ

-- The constructor; `none` is one of its ValueErrors. Timeouts are ticks of the clock.
unfoldable pub new_controller :
    List DialCandidate → ForkStrategy → List (ℕ × ForkStrategy) → ℕ → ℕ → Option Controller
unfolding sort_candidates unique_ids
new_controller candidates strategy tier_strategies overall_timeout step_timeout =
    let sorted = sort_candidates candidates in
    if not (unique_ids sorted)
    then none
    else if overall_timeout == 0 || step_timeout == 0
    then none
    else some (record {
      candidates = sorted;
      strategy = strategy;
      tier_strategies = tier_strategies;
      overall_timeout = overall_timeout;
      step_timeout = step_timeout;
    })

-- self.tier_strategies.get(tier, self.strategy)
unfoldable pub strategy_of : ℕ → List (ℕ × ForkStrategy) → ForkStrategy → ForkStrategy
strategy_of tier [] default = default
strategy_of tier ((t, s) ∷ rest) default = if t == tier then s else strategy_of tier rest default

unfoldable pub insert_tier : ℕ → List ℕ → List ℕ
insert_tier t [] = t ∷ []
insert_tier t (u ∷ us) =
    let rest = insert_tier t us in
    if t == u then u ∷ us else if ltb t u then t ∷ u ∷ us else u ∷ rest

-- sorted({candidate.tier for candidate in self.candidates})
unfoldable pub tiers_of : List DialCandidate → List ℕ
unfolding insert_tier
tiers_of [] = []
tiers_of (c ∷ cs) = insert_tier c.tier (tiers_of cs)

unfoldable pub in_tier : ℕ → List DialCandidate → List DialCandidate
in_tier t [] = []
in_tier t (c ∷ cs) = let rest = in_tier t cs in if c.tier == t then c ∷ rest else rest

unfoldable pub others : Text → List DialCandidate → List DialCandidate
others id [] = []
others id (c ∷ cs) = let rest = others id cs in if eq_text id c.candidate_id then rest else c ∷ rest

-- _close_candidates, which does nothing for no candidate
unfoldable pub close_candidates : List DialCandidate → LegCloseMode → List Action
close_candidates [] mode = []
close_candidates (c ∷ cs) mode = closing (ids (c ∷ cs)) mode ∷ []

-- What the session, the coroutines and the caller answer during a run.
pub record Env : Type 0 where
  -- `ensure_live` at the start
  pub live : Bool
  pub wakes : ℕ → List Wake
  pub attempt : Text → Attempt
  -- `termination_started` as the loser barrier begins, and whether it is set before the losers are
  -- closed; then the two tests of `owns` behind the barrier
  pub termination_started : Bool
  pub terminated_meanwhile : Bool
  pub owned : Bool
  pub owns : Bool
  pub commit_winner : Text → Bool

-- _wait_for_cleanup_or_termination, on every path of which the cleanup runs to its end
unfoldable pub wait_for_cleanup_or_termination : Env → Bool
wait_for_cleanup_or_termination env =
    if env.termination_started then true else env.terminated_meanwhile || not env.owned

-- source_terminated or not self.session.owns(self.token)
unfoldable pub source_gone : Env → Bool
source_gone env = wait_for_cleanup_or_termination env || not env.owns

pub record ForkResult : Type 0 where
  pub outcome : DialOutcome
  pub winner : Option DialCandidate
  pub attempted : List Text

pub data Ending : Type 0 where
  returns : ForkResult → Ending
  raises : Ending
  waits : Ending

abbrev pub request_terminated : DialOutcome
request_terminated = outcome_of cancelled 487 (codes "Request Terminated")

unfoldable pub run_tier : Env → Controller → ℕ → List DialCandidate → TierResult × List Action
run_tier env c tier candidates = elim (strategy_of tier c.tier_strategies c.strategy) [
  | parallel ↦ (dial_parallel_tier (env.wakes tier) candidates [], [])
  | sequential ↦ dial_sequential_tier env.attempt candidates []
]

-- What follows the loop over the tiers, for a winner.
unfoldable pub finish_winner :
    Env → Controller → DialCandidate → DialOutcome → List Text → Ending × List Action
finish_winner env c winner outcome attempted =
    let refused : ForkResult = record {
      outcome = request_terminated;
      winner = none;
      attempted = attempted;
    } in
    let barrier = close_candidates (others winner.candidate_id c.candidates) cancel_or_bye in
    let drop = close_candidates (winner ∷ []) bye in
    if source_gone env
    then (returns refused, barrier ++ drop)
    else if not (env.commit_winner winner.candidate_id)
    then (returns refused, barrier ++ commits winner.candidate_id ∷ drop)
    else (
      returns (record { outcome = outcome; winner = some winner; attempted = attempted }),
      barrier ++ commits winner.candidate_id ∷ [],
    )

-- What follows a tier; `next` is the loop over the other tiers, on the failures so far.
unfoldable pub after_tier :
    Env
    → Controller
    → (List DialOutcome → Ending × List Action)
    → List DialOutcome
    → List Text
    → TierResult
    → List Action
    → Ending × List Action
after_tier env c next failures attempted waiting trace = (waits, trace)
after_tier env c next failures attempted interrupted trace =
    (raises, trace ++ close_candidates c.candidates cancel_or_bye)
after_tier env c next failures attempted (done none none fs) trace =
    let (ending, later) = next (failures ++ fs) in (ending, trace ++ later)
after_tier env c next failures attempted (done (some w) none fs) trace = (
  returns
      (record { outcome = reduce_failures (failures ++ fs); winner = none; attempted = attempted }),
  trace ++ close_candidates c.candidates close,
)
after_tier env c next failures attempted (done winner (some outcome) fs) trace =
    let (ending, later) = next (failures ++ fs) in
    if ends_fork outcome.disposition
    then (
      returns (record { outcome = outcome; winner = none; attempted = attempted }),
      trace ++ close_candidates c.candidates cancel_or_bye,
    )
    else elim winner [
      | none ↦ (ending, trace ++ later)
      | some w ↦
          let (ending', later') = finish_winner env c w outcome attempted in
          (ending', trace ++ later')
    ]

unfoldable pub run_tiers :
    Env → Controller → List ℕ → List DialOutcome → List Text → Ending × List Action
run_tiers env c [] failures attempted = (
  returns (record { outcome = reduce_failures failures; winner = none; attempted = attempted }),
  close_candidates c.candidates close,
)
run_tiers env c (tier ∷ tiers) failures attempted =
    let candidates = in_tier tier c.candidates in
    let attempted' = attempted ++ ids candidates in
    let (result, trace) = run_tier env c tier candidates in
    after_tier env c (λ fs. run_tiers env c tiers fs attempted') failures attempted' result trace

-- `if not self.candidates: ...` before the loop, which is `run`
unfoldable pub start : List DialCandidate → Ending × List Action → Ending × List Action
start [] run =
    (returns (record { outcome = reduce_failures []; winner = none; attempted = [] }), [])
start (c ∷ cs) run = run

-- _run_candidates
unfoldable pub run_candidates : Env → Controller → Ending × List Action
run_candidates env c =
    let run = run_tiers env c (tiers_of c.candidates) [] [] in
    if not env.live then (raises, []) else start c.candidates run
