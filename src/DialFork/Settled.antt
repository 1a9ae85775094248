-- ===== src/DialFork/Settled.antt =====
-- dial_fork.py: the closes and the commit of a run, by its ending.
use esphome_intercom.DialFork.Batches.{In}
use mathlib.Core.List.{append_assoc}
use esphome_intercom.Prelude.{
  ◌==◌, any, eq_text, eq_text_sound, ℕ, ◌≡◌, sym, ap, ◌∙◌, true, false, not, Option, none, some,
  List, [], ◌∷◌, ◌++◌, arith,
}
use esphome_intercom.DialFork.{
  LegCloseMode, DialOutcome, DialCandidate, is_answered, Action, commits,
}
use esphome_intercom.DialFork.Ids.{
  closed, closed-append, committed, committed-append, closed-close_candidates, In-mem_text,
}
use esphome_intercom.DialFork.Controller.{
  close_candidates, Env, source_gone, Ending, returns, raises, waits,
}

abbrev pub AllClosed : List DialCandidate → List Action → Type 0
AllClosed cs trace = (a : DialCandidate) → In a cs → closed a.candidate_id trace ≡ true

-- The last action of the trace is the one commit of it, of the winner `w`, and the actions before it
-- have closed exactly the other candidates.
abbrev pub CommittedLast : List DialCandidate → DialCandidate → List Action → Type 0
CommittedLast cs w trace =
    (before : List Action) × (trace ≡ before ++ commits w.candidate_id ∷ [])
    × (committed before ≡ false)
    × ((a : DialCandidate)
        → In a cs
        → closed a.candidate_id before ≡ not (eq_text w.candidate_id a.candidate_id))

-- Without a winner every candidate is closed.
abbrev pub SettledBy :
    Env → List DialCandidate → List ℕ → Option DialCandidate → DialOutcome → List Action → Type 0
SettledBy env cs tiers none o trace = AllClosed cs trace
SettledBy env cs tiers (some w) o trace =
    In w cs
    × (any (λ t. t == w.tier) tiers ≡ true)
    × (env.commit_winner w.candidate_id ≡ true)
    × (source_gone env ≡ false)
    × (is_answered o.disposition ≡ true)
    × CommittedLast cs w trace

abbrev pub Settled : Env → List DialCandidate → List ℕ → Ending → List Action → Type 0
Settled env cs tiers waits trace = Unit {0}
Settled env cs tiers raises trace = AllClosed cs trace
Settled env cs tiers (returns r) trace = SettledBy env cs tiers r.winner r.outcome trace

pub close_all :
    (cs : List DialCandidate) (mode : LegCloseMode) → AllClosed cs (close_candidates cs mode)
close_all cs mode a i = closed-close_candidates a.candidate_id cs mode ∙ In-mem_text a cs i

pub AllClosed-before :
    (cs : List DialCandidate) (trace later : List Action)
    → AllClosed cs later
    → AllClosed cs (trace ++ later)
AllClosed-before cs trace later h a i =
    ground (arith, closed-append a.candidate_id trace later, h a i)

-- An earlier tier has committed nobody, and has closed no candidate of the tiers behind it.
abbrev pub Spares : List DialCandidate → List ℕ → List Action → Type 0
Spares cs ts trace =
    (committed trace ≡ false)
    × ((a : DialCandidate)
        → In a cs
        → any (λ u. u == a.tier) ts ≡ true
        → closed a.candidate_id trace ≡ false)

CommittedLast-before :
    (cs : List DialCandidate) (w : DialCandidate) (trace later : List Action)
    → committed trace ≡ false
    → closed w.candidate_id trace ≡ false
    → CommittedLast cs w later
    → CommittedLast cs w (trace ++ later)
CommittedLast-before cs w trace later quiet spare (early, last, first, shut) = (
  trace ++ early,
  ap (λ l. trace ++ l) last ∙ sym (append_assoc trace early (commits w.candidate_id ∷ [])),
  ground (arith, committed-append trace early, quiet, first),
  λ a i. ground (
    arith,
    closed-append a.candidate_id trace early,
    shut a i,
    spare,
    eq_text_sound w.candidate_id a.candidate_id,
  ),
)

pub SettledBy-before :
    (env : Env) (cs : List DialCandidate) (t : ℕ) (ts : List ℕ) (w : Option DialCandidate)
    (o : DialOutcome) (trace later : List Action)
    → Spares cs ts trace
    → SettledBy env cs ts w o later
    → SettledBy env cs (t ∷ ts) w o (trace ++ later)
SettledBy-before env cs t ts none o trace later spares s = AllClosed-before cs trace later s
SettledBy-before env cs t ts (some w) o trace later spares s = (
  s.0,
  ground (arith, s.1),
  s.2,
  s.3,
  s.4,
  CommittedLast-before cs w trace later spares.0 (spares.1 w s.0 s.1) s.5,
)

pub Settled-before :
    (env : Env) (cs : List DialCandidate) (t : ℕ) (ts : List ℕ) (e : Ending)
    (trace later : List Action)
    → Spares cs ts trace
    → Settled env cs ts e later
    → Settled env cs (t ∷ ts) e (trace ++ later)
Settled-before env cs t ts waits trace later spares s = tt
Settled-before env cs t ts raises trace later spares s = AllClosed-before cs trace later s
Settled-before env cs t ts (returns r) trace later spares s =
    SettledBy-before env cs t ts r.winner r.outcome trace later spares s
