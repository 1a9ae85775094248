-- ===== src/DialFork/Ids.antt =====
-- dial_fork.py: candidates by their ids, and which ids a trace closes.
use esphome_intercom.DialFork.Batches.{In}
use esphome_intercom.Prelude.{
  Text, eq_text, eq_text_refl, eq_text_sound, mem_text, eq_text_sym, ℕ, ◌≡◌, refl, ◌≢◌, inl, inr,
  Bool, true, false, not, ◌&&◌, ◌||◌, List, [], ◌∷◌, ◌++◌, arith,
}
use esphome_intercom.DialFork.{LegCloseMode, DialCandidate, Action, closing, commits}
use esphome_intercom.DialFork.Controller.{ids, unique_ids, in_tier, others, close_candidates}

-- Whether some action of the trace closes a candidate.
abbrev pub closed : Text → List Action → Bool
closed id [] = false
closed id (closing candidates mode ∷ trace) = mem_text id candidates || closed id trace
closed id (commits w ∷ trace) = closed id trace

pub closed-append :
    (id : Text) (xs ys : List Action) → closed id (xs ++ ys) ≡ (closed id xs || closed id ys)
closed-append id [] ys = refl
closed-append id (closing candidates mode ∷ xs) ys = ground (arith, closed-append id xs ys)
closed-append id (commits w ∷ xs) ys = closed-append id xs ys

-- Whether some action of the trace commits a winner.
abbrev pub committed : List Action → Bool
committed [] = false
committed (closing candidates mode ∷ trace) = committed trace
committed (commits w ∷ trace) = true

pub committed-append : (xs ys : List Action) → committed (xs ++ ys) ≡ (committed xs || committed ys)
committed-append [] ys = refl
committed-append (closing candidates mode ∷ xs) ys = committed-append xs ys
committed-append (commits w ∷ xs) ys = refl

pub committed-close_candidates :
    (cs : List DialCandidate) (mode : LegCloseMode) → committed (close_candidates cs mode) ≡ false
unfolding close_candidates
committed-close_candidates [] mode = refl
committed-close_candidates (c ∷ cs) mode = refl

pub closed-close_candidates :
    (id : Text) (cs : List DialCandidate) (mode : LegCloseMode)
    → closed id (close_candidates cs mode) ≡ mem_text id (ids cs)
unfolding close_candidates mem_text
closed-close_candidates id [] mode = refl
closed-close_candidates id (c ∷ cs) mode = ground arith

pub In-mem_text :
    (a : DialCandidate) (cs : List DialCandidate)
    → In a cs
    → mem_text a.candidate_id (ids cs) ≡ true
unfolding mem_text
In-mem_text a [] i = absurd i
In-mem_text a (c ∷ cs) (inl e) = rw e (ground (arith, eq_text_refl c.candidate_id))
In-mem_text a (c ∷ cs) (inr i) = ground (arith, In-mem_text a cs i)

pub mem_text-in_tier :
    (id : Text) (t : ℕ) (cs : List DialCandidate)
    → mem_text id (ids cs) ≡ false
    → mem_text id (ids (in_tier t cs)) ≡ false
unfolding mem_text in_tier
mem_text-in_tier id t [] h = refl
mem_text-in_tier id t (c ∷ cs) h = ground (arith, mem_text-in_tier id t cs)

pub unique_ids-in_tier :
    (t : ℕ) (cs : List DialCandidate) → unique_ids cs ≡ true → unique_ids (in_tier t cs) ≡ true
unfolding unique_ids in_tier
unique_ids-in_tier t [] h = refl
unique_ids-in_tier t (c ∷ cs) h =
    ground (arith, unique_ids-in_tier t cs, mem_text-in_tier c.candidate_id t cs)

pub in_tier-In :
    (t : ℕ) (a : DialCandidate) (cs : List DialCandidate)
    → In a (in_tier t cs)
    → In a cs × (a.tier ≡ t)
unfolding in_tier
in_tier-In t a [] i = absurd i
in_tier-In t a (c ∷ cs) i = ground (arith, in_tier-In t a cs)

-- No id of another tier is a candidate's own.
pub other_tier :
    (t : ℕ) (a : DialCandidate) (cs : List DialCandidate)
    → unique_ids cs ≡ true
    → In a cs
    → a.tier ≢ t
    → mem_text a.candidate_id (ids (in_tier t cs)) ≡ false
unfolding unique_ids in_tier mem_text
other_tier t a [] u i n = absurd i
other_tier t a (c ∷ cs) u (inl e) n = ground (arith, mem_text-in_tier a.candidate_id t cs)
other_tier t a (c ∷ cs) u (inr i) n =
    ground
      (arith, other_tier t a cs, In-mem_text a cs i, eq_text_sound a.candidate_id c.candidate_id)

pub mem_text-others :
    (w : Text) (id : Text) (cs : List DialCandidate)
    → mem_text id (ids (others w cs)) ≡ (not (eq_text w id) && mem_text id (ids cs))
unfolding others mem_text
mem_text-others w id [] = ground arith
mem_text-others w id (c ∷ cs) = ground (
  arith,
  mem_text-others w id cs,
  eq_text_sound w c.candidate_id,
  eq_text_sound id c.candidate_id,
  eq_text_refl c.candidate_id,
  eq_text_sound w id,
  eq_text_sym w id,
)
