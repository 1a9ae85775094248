-- ===== src/DialFork/Winner.antt =====
-- dial_fork.py: `finish_winner`, the end of a run behind its winner.
use esphome_intercom.DialFork.Batches.{In}
use mathlib.Core.List.{append_assoc}
use esphome_intercom.Prelude.{
  Bool-cases, Text, eq_text, eq_text_sound, mem_text, eq_text_sym, ℕ, ◌≡◌, refl, sym, inl, inr,
  true, false, not, List, [], ◌∷◌, ◌++◌, arith,
}
use esphome_intercom.DialFork.{
  cancel_or_bye, bye, DialOutcome, DialCandidate, is_answered, Action, commits,
}
use esphome_intercom.DialFork.Ids.{
  closed, closed-append, committed, committed-append, committed-close_candidates,
  closed-close_candidates, In-mem_text, mem_text-others,
}
use esphome_intercom.DialFork.Controller.{
  Controller, others, close_candidates, Env, source_gone, finish_winner,
}
use esphome_intercom.DialFork.Settled.{Settled, AllClosed-before}

closed_one : (id w : Text) → mem_text id (w ∷ []) ≡ eq_text id w
unfolding mem_text
closed_one id w = ground arith

pub finish_winner-Settled :
    (env : Env) (c : Controller) (w : DialCandidate) (o : DialOutcome) (attempted : List Text)
    (t : ℕ) (ts : List ℕ) (trace : List Action)
    → In w c.candidates
    → w.tier ≡ t
    → is_answered o.disposition ≡ true
    → committed trace ≡ false
    → closed w.candidate_id trace ≡ false
    → Settled env c.candidates
        (t ∷ ts)
        (finish_winner env c w o attempted).0
        (trace ++ (finish_winner env c w o attempted).1)
unfolding finish_winner
finish_winner-Settled env c w o attempted t ts trace i e k quiet spare =
    elim (Bool-cases (source_gone env)) [
      | inl gone ↦ simp gone (AllClosed-before c.candidates trace _ (λ a j. shut_or_dropped a j []))
      | inr there ↦ elim (Bool-cases (env.commit_winner w.candidate_id)) [
        | inr refused ↦
            simp (there, refused)
              (AllClosed-before c.candidates trace _
                (λ a j. shut_or_dropped a j (commits w.candidate_id ∷ [])))
        | inl taken ↦
            simp (there, taken)
              (
                i,
                ground (arith, e),
                refl,
                refl,
                k,
                (
                  trace ++ (close_candidates (others w.candidate_id c.candidates) cancel_or_bye),
                  sym (
                      append_assoc trace
                        (close_candidates (others w.candidate_id c.candidates) cancel_or_bye)
                        (commits w.candidate_id ∷ [])),
                  ground (
                    arith,
                    committed-append trace
                        (close_candidates (others w.candidate_id c.candidates) cancel_or_bye),
                    quiet,
                    committed-close_candidates (others w.candidate_id c.candidates) cancel_or_bye,
                  ),
                  λ a j. ground (
                    arith,
                    closed-append a.candidate_id trace
                        (close_candidates (others w.candidate_id c.candidates) cancel_or_bye),
                    shut_others a j,
                    spare,
                    eq_text_sound w.candidate_id a.candidate_id,
                  ),
                ),
              )
      ]
    ]
  where
    shut_others :
        (a : DialCandidate)
        → In a c.candidates
        → closed a.candidate_id
            (close_candidates (others w.candidate_id c.candidates) cancel_or_bye)
          ≡ not (eq_text w.candidate_id a.candidate_id)
    shut_others a j = ground (
      arith,
      closed-close_candidates a.candidate_id (others w.candidate_id c.candidates) cancel_or_bye,
      mem_text-others w.candidate_id a.candidate_id c.candidates,
      In-mem_text a c.candidates j,
    )

    shut_or_dropped :
        (a : DialCandidate)
        → In a c.candidates
        → (commit : List Action)
        → closed a.candidate_id (
            close_candidates (others w.candidate_id c.candidates) cancel_or_bye
            ++ (commit ++ close_candidates (w ∷ []) bye))
          ≡ true
    shut_or_dropped a j commit = ground (
      arith,
      closed-append a.candidate_id
          (close_candidates (others w.candidate_id c.candidates) cancel_or_bye)
          (commit ++ close_candidates (w ∷ []) bye),
      closed-append a.candidate_id commit (close_candidates (w ∷ []) bye),
      closed-close_candidates a.candidate_id (others w.candidate_id c.candidates) cancel_or_bye,
      closed-close_candidates a.candidate_id (w ∷ []) bye,
      closed_one a.candidate_id w.candidate_id,
      mem_text-others w.candidate_id a.candidate_id c.candidates,
      eq_text_sym w.candidate_id a.candidate_id,
      In-mem_text a c.candidates j,
    )
