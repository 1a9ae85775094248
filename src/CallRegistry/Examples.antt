-- ===== src/CallRegistry/Examples.antt =====
-- Runs of the terminations of custom_components/voip_stack/call_registry.py.
use esphome_intercom.CallRegistry.Once.{
  Step, ends, remembers, replaces, steps, begin_termination-begin_termination,
}
use esphome_intercom.Prelude.{
  codes, eq_text, non_empty, strip, ◌≡◌, refl, true, false, List, [], ◌∷◌, arith,
}
use esphome_intercom.CallRegistry.{
  CallRegistry, resolve_session_id, begin_termination, claim_terminal_summary, start_lifecycle,
}
use esphome_intercom.CallRegistry.Summary.{
  SummaryStep, claims, restarts, reindexes, summary_step, summary_steps, restarted,
  claim_terminal_summary-claim_terminal_summary,
}

abbrev ringing_call : CallRegistry
ringing_call = record {
  sessions =
      (
        codes "c1",
        record {
          generation = 7;
          revision = 2;
          metadata = (codes "pbx_phase", codes "ringing") ∷ [];
        },
      )
      ∷ [];
  leg_index = (codes "leg", codes "c1") ∷ [];
  terminated_call_ids = [];
  terminal_summary_ids = [];
}

leg_begins : (begin_termination (codes " leg ") ringing_call).0 ≡ true
unfolding begin_termination
leg_begins = refl

leg_remembered :
    (begin_termination (codes " leg ") ringing_call).1.terminated_call_ids
    ≡ (codes "leg", 7) ∷ (codes "c1", 7) ∷ []
unfolding begin_termination
leg_remembered = refl

leg_clean :
    strip (resolve_session_id (strip (codes " leg ")) ringing_call)
    ≡ resolve_session_id (strip (codes " leg ")) ringing_call
unfolding strip resolve_session_id
leg_clean = refl

leg_named : non_empty (resolve_session_id (strip (codes " leg ")) ringing_call) ≡ true
unfolding strip resolve_session_id
leg_named = refl

-- Two other calls end, and this one is taken out of the registry.
abbrev removed : List Step
removed = ends (codes "c2") ∷ remembers (codes "c3") (codes "c3") 1 ∷ replaces [] [] ∷ []

same_session :
    resolve_session_id
      (strip (codes "c1"))
      (steps removed (begin_termination (codes " leg ") ringing_call).1)
    ≡ resolve_session_id (strip (codes " leg ")) ringing_call
unfolding strip resolve_session_id steps begin_termination
same_session = refl

begin_termination-begin_termination_example :
    begin_termination
      (codes "c1")
      (steps removed (begin_termination (codes " leg ") ringing_call).1)
    ≡ (false, steps removed (begin_termination (codes " leg ") ringing_call).1)
begin_termination-begin_termination_example =
    begin_termination-begin_termination (codes " leg ") (codes "c1") removed ringing_call leg_begins
      leg_clean leg_named (omega arith) same_session

summary_claimed : (claim_terminal_summary (codes "leg") ringing_call).0 ≡ true
unfolding claim_terminal_summary
summary_claimed = refl

-- Another call claims its summary and lives again, and the legs of this one are dropped.
abbrev other_lives : List SummaryStep
other_lives = claims (codes "c2") ∷ restarts (codes "c2") ∷ reindexes [] [] ∷ []

no_restart :
    restarted
      (resolve_session_id (strip (codes "leg")) ringing_call)
      other_lives
      (claim_terminal_summary (codes "leg") ringing_call).1
    ≡ false
unfolding strip resolve_session_id claim_terminal_summary summary_step eq_text
no_restart = refl

same_summary :
    resolve_session_id
      (strip (codes "c1"))
      (summary_steps other_lives (claim_terminal_summary (codes "leg") ringing_call).1)
    ≡ resolve_session_id (strip (codes "leg")) ringing_call
unfolding strip resolve_session_id claim_terminal_summary summary_steps
same_summary = refl

claim_terminal_summary-claim_terminal_summary_example :
    let s = summary_steps other_lives (claim_terminal_summary (codes "leg") ringing_call).1 in
    (claim_terminal_summary (codes "c1") s ≡ (false, s))
    × ((claim_terminal_summary (codes "c1") (start_lifecycle (strip (codes "c1")) s)).0 ≡ true)
claim_terminal_summary-claim_terminal_summary_example =
    claim_terminal_summary-claim_terminal_summary (codes "leg") (codes "c1") other_lives
      ringing_call summary_claimed (omega arith) no_restart same_summary
