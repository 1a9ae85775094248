-- ===== src/CallRegistry/Summary.antt =====
-- `claim_terminal_summary` of custom_components/voip_stack/call_registry.py, and what may come between
-- two calls of it.
use esphome_intercom.Prelude.{
  if◌then◌else◌, Bool-cases, Text, eq_text, non_empty, strip, Dict, has, has-pop_self, ℕ, suc, ◌+◌,
  ◌≤◌, ◌<◌, ◌≡◌, refl, ap, ◌∙◌, inl, inr, Bool, true, false, not, ◌||◌, List, [], ◌∷◌, arith,
}
use esphome_intercom.CallRegistry.{
  max_terminal_summary_ids, CallSession, CallRegistry, resolve_session_id, remember, evict,
  claim_terminal_summary, start_lifecycle,
}
use esphome_intercom.CallRegistry.Recent.{
  Within, has-Within, remember-Within, remember-Within_later, pop-Within, evict-Within, Within-le,
  resolve_leg_index, or_true, or_false,
}

claim_if :
    (call : Text) (r : CallRegistry)
    → claim_terminal_summary call r ≡ (
        if not (non_empty (resolve_session_id (strip call) r))
          || has (resolve_session_id (strip call) r) r.terminal_summary_ids
        then (false, r)
        else (
          true,
          record r {
            terminal_summary_ids =
                evict max_terminal_summary_ids
                  (remember (resolve_session_id (strip call) r) tt r.terminal_summary_ids);
          },
        ))
unfolding claim_terminal_summary
claim_if call r = refl

summarised-Within :
    (n : ℕ) (k call : Text) (r : CallRegistry)
    → suc n ≤ max_terminal_summary_ids
    → Within n k r.terminal_summary_ids
    → Within (suc n) k (claim_terminal_summary call r).1.terminal_summary_ids
unfolding claim_terminal_summary
summarised-Within n k call r le w =
    let sid = resolve_session_id (strip call) r in
    elim (Bool-cases (not (non_empty sid) || has sid r.terminal_summary_ids)) [
      | inl refused ↦ rw refused (Within-le n (suc n) k r.terminal_summary_ids (omega arith) w)
      | inr claimed ↦ rw claimed (
          evict-Within (suc n) max_terminal_summary_ids k (remember sid tt r.terminal_summary_ids)
            le (remember-Within_later n k sid tt r.terminal_summary_ids w))
    ]

-- What may happen to a registry after a claim: another one, a new life of a session, or a change of
-- the sessions and of the index of the legs.
pub data SummaryStep : Type 0 where
  claims : Text → SummaryStep
  restarts : Text → SummaryStep
  reindexes : Dict CallSession → Dict Text → SummaryStep

unfoldable pub summary_step : SummaryStep → CallRegistry → CallRegistry
unfolding claim_terminal_summary start_lifecycle
summary_step (claims call) r = (claim_terminal_summary call r).1
summary_step (restarts call) r = start_lifecycle call r
summary_step (reindexes sessions legs) r = record r { sessions = sessions; leg_index = legs }

unfoldable pub summary_steps : List SummaryStep → CallRegistry → CallRegistry
unfolding summary_step
summary_steps [] r = r
summary_steps (x ∷ xs) r = summary_steps xs (summary_step x r)

-- Whether a step begins a new life of the session `k`.
abbrev pub is_restart : Text → SummaryStep → CallRegistry → Bool
is_restart k (restarts call) r = eq_text k (resolve_session_id call r)
is_restart k _ r = false

abbrev pub restarted : Text → List SummaryStep → CallRegistry → Bool
restarted k [] r = false
restarted k (x ∷ xs) r = is_restart k x r || restarted k xs (summary_step x r)

abbrev pub summaries : List SummaryStep → ℕ
summaries [] = 0
summaries (claims call ∷ xs) = suc (summaries xs)
summaries (_ ∷ xs) = summaries xs

start_lifecycle-Within :
    (n : ℕ) (k call : Text) (r : CallRegistry)
    → eq_text k (resolve_session_id call r) ≡ false
    → Within n k r.terminal_summary_ids
    → Within n k (start_lifecycle call r).terminal_summary_ids
unfolding start_lifecycle
start_lifecycle-Within n k call r other w =
    pop-Within n k (resolve_session_id call r) r.terminal_summary_ids other w

summary_steps-Within :
    (n : ℕ) (k : Text) (xs : List SummaryStep) (r : CallRegistry)
    → n + summaries xs ≤ max_terminal_summary_ids
    → restarted k xs r ≡ false
    → Within n k r.terminal_summary_ids
    → has k (summary_steps xs r).terminal_summary_ids ≡ true
unfolding summary_steps summary_step
summary_steps-Within n k [] r le same w = has-Within n k r.terminal_summary_ids w
summary_steps-Within n k (claims call ∷ xs) r le same w =
    summary_steps-Within (suc n) k xs (claim_terminal_summary call r).1 (omega arith) same
      (summarised-Within n k call r (omega arith) w)
summary_steps-Within n k (restarts call ∷ xs) r le same w =
    let (other, later) = or_false (eq_text k (resolve_session_id call r)) _ same in
    summary_steps-Within n k xs (start_lifecycle call r) le later
      (start_lifecycle-Within n k call r other w)
summary_steps-Within n k (reindexes sessions legs ∷ xs) r le same w =
    summary_steps-Within n k xs (record r { sessions = sessions; leg_index = legs }) le same w

claimed-Within :
    (call : Text) (r : CallRegistry)
    → (claim_terminal_summary call r).0 ≡ true
    → Within 1
        (resolve_session_id (strip call) r)
        (claim_terminal_summary call r).1.terminal_summary_ids
unfolding claim_terminal_summary
claimed-Within call r =
    let sid = resolve_session_id (strip call) r in
    elim (Bool-cases (not (non_empty sid) || has sid r.terminal_summary_ids)) [
      | inl refused ↦ rw refused (λ h. cc)
      | inr claimed ↦ rw claimed (λ h.
          evict-Within 1 max_terminal_summary_ids sid (remember sid tt r.terminal_summary_ids)
            (omega arith) (remember-Within sid tt r.terminal_summary_ids))
    ]

claim_refused :
    (call : Text) (s : CallRegistry)
    → has (resolve_session_id (strip call) s) s.terminal_summary_ids ≡ true
    → claim_terminal_summary call s ≡ (false, s)
claim_refused call s held =
    claim_if call s
    ∙ ap
        (λ b. if b then (false, s) else (
          true,
          record s {
            terminal_summary_ids =
                evict max_terminal_summary_ids
                  (remember (resolve_session_id (strip call) s) tt s.terminal_summary_ids);
          },
        ))
        (or_true (not (non_empty (resolve_session_id (strip call) s)))
          (has (resolve_session_id (strip call) s) s.terminal_summary_ids) held)

claimed_solid :
    (call : Text) (r : CallRegistry)
    → (claim_terminal_summary call r).0 ≡ true
    → non_empty (resolve_session_id (strip call) r) ≡ true
unfolding claim_terminal_summary
claimed_solid call r claimed = ground (arith, claimed)

claim_fresh :
    (call : Text) (r : CallRegistry)
    → non_empty (resolve_session_id (strip call) r) ≡ true
    → has (resolve_session_id (strip call) r) r.terminal_summary_ids ≡ false
    → (claim_terminal_summary call r).0 ≡ true
unfolding claim_terminal_summary
claim_fresh call r solid fresh = rw (solid, fresh) refl

restart_admits :
    (sid again : Text) (s : CallRegistry)
    → non_empty sid ≡ true
    → resolve_session_id (strip again) s ≡ sid
    → (claim_terminal_summary again (start_lifecycle (strip again) s)).0 ≡ true
unfolding start_lifecycle
restart_admits sid again s solid same =
    claim_fresh again (start_lifecycle (strip again) s)
      (ap non_empty
          (resolve_leg_index (strip again) s (start_lifecycle (strip again) s) refl ∙ same)
        ∙ solid)
      (ap (λ k. has k (start_lifecycle (strip again) s).terminal_summary_ids)
          (resolve_leg_index (strip again) s (start_lifecycle (strip again) s) refl)
        ∙ has-pop_self (resolve_session_id (strip again) s) s.terminal_summary_ids)

-- After claim_terminal_summary has answered true for a call, it answers false and changes nothing
-- for every id that resolves to the same session at that time, however the sessions and the index
-- of the legs have changed in between, as long as fewer than 512 other summaries were claimed in
-- between, no new life of that session has begun and clear_runtime was not called; behind a new
-- life of that session it answers true again.
pub claim_terminal_summary-claim_terminal_summary :
    (call again : Text) (xs : List SummaryStep) (r : CallRegistry)
    → (claim_terminal_summary call r).0 ≡ true
    → summaries xs < max_terminal_summary_ids
    → restarted (resolve_session_id (strip call) r) xs (claim_terminal_summary call r).1 ≡ false
    → resolve_session_id (strip again) (summary_steps xs (claim_terminal_summary call r).1)
      ≡ resolve_session_id (strip call) r
    → let s = summary_steps xs (claim_terminal_summary call r).1 in
      (claim_terminal_summary again s ≡ (false, s))
      × ((claim_terminal_summary again (start_lifecycle (strip again) s)).0 ≡ true)
claim_terminal_summary-claim_terminal_summary call again xs r claimed few lives same =
    let sid = resolve_session_id (strip call) r in
    let r1 = (claim_terminal_summary call r).1 in
    let s = summary_steps xs r1 in
    let held : has sid s.terminal_summary_ids ≡ true =
      summary_steps-Within 1 sid xs r1 (omega arith) lives (claimed-Within call r claimed) in
    (
      claim_refused again s (ap (λ id. has id s.terminal_summary_ids) same ∙ held),
      restart_admits sid again s (claimed_solid call r claimed) same,
    )
