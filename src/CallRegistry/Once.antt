-- ===== src/CallRegistry/Once.antt =====
-- `begin_termination` of custom_components/voip_stack/call_registry.py, and what may come between two
-- calls of it.
use esphome_intercom.Prelude.{
  if◌then◌else◌, Bool-cases, length, Text, non_empty, strip, Dict, get, has, strip-strip, ℕ, suc,
  ◌+◌, ◌*◌, ◌≤◌, ◌<◌, ◌≡◌, refl, sym, ap, ◌∙◌, subst, inl, inr, Bool, true, false, not, ◌||◌,
  Option, none, some, List, [], ◌∷◌, arith,
}
use esphome_intercom.CallRegistry.{
  max_terminated_call_ids, CallSession, CallRegistry, resolve_session_id, remember, remember_all,
  remember_terminated, ended_in, is_terminated, session_generation, is_terminating,
  enter_terminating, begin_at, begin_termination,
}
use esphome_intercom.CallRegistry.Recent.{
  Within, has-Within, remember-Within, remember-Within_later, evict-Within, Within-le, or_true,
}

remember_all-Within :
    (n g : ℕ) (k : Text) (ids : List Text) (d : Dict ℕ)
    → Within n k d
    → Within (n + length ids) k (remember_all ids g d)
unfolding remember_all
remember_all-Within n g k [] d w = subst (λ m. Within m k d) (omega arith) w
remember_all-Within n g k (id ∷ rest) d w = elim (Bool-cases (non_empty (strip id))) [
  | inl solid ↦ rw solid (
      subst (λ m. Within m k (remember_all rest g (remember (strip id) g d))) (omega arith)
        (remember_all-Within (suc n) g k rest (remember (strip id) g d)
          (remember-Within_later n k (strip id) g d w)))
  | inr blank ↦ rw blank (
      Within-le (n + length rest) (n + suc (length rest)) k (remember_all rest g d) (omega arith)
        (remember_all-Within n g k rest d w))
]

remember_terminated-Within :
    (n g : ℕ) (k : Text) (ids : List Text) (r : CallRegistry)
    → n + length ids ≤ max_terminated_call_ids
    → Within n k r.terminated_call_ids
    → Within (n + length ids) k (remember_terminated ids g r).terminated_call_ids
unfolding remember_terminated
remember_terminated-Within n g k ids r le w =
    evict-Within (n + length ids) max_terminated_call_ids k
      (remember_all ids g r.terminated_call_ids) le
      (remember_all-Within n g k ids r.terminated_call_ids w)

enter_terminating_ids :
    (sid : Text) (session : Option CallSession) (r : CallRegistry)
    → ((enter_terminating sid session r).terminated_call_ids ≡ r.terminated_call_ids)
      × ((enter_terminating sid session r).leg_index ≡ r.leg_index)
unfolding enter_terminating
enter_terminating_ids sid none r = (refl, refl)
enter_terminating_ids sid (some session) r = elim (Bool-cases (is_terminating session)) [
  | inl over ↦ rw over (refl, refl)
  | inr alive ↦ rw alive (refl, refl)
]

begin_at-Within :
    (n : ℕ) (k call sid : Text) (r : CallRegistry)
    → n + 2 ≤ max_terminated_call_ids
    → Within n k r.terminated_call_ids
    → Within (n + 2) k (begin_at call sid r).terminated_call_ids
unfolding begin_at
begin_at-Within n k call sid r le w =
    subst (Within (n + 2) k) (sym (enter_terminating_ids sid (get sid r.sessions) _).0) (
      remember_terminated-Within n (session_generation (get sid r.sessions)) k (call ∷ sid ∷ []) r
        le w)

begin_at_leg_index :
    (call sid : Text) (r : CallRegistry) → (begin_at call sid r).leg_index ≡ r.leg_index
unfolding begin_at remember_terminated
begin_at_leg_index call sid r = (enter_terminating_ids sid (get sid r.sessions) _).1

remember_all_own :
    (sid : Text) (g : ℕ) (d : Dict ℕ)
    → strip sid ≡ sid
    → non_empty sid ≡ true
    → Within 1 sid (remember_all (sid ∷ []) g d)
unfolding remember_all
remember_all_own sid g d clean solid = simp (clean, solid) (remember-Within sid g d)

-- Its session id is the last one that a termination remembers.
begin_at-Within_own :
    (call sid : Text) (r : CallRegistry)
    → strip sid ≡ sid
    → non_empty sid ≡ true
    → Within 1 sid (begin_at call sid r).terminated_call_ids
unfolding begin_at remember_terminated
begin_at-Within_own call sid r clean solid =
    let g = session_generation (get sid r.sessions) in
    subst (Within 1 sid) (sym (enter_terminating_ids sid (get sid r.sessions) _).0) (
      evict-Within 1 max_terminated_call_ids sid _ (omega arith)
        (remember_all_own sid g (remember_all (call ∷ []) g r.terminated_call_ids) clean solid))

begin_termination-Within :
    (n : ℕ) (k call : Text) (r : CallRegistry)
    → n + 2 ≤ max_terminated_call_ids
    → Within n k r.terminated_call_ids
    → Within (n + 2) k (begin_termination call r).1.terminated_call_ids
unfolding begin_termination
begin_termination-Within n k call r le w =
    elim (Bool-cases (not (non_empty (strip call)) || is_terminated (strip call) none r)) [
      | inl refused ↦ rw refused (Within-le n (n + 2) k r.terminated_call_ids (omega arith) w)
      | inr begun ↦
          rw begun (begin_at-Within n k (strip call) (resolve_session_id (strip call) r) r le w)
    ]

-- What may happen to a registry after a termination: another one; the two ids that `finish_and_pop`
-- remembers; or a change of the sessions and of the index of the legs, as `pop`, `add_leg` and the
-- others make it.
pub data Step : Type 0 where
  ends : Text → Step
  remembers : Text → Text → ℕ → Step
  replaces : Dict CallSession → Dict Text → Step

unfoldable pub step : Step → CallRegistry → CallRegistry
unfolding begin_termination
step (ends call) r = (begin_termination call r).1
step (remembers call sid generation) r = remember_terminated (call ∷ sid ∷ []) generation r
step (replaces sessions legs) r = record r { sessions = sessions; leg_index = legs }

unfoldable pub steps : List Step → CallRegistry → CallRegistry
unfolding step
steps [] r = r
steps (x ∷ xs) r = steps xs (step x r)

-- How many of the steps remember ids, of a call and of its session.
abbrev pub terminations : List Step → ℕ
terminations [] = 0
terminations (ends call ∷ xs) = suc (terminations xs)
terminations (remembers call sid generation ∷ xs) = suc (terminations xs)
terminations (replaces sessions legs ∷ xs) = terminations xs

steps-Within :
    (n : ℕ) (k : Text) (xs : List Step) (r : CallRegistry)
    → n + 2 * terminations xs ≤ max_terminated_call_ids
    → Within n k r.terminated_call_ids
    → has k (steps xs r).terminated_call_ids ≡ true
unfolding steps step
steps-Within n k [] r le w = has-Within n k r.terminated_call_ids w
steps-Within n k (ends call ∷ xs) r le w =
    steps-Within (n + 2) k xs (begin_termination call r).1 (omega arith)
      (begin_termination-Within n k call r (omega arith) w)
steps-Within n k (remembers call sid generation ∷ xs) r le w =
    steps-Within (n + 2) k xs (remember_terminated (call ∷ sid ∷ []) generation r) (omega arith)
      (remember_terminated-Within n generation k (call ∷ sid ∷ []) r (omega arith) w)
steps-Within n k (replaces sessions legs ∷ xs) r le w =
    steps-Within n k xs (record r { sessions = sessions; leg_index = legs }) le w

ended_in-has : (k : Text) (d : Dict ℕ) → has k d ≡ true → ended_in none (get k d) ≡ true
unfolding has get ended_in
ended_in-has k [] h = cc
ended_in-has k ((j, g) ∷ d) h = ground (arith, ended_in-has k d)

begin_termination_if :
    (call : Text) (r : CallRegistry)
    → begin_termination call r ≡ (
        if not (non_empty (strip call)) || is_terminated (strip call) none r
        then (false, r)
        else (true, begin_at (strip call) (resolve_session_id (strip call) r) r))
unfolding begin_termination
begin_termination_if call r = refl

is_terminated_remembered :
    (again : Text) (s : CallRegistry)
    → has (resolve_session_id (strip again) s) s.terminated_call_ids ≡ true
    → is_terminated (strip again) none s ≡ true
unfolding is_terminated
is_terminated_remembered again s held =
    or_true (ended_in none (get (strip (strip again)) s.terminated_call_ids))
      (ended_in none (get (resolve_session_id (strip (strip again)) s) s.terminated_call_ids))
      (ap (λ id. ended_in none (get (resolve_session_id id s) s.terminated_call_ids))
          (strip-strip again)
        ∙ ended_in-has (resolve_session_id (strip again) s) s.terminated_call_ids held)

refused_again :
    (again : Text) (s : CallRegistry)
    → has (resolve_session_id (strip again) s) s.terminated_call_ids ≡ true
    → begin_termination again s ≡ (false, s)
refused_again again s held =
    begin_termination_if again s
    ∙ ap
        (λ b.
          if b
          then (false, s)
          else (true, begin_at (strip again) (resolve_session_id (strip again) s) s))
        (or_true (not (non_empty (strip again))) (is_terminated (strip again) none s)
          (is_terminated_remembered again s held))

abbrev answered : Bool → CallRegistry → CallRegistry → Bool × CallRegistry
answered test r s = if test then (false, r) else (true, s)

begun_if :
    (test : Bool) (r s : CallRegistry) → (answered test r s).0 ≡ true → (answered test r s).1 ≡ s
begun_if true r s h = cc
begun_if false r s h = refl

begin_termination_begun :
    (call : Text) (r : CallRegistry)
    → (begin_termination call r).0 ≡ true
    → (begin_termination call r).1 ≡ begin_at (strip call) (resolve_session_id (strip call) r) r
unfolding begin_termination
begin_termination_begun call r h =
    begun_if (not (non_empty (strip call)) || is_terminated (strip call) none r) r
      (begin_at (strip call) (resolve_session_id (strip call) r) r) h

-- After begin_termination has answered true for a call with a clean session id that is not empty,
-- it answers false and changes nothing for every id that resolves to that session at that time,
-- however the sessions and the index of the legs have changed in between, as long as fewer than 256
-- other calls of begin_termination or finish_and_pop came in between and clear_runtime did not.
-- Once pop has dropped a leg from the index, the id of that leg need not resolve to the session.
pub begin_termination-begin_termination :
    (call again : Text) (xs : List Step) (r : CallRegistry)
    → (begin_termination call r).0 ≡ true
    → strip (resolve_session_id (strip call) r) ≡ resolve_session_id (strip call) r
    → non_empty (resolve_session_id (strip call) r) ≡ true
    → 2 * terminations xs < max_terminated_call_ids
    → resolve_session_id (strip again) (steps xs (begin_termination call r).1)
      ≡ resolve_session_id (strip call) r
    → begin_termination again (steps xs (begin_termination call r).1)
      ≡ (false, steps xs (begin_termination call r).1)
begin_termination-begin_termination call again xs r begun clean solid few same =
    let sid = resolve_session_id (strip call) r in
    let r1 = (begin_termination call r).1 in
    let s = steps xs r1 in
    let first : Within 1 sid r1.terminated_call_ids =
      subst (λ q. Within 1 sid q.terminated_call_ids) (sym (begin_termination_begun call r begun))
        (begin_at-Within_own (strip call) sid r clean solid) in
    let held : has sid s.terminated_call_ids ≡ true =
      steps-Within 1 sid xs r1 (omega arith) first in
    refused_again again s (ap (λ id. has id s.terminated_call_ids) same ∙ held)
