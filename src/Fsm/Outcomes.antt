-- ===== src/Fsm/Outcomes.antt =====
-- Laws of the outcome vocabulary of custom_components/voip_stack/fsm.py.
use esphome_intercom.Prelude.{
  ◌==◌, Text, codes, eq_text, ℕ, ◌+◌, ◌/◌, ◌%◌, ◌≡◌, refl, sym, ap, ◌∙◌, Bool, true, false, ◌||◌,
  some, [], ◌∷◌, ◌++◌, arith,
}
use esphome_intercom.Fsm.{
  CallState, idle, calling, remote_ringing, ringing, connecting, in_call, terminating, busy,
  declined, cancelled, media_incompatible, transport_unreachable, auth_required_unsupported,
  state_text, outcome_word, state_of, sip_public_state, sip_terminal_reason, failure_of,
  sip_failure_response,
}

-- The public states are the fixed points of the normalization.
sip_public_state-state_text :
    (state : CallState) → sip_public_state (state_text state) ≡ state_text state
unfolding sip_public_state
sip_public_state-state_text idle = refl
sip_public_state-state_text calling = refl
sip_public_state-state_text remote_ringing = refl
sip_public_state-state_text ringing = refl
sip_public_state-state_text connecting = refl
sip_public_state-state_text in_call = refl
sip_public_state-state_text terminating = refl
sip_public_state-state_text busy = refl
sip_public_state-state_text declined = refl
sip_public_state-state_text cancelled = refl
sip_public_state-state_text media_incompatible = refl
sip_public_state-state_text transport_unreachable = refl
sip_public_state-state_text auth_required_unsupported = refl

state_of_lem : (result : Text) → (state : CallState) × (sip_public_state result ≡ state_text state)
unfolding sip_public_state
state_of_lem result = (state_of (outcome_word result), refl)

pub sip_public_state-sip_public_state :
    (result : Text) → sip_public_state (sip_public_state result) ≡ sip_public_state result
sip_public_state-sip_public_state result =
    let (state, named) = state_of_lem result in rw named (sip_public_state-state_text state)

-- The reason code that a status of a SIP response is logged under.
abbrev pub status_word : ℕ → Text
status_word status =
    codes "sip_" ++ (b'0' + status / 100) ∷ (b'0' + status / 10 % 10) ∷ (b'0' + status % 10) ∷ []

-- One of the statuses that name an outcome.
abbrev pub is_specific : ℕ → Bool
is_specific status = status == 486 || status == 487 || status == 488 || status == 603

pub failure_round_trip :
    (reason : Text) (state : CallState)
    → eq_text reason (codes "dnd") ≡ false
    → is_specific (failure_of reason (state_text state)).status ≡ true
    → sip_public_state (status_word (failure_of reason (state_text state)).status)
      ≡ state_text state
unfolding failure_of sip_public_state
failure_round_trip reason idle h k = ground arith
failure_round_trip reason calling h k = ground arith
failure_round_trip reason remote_ringing h k = ground arith
failure_round_trip reason ringing h k = ground arith
failure_round_trip reason connecting h k = ground arith
failure_round_trip reason in_call h k = ground arith
failure_round_trip reason terminating h k = ground arith
failure_round_trip reason busy h k = ground arith
failure_round_trip reason declined h k = ground arith
failure_round_trip reason cancelled h k = ground arith
failure_round_trip reason media_incompatible h k = ground arith
failure_round_trip reason transport_unreachable h k = ground arith
failure_round_trip reason auth_required_unsupported h k = ground arith

-- The statuses that the response can have.
abbrev pub is_failure_status : ℕ → Bool
is_failure_status status = is_specific status || status == 408 || status == 480

failure_of_status :
    (reason state : Text) → is_failure_status (failure_of reason state).status ≡ true
unfolding failure_of
failure_of_status reason state = ground arith

failure_of_reason : (reason state : Text) → (failure_of reason state).terminal_reason ≡ reason
unfolding failure_of
failure_of_reason reason state = ground arith

failure_of_state : (reason state : Text) → (failure_of reason state).public_state ≡ state
unfolding failure_of
failure_of_state reason state = ground arith

failure_of-sip_public_state :
    (reason written : Text) (state : CallState)
    → written ≡ state_text state
    → eq_text (failure_of reason written).terminal_reason (codes "dnd") ≡ false
    → is_specific (failure_of reason written).status ≡ true
    → sip_public_state (status_word (failure_of reason written).status)
      ≡ (failure_of reason written).public_state
failure_of-sip_public_state reason written state named = rw named λ h k.
    failure_round_trip reason state
      (sym (ap (λ r. eq_text r (codes "dnd")) (failure_of_reason reason (state_text state))) ∙ h) k
    ∙ sym (failure_of_state reason (state_text state))

-- A failure response with status 486, 487, 488 or 603 whose reason is not dnd names its public
-- state: the code sip_ with this status is normalized to it.
pub sip_failure_response-sip_public_state :
    (result : Text)
    → eq_text (sip_failure_response result).terminal_reason (codes "dnd") ≡ false
    → is_specific (sip_failure_response result).status ≡ true
    → sip_public_state (status_word (sip_failure_response result).status)
      ≡ (sip_failure_response result).public_state
unfolding sip_failure_response
sip_failure_response-sip_public_state result =
    let (state, named) = state_of_lem result in
    failure_of-sip_public_state (sip_terminal_reason result (some (sip_public_state result)))
      (sip_public_state result) state named

-- Whatever the outcome word, a failure response has status 408, 480, 486, 487, 488 or 603, and its
-- public state is one that the normalization leaves as it is.
pub sip_failure_response_bounds :
    (result : Text)
    → (is_failure_status (sip_failure_response result).status ≡ true)
      × (sip_public_state (sip_failure_response result).public_state
          ≡ (sip_failure_response result).public_state)
unfolding sip_failure_response
sip_failure_response_bounds result =
    let reason = sip_terminal_reason result (some (sip_public_state result)) in
    let state = sip_public_state result in
    (
      failure_of_status reason state,
      rw (failure_of_state reason state) (sip_public_state-sip_public_state result),
    )
