-- ===== src/Fsm/Examples.antt =====
-- Runs of the outcome vocabulary of custom_components/voip_stack/fsm.py.
use esphome_intercom.Prelude.{Text, codes, eq_text, ◌≡◌, refl, true, false, none}
use esphome_intercom.Fsm.{sip_public_state, sip_terminal_reason, sip_failure_response}
use esphome_intercom.Fsm.Outcomes.{
  sip_public_state-sip_public_state, status_word, is_specific, is_failure_status,
  sip_failure_response-sip_public_state, sip_failure_response_bounds,
}

abbrev refused : Text
refused = codes " SIP_603 "

refused_response : (sip_failure_response refused).status ≡ 603
unfolding sip_failure_response
refused_response = refl

dnd_response : (sip_failure_response (codes "dnd")).status ≡ 486
unfolding sip_failure_response
dnd_response = refl

refused_not_dnd : eq_text (sip_failure_response refused).terminal_reason (codes "dnd") ≡ false
unfolding sip_failure_response
refused_not_dnd = refl

refused_specific : is_specific (sip_failure_response refused).status ≡ true
unfolding sip_failure_response
refused_specific = refl

unknown_reason : sip_terminal_reason (codes "sip_500") none ≡ codes "sip_500"
unfolding sip_terminal_reason
unknown_reason = refl

sip_failure_response-sip_public_state_example :
    sip_public_state (status_word (sip_failure_response refused).status)
    ≡ (sip_failure_response refused).public_state
sip_failure_response-sip_public_state_example =
    sip_failure_response-sip_public_state refused refused_not_dnd refused_specific

sip_public_state-sip_public_state_example :
    sip_public_state (sip_public_state refused) ≡ sip_public_state refused
sip_public_state-sip_public_state_example = sip_public_state-sip_public_state refused

sip_failure_response_bounds_example :
    (is_failure_status (sip_failure_response refused).status ≡ true)
    × (sip_public_state (sip_failure_response refused).public_state
        ≡ (sip_failure_response refused).public_state)
sip_failure_response_bounds_example = sip_failure_response_bounds refused
