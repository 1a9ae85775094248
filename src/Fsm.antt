-- ===== src/Fsm.antt =====
-- The vocabulary of call outcomes of custom_components/voip_stack/fsm.py.
mod Outcomes
mod Examples
use esphome_intercom.Prelude.{
  if◌then◌else◌, Text, codes, eq_text, non_empty, or_text, mem_text, strip, lower, starts_with,
  Dict, get, ℕ, Option, none, some, [], ◌∷◌,
}

pub data CallState : Type 0 where
  idle : CallState
  calling : CallState
  remote_ringing : CallState
  ringing : CallState
  connecting : CallState
  in_call : CallState
  terminating : CallState
  busy : CallState
  declined : CallState
  cancelled : CallState
  media_incompatible : CallState
  transport_unreachable : CallState
  auth_required_unsupported : CallState

-- The `.value` of a member of the enumeration.
unfoldable pub state_text : CallState → Text
state_text idle = codes "idle"
state_text calling = codes "calling"
state_text remote_ringing = codes "remote_ringing"
state_text ringing = codes "ringing"
state_text connecting = codes "connecting"
state_text in_call = codes "in_call"
state_text terminating = codes "terminating"
state_text busy = codes "busy"
state_text declined = codes "declined"
state_text cancelled = codes "cancelled"
state_text media_incompatible = codes "media_incompatible"
state_text transport_unreachable = codes "transport_unreachable"
state_text auth_required_unsupported = codes "auth_required_unsupported"

-- The dictionary that `sip_public_state` looks a word up in.
abbrev pub state_mapping : Dict CallState
state_mapping =
    (codes "", idle)
    ∷ (codes "idle", idle)
    ∷ (codes "calling", calling)
    ∷ (codes "answered", in_call)
    ∷ (codes "in_call", in_call)
    ∷ (codes "ringing", ringing)
    ∷ (codes "remote_ringing", remote_ringing)
    ∷ (codes "connecting", connecting)
    ∷ (codes "terminating", terminating)
    ∷ (codes "busy", busy)
    ∷ (codes "declined", declined)
    ∷ (codes "dnd", declined)
    ∷ (codes "cancelled", cancelled)
    ∷ (codes "media_incompatible", media_incompatible)
    ∷ (codes "transport_unreachable", transport_unreachable)
    ∷ (codes "auth_required_unsupported", auth_required_unsupported)
    ∷ (codes "proxy_auth_required_unsupported", auth_required_unsupported)
    ∷ (codes "sip_486", busy)
    ∷ (codes "sip_603", declined)
    ∷ (codes "sip_487", cancelled)
    ∷ (codes "sip_488", media_incompatible)
    ∷ (codes "sip_401", auth_required_unsupported)
    ∷ (codes "sip_407", auth_required_unsupported)
    ∷ (codes "local_hangup", idle)
    ∷ (codes "remote_hangup", idle)
    ∷ (codes "not_in_call", idle)
    ∷ (codes "timeout", transport_unreachable)
    ∷ (codes "error", transport_unreachable)
    ∷ (codes "protocol_error", transport_unreachable)
    ∷ []

-- (s or "").strip().lower()
unfoldable pub outcome_word : Text → Text
unfolding strip lower
outcome_word s = lower (strip s)

-- `mapping[value]` where the word is there, and the two returns below it.
unfoldable pub state_or_unreachable : Text → Option CallState → CallState
unfolding starts_with
state_or_unreachable value (some state) = state
state_or_unreachable value none =
    if starts_with value (codes "sip_")
    then transport_unreachable
    else if non_empty value
    then transport_unreachable
    else idle

unfoldable pub state_of : Text → CallState
unfolding state_or_unreachable get eq_text
state_of value = state_or_unreachable value (get value state_mapping)

unfoldable pub sip_public_state : Text → Text
unfolding state_text state_of outcome_word
sip_public_state state = state_text (state_of (outcome_word state))

-- The dictionary that `sip_terminal_reason` looks a word up in.
abbrev pub reason_mapping : Dict Text
reason_mapping =
    (codes "local_hangup", codes "local_hangup")
    ∷ (codes "remote_hangup", codes "remote_hangup")
    ∷ (codes "not_in_call", codes "local_hangup")
    ∷ (codes "sip_486", codes "busy")
    ∷ (codes "sip_603", codes "declined")
    ∷ (codes "sip_487", codes "cancelled")
    ∷ (codes "sip_488", codes "media_incompatible")
    ∷ (codes "sip_401", codes "auth_required_unsupported")
    ∷ (codes "sip_407", codes "proxy_auth_required_unsupported")
    ∷ (codes "dnd", codes "dnd")
    ∷ []

-- The returns of `sip_terminal_reason`, at the word and its entry in the dictionary.
unfoldable pub reason_or_state : Text → Text → Option Text → Text
unfolding eq_text mem_text starts_with
reason_or_state value public_state (some reason) = reason
reason_or_state value public_state none =
    if eq_text value (codes "timeout")
    then codes "timeout"
    else if mem_text value (codes "error" ∷ codes "protocol_error" ∷ [])
    then codes "protocol_error"
    else if starts_with value (codes "sip_")
    then value
    else public_state

-- `public_state` is none where the argument is left out.
unfoldable pub sip_terminal_reason : Text → Option Text → Text
unfolding reason_or_state outcome_word sip_public_state get eq_text
sip_terminal_reason result none =
    reason_or_state (outcome_word result) (sip_public_state result)
      (get (outcome_word result) reason_mapping)
sip_terminal_reason result (some public_state) =
    reason_or_state (outcome_word result) (or_text public_state (sip_public_state result))
      (get (outcome_word result) reason_mapping)

-- The tuple of `sip_failure_response`.
pub record FailureResponse : Type 0 where
  pub status : ℕ
  pub phrase : Text
  pub terminal_reason : Text
  pub public_state : Text

unfoldable pub failure_of : Text → Text → FailureResponse
unfolding eq_text state_text
failure_of reason state =
    let answer : ℕ → Text → FailureResponse = λ status phrase. record {
      status = status;
      phrase = phrase;
      terminal_reason = reason;
      public_state = state;
    } in
    if eq_text reason (codes "dnd")
    then answer 486 (codes "Busy Here")
    else if eq_text state (state_text busy)
    then answer 486 (codes "Busy Here")
    else if eq_text state (state_text declined)
    then answer 603 (codes "Decline")
    else if eq_text state (state_text cancelled)
    then answer 487 (codes "Request Terminated")
    else if eq_text state (state_text media_incompatible)
    then answer 488 (codes "Not Acceptable Here")
    else if eq_text reason (codes "timeout")
    then answer 408 (codes "Request Timeout")
    else answer 480 (codes "Temporarily Unavailable")

unfoldable pub sip_failure_response : Text → FailureResponse
unfolding failure_of sip_public_state sip_terminal_reason
sip_failure_response result =
    failure_of (sip_terminal_reason result (some (sip_public_state result)))
      (sip_public_state result)
