-- ===== src/EndpointSession/Examples.antt =====
-- endpoint_session.py: the theorems of EndpointSession at the session of one bridged call.
use mathlib.Core.List.{reverse}
use esphome_intercom.Prelude.{
  ℕ, ◌+◌, ◌≡◌, refl, false, none, some, List, [], ◌∷◌, codes, strip, eq_text, if◌then◌else◌, length,
}
use esphome_intercom.EndpointSession.{
  Session, routing, CallLeg, leg_new, sip, trunk, media, reservation, accepted, new_session,
  start_termination,
}
use esphome_intercom.EndpointSession.Termination.{
  Closers, run_termination, task_errors, cancelled_tasks,
}
use esphome_intercom.EndpointSession.Stages.{of_stage}
use esphome_intercom.EndpointSession.Order.{Falls, run_termination_order}
use esphome_intercom.EndpointSession.Trace.{closed_resources_of, closed_legs_of}
use esphome_intercom.EndpointSession.Account.{run_termination_accounts}
use esphome_intercom.EndpointSession.Ownership.{Op, operate, IsEnding, Keeps}
use esphome_intercom.EndpointSession.Reachable.{
  IsSession, operate-IsSession, start_termination-Keeps,
}

abbrev empty : Session
empty = record {
  call_id = codes "call";
  generation = 1;
  phase = routing;
  terminal_reason = [];
  legs = [];
  resources = [];
  tasks = [];
  metadata = [];
  termination_started = false;
  termination_done = false;
  termination_task = false;
  termination_initiator = none;
  notified = 0;
}

creates : new_session (codes " call ") 1 routing ≡ accepted tt empty
unfolding new_session strip
creates = refl

abbrev phone_leg : CallLeg
phone_leg = record {
  leg_id = codes "phone";
  kind = sip;
  leg_phase = leg_new;
  dialog = some 1;
  close_task = false;
}

abbrev trunk_leg : CallLeg
trunk_leg = record {
  leg_id = codes "trunk";
  kind = trunk;
  leg_phase = leg_new;
  dialog = none;
  close_task = false;
}

-- Two legs, a reservation, and a relay over it.
abbrev building : List Op
building =
    Op.does_add_leg phone_leg
    ∷ Op.does_add_resource (codes "ports") 5 reservation
    ∷ Op.does_add_leg trunk_leg
    ∷ Op.does_add_resource (codes "relay") 6 media
    ∷ Op.does_own_task 9
    ∷ []

operate-IsSession_example : IsSession (operate building empty)
operate-IsSession_example = operate-IsSession (codes " call ") 1 routing empty building creates

built : IsSession (operate building empty)
built = operate-IsSession (codes " call ") 1 routing empty building creates

start_termination-Keeps_example :
    IsEnding (
      operate
        (Op.does_start_termination (codes "late") none ∷ building)
        (start_termination (codes "bye") (some 9) (operate building empty)))
    × Keeps (start_termination (codes "bye") (some 9) (operate building empty)) (
        operate
          (Op.does_start_termination (codes "late") none ∷ building)
          (start_termination (codes "bye") (some 9) (operate building empty)))
start_termination-Keeps_example =
    start_termination-Keeps (codes "bye") (some 9) (operate building empty)
      (Op.does_start_termination (codes "late") none ∷ building) built

abbrev bridged : Session
bridged = record empty {
  legs = phone_leg ∷ trunk_leg ∷ [];
  resources =
      record { name = codes "ports"; value = 5; stage = reservation }
      ∷ record { name = codes "relay"; value = 6; stage = media }
      ∷ [];
  tasks = 9 ∷ [];
}

-- The relay's closer raises.
abbrev env : Closers
env = record {
  resource_error = λ name. if eq_text name (codes "relay") then some (codes "OSError") else none;
  leg_error = λ id. none;
  task_done = λ t. false;
  task_error = λ t. none;
  task_name = λ t. [];
}

run_termination_order_example :
    Falls (run_termination env 10 bridged).1
    × ((n : ℕ)
        → of_stage n (closed_resources_of (run_termination env 10 bridged).1)
          ≡ reverse (of_stage n bridged.resources))
    × (closed_legs_of (run_termination env 10 bridged).1 ≡ reverse bridged.legs)
run_termination_order_example = run_termination_order env 10 bridged

run_termination_accounts_example :
    length (run_termination env 10 bridged).0.closed_resources
      + length (run_termination env 10 bridged).0.closed_legs
      + length (run_termination env 10 bridged).0.errors
    ≡ 2 + 2 + length (task_errors env (cancelled_tasks 10 none (9 ∷ [])))
run_termination_accounts_example = run_termination_accounts env 10 bridged
