-- ===== src/EndpointRegistry/Examples.antt =====
-- Two phones in the registry of custom_components/voip_stack/endpoint_registry.py.
use esphome_intercom.EndpointRegistry.Lookup.{by_device_id, by_entity_id}
use esphome_intercom.EndpointRegistry.Passed.{device_claims, entity_claims}
use esphome_intercom.EndpointRegistry.Index.{stands_in}
use esphome_intercom.EndpointRegistry.Indexed.{IsIndexed}
use esphome_intercom.EndpointRegistry.Calls.{claim_call, release_call}
use esphome_intercom.EndpointRegistry.Invariant.{run-IsIndexed}
use esphome_intercom.EndpointRegistry.Kept.{Holds, apply-keeps_claim}
use esphome_intercom.EndpointRegistry.Found.{by_device_id_iff, by_entity_id_iff}
use esphome_intercom.EndpointRegistry.Lifecycle.{with_call, claim_call-release_call}
use esphome_intercom.EndpointRegistry.Named.{is_routable, new_endpoint_sound}
use esphome_intercom.EndpointRegistry.Rejected.{Collides}
use esphome_intercom.EndpointRegistry.Registration.{has_rival, Registers, register-has_rival}
use esphome_intercom.Prelude.{
  leb, Text, codes, eq_text, non_empty, strip, lower, get, raise, return, ◌≡◌, refl, ◌↔◌, ◌⊎◌, true,
  false, ◌&&◌, ◌||◌, some, List, [], ◌∷◌,
}
use esphome_intercom.PhoneEndpoint.{
  Unicode, esphome, available, refuse, PhoneEndpoint, flag_bool, flag_int, flag_text, absent,
  single, Draft, key, new_endpoint,
}
use esphome_intercom.EndpointRegistry.State.{busy, Registry, empty_registry}
use esphome_intercom.EndpointRegistry.Operations.{get_endpoint, register}
use esphome_intercom.EndpointRegistry.Runs.{
  Op, op_register, op_claim, op_release, apply, run, frees,
}

pub lower_keeps : (s : Text) → non_empty s ≡ true → non_empty (lower s) ≡ true
unfolding lower
lower_keeps [] h = h
lower_keeps (c ∷ s) h = refl

pub lower_empty : lower [] ≡ []
unfolding lower
lower_empty = refl

-- The tables for ASCII text with no percent sign.
abbrev pub ascii : Unicode
ascii = record {
  casefold = lower;
  lower_case = lower;
  is_alnum = λ c. leb b'0' c && leb c b'9' || leb b'A' c && leb c b'Z' || leb b'a' c && leb c b'z';
  unquote = λ s. s;
  casefold_empty = lower_empty;
  casefold_keeps = lower_keeps;
}

abbrev pub draft : Text → Text → Text → Text → Draft
draft id called number device = record {
  endpoint_id = id;
  name = called;
  kind = codes "esphome";
  extension = number;
  username = [];
  device_id = device;
  entity_ids = single (codes "switch.a");
  availability = codes "available";
  capabilities = absent;
  dnd = flag_bool false;
  auto_answer = flag_int 1;
  send_video = flag_text (codes " No ");
  offline_policy = codes "unavailable";
  ring_group = [];
  conference_group = [];
  conference_ring = flag_bool false;
  offline_forward_target = [];
  active_call_id = [];
}

abbrev pub kitchen : Text → PhoneEndpoint
kitchen call = record {
  endpoint_id = codes "K";
  name = codes "Cook";
  kind = esphome;
  extension = codes "10";
  username = [];
  device_id = codes "d1";
  entity_ids = codes "switch.a" ∷ [];
  availability = available;
  capabilities = [];
  dnd = false;
  auto_answer = true;
  send_video = false;
  offline_policy = refuse;
  ring_group = [];
  conference_group = [];
  conference_ring = false;
  offline_forward_target = [];
  active_call_id = call;
}

abbrev setup : List Op
setup =
    op_register (draft (codes " K ") (codes "Cook") (codes "10") (codes "d1"))
    ∷ op_register (draft (codes "h") (codes "cook!") (codes "11") (codes "d2"))
    ∷ []

kitchen_stored : get_endpoint ascii (run ascii setup empty_registry) (codes "k") ≡ some (kitchen [])
unfolding run get_endpoint lower
kitchen_stored = refl

second_rejected :
    (run ascii setup empty_registry).route_index
    ≡ (codes "cook", codes "k") ∷ (codes "10", codes "k") ∷ []
unfolding run lower
second_rejected = refl

abbrev talking : List Op
talking =
    op_register (draft (codes "K") (codes "Cook") (codes "10") (codes "d1"))
    ∷ op_claim (codes "k") (codes "call-1")
    ∷ []

kitchen_engaged :
    get (codes "k") (run ascii talking empty_registry).endpoints ≡ some (kitchen (codes "call-1"))
unfolding run get lower
kitchen_engaged = refl

stranger_bars :
    frees ascii (op_release (codes "k") (codes "call-2")) (kitchen (codes "call-1")) ≡ false
unfolding key lower eq_text
stranger_bars = refl

run-IsIndexed_example : IsIndexed ascii (run ascii setup empty_registry)
run-IsIndexed_example = run-IsIndexed ascii setup

apply-keeps_claim_example :
    Holds
      (codes "k")
      (codes "call-1")
      (apply ascii (op_release (codes "k") (codes "call-2")) (run ascii talking empty_registry))
apply-keeps_claim_example =
    apply-keeps_claim ascii talking (op_release (codes "k") (codes "call-2")) (codes "k")
      (kitchen (codes "call-1")) kitchen_engaged refl stranger_bars

by_device_id_iff_example :
    (by_device_id ascii (run ascii setup empty_registry) (codes "D1") ≡ some (kitchen [])) ↔ (
      (get_endpoint ascii (run ascii setup empty_registry) (codes "K") ≡ some (kitchen []))
      × (stands_in (key ascii (codes "D1")) (device_claims ascii (kitchen [])) ≡ true))
by_device_id_iff_example = by_device_id_iff ascii setup (codes "D1") (kitchen [])

by_entity_id_iff_example :
    (by_entity_id ascii (run ascii setup empty_registry) (codes "switch.A") ≡ some (kitchen [])) ↔ (
      (get_endpoint ascii (run ascii setup empty_registry) (codes "K") ≡ some (kitchen []))
      × (stands_in (key ascii (codes "switch.A")) (entity_claims ascii (kitchen [])) ≡ true))
by_entity_id_iff_example = by_entity_id_iff ascii setup (codes "switch.A") (kitchen [])

call_stripped : non_empty (strip (codes "call-1")) ≡ true
unfolding strip
call_stripped = refl

other_stripped : non_empty (strip (codes "call-2")) ≡ true
unfolding strip
other_stripped = refl

calls_differ : eq_text (strip (codes "call-1")) (strip (codes "call-2")) ≡ false
unfolding strip eq_text
calls_differ = refl

claim_call-release_call_example :
    (s : Registry) × (claim_call ascii (run ascii setup empty_registry) (codes "k") (codes "call-1")
      ≡ return (with_call (kitchen []) (strip (codes "call-1")), s))
    × (get_endpoint ascii s (codes "k") ≡ some (with_call (kitchen []) (strip (codes "call-1"))))
    × (claim_call ascii s (codes "k") (codes "call-1")
        ≡ return (with_call (kitchen []) (strip (codes "call-1")), s))
    × (claim_call ascii s (codes "k") (codes "call-2")
        ≡ raise (busy (codes "K") (strip (codes "call-1")) (strip (codes "call-2"))))
    × (release_call ascii s (codes "k") (codes "call-2") ≡ return (false, s))
    × (t : Registry) × (release_call ascii s (codes "k") (codes "call-1") ≡ return (true, t))
    × (get_endpoint ascii t (codes "k") ≡ some (with_call (kitchen []) []))
claim_call-release_call_example =
    claim_call-release_call ascii setup (codes "k") (codes "call-1") (codes "call-2") (kitchen [])
      kitchen_stored refl call_stripped other_stripped calls_differ

register-has_rival_example :
    ((has_rival ascii (kitchen []) (run ascii setup empty_registry) ≡ false)
      × Registers ascii (kitchen []) (register ascii (run ascii setup empty_registry) (kitchen [])))
    ⊎ ((has_rival ascii (kitchen []) (run ascii setup empty_registry) ≡ true)
        × Collides ascii
            (run ascii setup empty_registry)
            (kitchen [])
            (register ascii (run ascii setup empty_registry) (kitchen [])))
register-has_rival_example = register-has_rival ascii setup (kitchen [])

kitchen_made :
    new_endpoint ascii (draft (codes " K ") (codes "Cook") (codes "10") (codes "d1"))
    ≡ return (kitchen [])
unfolding new_endpoint lower
kitchen_made = refl

new_endpoint_sound_example :
    (codes "K" ≡ strip (codes " K "))
    × (non_empty (key ascii (codes "K")) ≡ true)
    × (codes "Cook" ≡ strip (codes "Cook"))
    × (non_empty (codes "Cook") ≡ true)
    × (is_routable esphome refuse [] ≡ true)
new_endpoint_sound_example =
    new_endpoint_sound ascii (draft (codes " K ") (codes "Cook") (codes "10") (codes "d1"))
      (kitchen []) kitchen_made
