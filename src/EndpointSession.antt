-- ===== src/EndpointSession.antt =====
-- custom_components/voip_stack/endpoint_session.py: a call session, the owner of its legs, resources and tasks.
-- Python objects that the session only holds (dialogs, resource values, tasks) are numbers, their
-- identities. `notified` counts the calls of `on_changed`.
pub mod Termination
pub mod Stages
pub mod Trace
pub mod Order
pub mod Ownership
pub mod Unique
pub mod Reachable
pub mod Account
pub mod Examples
use esphome_intercom.Prelude.{
  ℕ, suc, ◌+◌, Bool, true, false, not, ◌&&◌, ◌||◌, Option, none, some, List, [], ◌∷◌, ◌++◌, map,
  any, ◌==◌, if◌then◌else◌, ltb, Text, codes, eq_text, non_empty, or_text, strip,
}

pub data SessionPhase : Type 0 where
  new routing calling ringing connecting established held transferring terminating terminated :
      SessionPhase

pub data LegPhase : Type 0 where
  leg_new inviting leg_ringing answered leg_held closing closed : LegPhase

pub data LegKind : Type 0 where
  sip browser esphome trunk assist conference : LegKind

pub data CleanupStage : Type 0 where
  observer media leg reservation projection : CleanupStage

-- int(stage)
abbrev pub stage_value : CleanupStage → ℕ
stage_value observer = 40
stage_value media = 30
stage_value leg = 20
stage_value reservation = 10
stage_value projection = 0

pub record CallToken : Type 0 where
  pub token_call_id : Text
  pub token_generation : ℕ

-- `close_task` is there once the close has begun.
pub record CallLeg : Type 0 where
  pub leg_id : Text
  pub kind : LegKind
  pub leg_phase : LegPhase
  pub dialog : Option ℕ
  pub close_task : Bool

pub record ManagedResource : Type 0 where
  pub name : Text
  pub value : ℕ
  pub stage : CleanupStage

pub record Session : Type 0 where
  pub call_id : Text
  pub generation : ℕ
  pub phase : SessionPhase
  pub terminal_reason : Text
  pub legs : List CallLeg
  pub resources : List ManagedResource
  pub tasks : List ℕ
  pub metadata : List (Text × Text)
  pub termination_started : Bool
  pub termination_done : Bool
  pub termination_task : Bool
  pub termination_initiator : Option ℕ
  pub notified : ℕ

pub data SessionError : Type 0 where
  empty_call_id bad_generation not_current invalid_transition : SessionError
  duplicate_leg empty_resource duplicate_resource : SessionError

-- What an operation returns, with the session behind it, or what it raises.
pub data Answer {ℓ} (A : Type ℓ) : Type ℓ where
  accepted : A → Session → Answer A
  rejected : SessionError → Answer A

abbrev pub notify : Session → Session
notify s = record s { notified = s.notified + 1 }

unfoldable pub new_session : Text → ℕ → SessionPhase → Answer (Unit {0})
new_session call_id generation phase =
    let clean_call_id = strip call_id in
    if not (non_empty clean_call_id)
    then rejected empty_call_id
    else if generation == 0
    then rejected bad_generation
    else accepted tt (record {
      call_id = clean_call_id;
      generation = generation;
      phase = phase;
      terminal_reason = [];
      legs = [];
      resources = [];
      tasks = [];
      metadata = [];
      termination_started = false;
      termination_done = false;
      termination_task = false;
      termination_initiator = none;
      notified = 0;
    })

unfoldable pub is_live : SessionPhase → Bool
is_live terminating = false
is_live terminated = false
is_live _ = true

unfoldable pub owns : Session → CallToken → Bool
unfolding is_live
owns s token =
    is_live s.phase
    && eq_text token.token_call_id s.call_id
    && token.token_generation == s.generation

-- self.ensure_live(), then the rest of the operation
unfoldable pub ensure_live {ℓ} : {A : Type ℓ} → Session → Answer A → Answer A
unfolding is_live
ensure_live s rest = if is_live s.phase then rest else rejected not_current

-- `admits` is `expected is None or self.phase in expected`.
unfoldable pub transition : (SessionPhase → Bool) → SessionPhase → Session → Answer (Unit {0})
transition admits phase s = ensure_live s (
    if admits s.phase
    then accepted tt (notify (record s { phase = phase }))
    else rejected invalid_transition)

unfoldable pub metadata_get : Text → List (Text × Text) → Option Text
metadata_get key [] = none
metadata_get key ((k, v) ∷ rest) = if eq_text k key then some v else metadata_get key rest

unfoldable pub metadata_set : Text → Text → List (Text × Text) → List (Text × Text)
metadata_set key value [] = (key, value) ∷ []
metadata_set key value ((k, v) ∷ rest) =
    let later = metadata_set key value rest in
    if eq_text k key then (k, value) ∷ rest else (k, v) ∷ later

-- Whether a value is there already.
unfoldable pub same_value : Option Text → Text → Bool
same_value none value = false
same_value (some v) value = eq_text v value

-- The loop over `values`: the metadata, and `changed`.
unfoldable pub set_all : List (Text × Text) → List (Text × Text) → Bool → List (Text × Text) × Bool
unfolding metadata_get metadata_set same_value
set_all [] metadata changed = (metadata, changed)
set_all ((key, value) ∷ values) metadata changed =
    let kept = set_all values metadata changed in
    let stored = set_all values (metadata_set key value metadata) true in
    if same_value (metadata_get key metadata) value then kept else stored

unfoldable pub update_metadata : List (Text × Text) → Session → Answer (Unit {0})
update_metadata values s =
    let (metadata, changed) = set_all values s.metadata false in
    let s' = record s { metadata = metadata } in
    ensure_live s (accepted tt (if changed then notify s' else s'))

unfoldable pub has_leg : Text → List CallLeg → Bool
has_leg id [] = false
has_leg id (l ∷ legs) = eq_text l.leg_id id || has_leg id legs

unfoldable pub add_leg : CallLeg → Session → Answer (Unit {0})
add_leg l s = ensure_live s (
    if not (non_empty l.leg_id) || has_leg l.leg_id s.legs
    then rejected duplicate_leg
    else accepted tt (record s { legs = s.legs ++ l ∷ [] }))

unfoldable pub has_resource : Text → List ManagedResource → Bool
has_resource name [] = false
has_resource name (r ∷ resources) = eq_text r.name name || has_resource name resources

unfoldable pub add_resource : Text → ℕ → CleanupStage → Session → Answer (Unit {0})
add_resource name value stage s =
    let resource : ManagedResource = record { name = name; value = value; stage = stage } in
    ensure_live s (
      if not (non_empty (strip name))
      then rejected empty_resource
      else if has_resource name s.resources
      then rejected duplicate_resource
      else accepted tt (record s { resources = s.resources ++ resource ∷ [] }))

-- `value is None or resource.value is value`
unfoldable pub matches : Option ℕ → ℕ → Bool
matches none value = true
matches (some v) value = v == value

-- The first resource that fits, and the others.
unfoldable pub pop_resource :
    Text → Option ℕ → List ManagedResource → Option ManagedResource × List ManagedResource
unfolding matches
pop_resource name value [] = (none, [])
pop_resource name value (r ∷ resources) =
    let (found, rest) = pop_resource name value resources in
    if eq_text r.name name && matches value r.value then (some r, resources) else (found, r ∷ rest)

unfoldable pub release_resource : Text → Option ℕ → Session → Answer (Option ManagedResource)
release_resource name value s =
    let (found, rest) = pop_resource name value s.resources in
    ensure_live s (accepted found (record s { resources = rest }))

-- `dialog is not None and leg.dialog is not dialog`, negated
unfoldable pub same_dialog : Option ℕ → Option ℕ → Bool
same_dialog none held_dialog = true
same_dialog (some d) none = false
same_dialog (some d) (some e) = d == e

-- self.legs.get(leg_id), and the legs without it
unfoldable pub pop_leg : Text → List CallLeg → Option CallLeg × List CallLeg
pop_leg id [] = (none, [])
pop_leg id (l ∷ legs) =
    let (found, rest) = pop_leg id legs in
    if eq_text l.leg_id id then (some l, legs) else (found, l ∷ rest)

unfoldable pub release_leg : Text → Option ℕ → Session → Answer (Option CallLeg)
unfolding same_dialog
release_leg id dialog s =
    let (found, rest) = pop_leg (strip id) s.legs in
    ensure_live s (elim found [
      | none ↦ accepted none s
      | some l ↦
          if same_dialog dialog l.dialog
          then accepted (some l) (record s { legs = rest })
          else accepted none s
    ])

unfoldable pub discard_task : ℕ → List ℕ → List ℕ
discard_task task [] = []
discard_task task (t ∷ tasks) =
    let rest = discard_task task tasks in if t == task then rest else t ∷ rest

unfoldable pub own_task : ℕ → Session → Answer (Unit {0})
own_task task s =
    ensure_live s (accepted tt (record s { tasks = task ∷ discard_task task s.tasks }))

unfoldable pub release_task : ℕ → Session → Answer Bool
release_task task s = ensure_live s (
    if any (λ t. t == task) s.tasks
    then accepted true (record s { tasks = discard_task task s.tasks })
    else accepted false s)

-- start_termination: `initiator` is asyncio.current_task().
unfoldable pub start_termination : Text → Option ℕ → Session → Session
start_termination reason initiator s =
    if s.termination_task
    then s
    else notify (record s {
      termination_initiator = initiator;
      tasks = elim initiator [ none ↦ s.tasks | some t ↦ discard_task t s.tasks ];
      phase = terminating;
      terminal_reason = or_text reason (codes "terminated");
      termination_started = true;
      termination_task = true;
    })
