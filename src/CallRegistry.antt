-- ===== src/CallRegistry.antt =====
-- The terminations of calls, after `CallRegistry` of custom_components/voip_stack/call_registry.py; the
-- phones that a call claims stand in Claims.
mod Recent
mod Once
mod Summary
mod Claims
mod Released
mod Losing
mod Claimed
mod Examples
use esphome_intercom.Prelude.{
  ltb, ◌==◌, if◌then◌else◌, length, Text, codes, eq_text, non_empty, strip, Dict, get, put, pop,
  has, ℕ, ◌+◌, Bool, true, false, not, ◌||◌, Option, none, some, List, [], ◌∷◌, ◌++◌,
}

abbrev pub max_terminated_call_ids : ℕ
max_terminated_call_ids = 512

abbrev pub max_terminal_summary_ids : ℕ
max_terminal_summary_ids = 512

-- The fields of CallSession that a termination reads or writes; `metadata` holds texts.
pub record CallSession : Type 0 where
  pub generation : ℕ
  pub revision : ℕ
  pub metadata : Dict Text

-- The fields of CallRegistry that terminations use. The two ordered dictionaries have the oldest
-- entry first, and the second maps to None.
pub record CallRegistry : Type 0 where
  pub sessions : Dict CallSession
  pub leg_index : Dict Text
  pub terminated_call_ids : Dict ℕ
  pub terminal_summary_ids : Dict (Unit {0})

abbrev pub or_else {ℓ} : {A : Type ℓ} → Option A → A → A
or_else none other = other
or_else (some a) other = a

unfoldable pub resolve_session_id : Text → CallRegistry → Text
unfolding get eq_text
resolve_session_id call_id r = or_else (get call_id r.leg_index) call_id

module _ {ℓ} {V : Type ℓ} where
  -- d[k] = v; d.move_to_end(k)
  unfoldable pub remember : Text → V → Dict V → Dict V
  unfolding pop
  remember k v d = pop k d ++ (k, v) ∷ []

  -- while len(d) > bound: d.popitem(last=False)
  unfoldable pub evict : ℕ → Dict V → Dict V
  evict bound [] = []
  evict bound (oldest ∷ d) =
      let rest = evict bound d in if ltb bound (length (oldest ∷ d)) then rest else oldest ∷ d

-- The loop of `_remember_terminated`.
unfoldable pub remember_all : List Text → ℕ → Dict ℕ → Dict ℕ
unfolding remember strip
remember_all [] generation ids = ids
remember_all (call_id ∷ rest) generation ids =
    remember_all rest generation
      (if non_empty (strip call_id) then remember (strip call_id) generation ids else ids)

unfoldable pub remember_terminated : List Text → ℕ → CallRegistry → CallRegistry
unfolding remember_all evict
remember_terminated call_ids generation r = record r {
  terminated_call_ids =
      evict max_terminated_call_ids (remember_all call_ids generation r.terminated_call_ids);
}

-- generation is None or terminal_generation == generation
abbrev pub is_generation : Option ℕ → ℕ → Bool
is_generation none terminal = true
is_generation (some generation) terminal = terminal == generation

unfoldable pub ended_in : Option ℕ → Option ℕ → Bool
ended_in generation none = false
ended_in generation (some terminal) = is_generation generation terminal

unfoldable pub is_terminated : Text → Option ℕ → CallRegistry → Bool
unfolding ended_in resolve_session_id strip get
is_terminated call_id generation r =
    ended_in generation (get (strip call_id) r.terminated_call_ids)
    || ended_in generation (get (resolve_session_id (strip call_id) r) r.terminated_call_ids)

abbrev pub session_generation : Option CallSession → ℕ
session_generation none = 0
session_generation (some session) = session.generation

-- session.metadata.get("pbx_phase") == "terminating"
unfoldable pub is_terminating : CallSession → Bool
unfolding get eq_text
is_terminating session =
    eq_text (or_else (get (codes "pbx_phase") session.metadata) []) (codes "terminating")

unfoldable pub enter_terminating : Text → Option CallSession → CallRegistry → CallRegistry
unfolding is_terminating put
enter_terminating session_id none r = r
enter_terminating session_id (some session) r = if is_terminating session then r else record r {
  sessions =
      put session_id
        (record session {
          metadata = put (codes "pbx_phase") (codes "terminating") session.metadata;
          revision = session.revision + 1;
        })
        r.sessions;
}

-- `begin_termination` past its guards.
unfoldable pub begin_at : Text → Text → CallRegistry → CallRegistry
unfolding remember_terminated enter_terminating get
begin_at call_id session_id r = enter_terminating session_id (get session_id r.sessions) (
    remember_terminated (call_id ∷ session_id ∷ []) (session_generation (get session_id r.sessions))
      r)

unfoldable pub begin_termination : Text → CallRegistry → Bool × CallRegistry
unfolding begin_at is_terminated resolve_session_id strip
begin_termination call_id r =
    if not (non_empty (strip call_id)) || is_terminated (strip call_id) none r
    then (false, r)
    else (true, begin_at (strip call_id) (resolve_session_id (strip call_id) r) r)

unfoldable pub claim_terminal_summary : Text → CallRegistry → Bool × CallRegistry
unfolding resolve_session_id strip has remember evict
claim_terminal_summary call_id r =
    let session_id = resolve_session_id (strip call_id) r in
    if not (non_empty session_id) || has session_id r.terminal_summary_ids then (false, r) else (
      true,
      record r {
        terminal_summary_ids =
            evict max_terminal_summary_ids (remember session_id tt r.terminal_summary_ids);
      },
    )

-- The first event of a new life of a session, in `event_fields`.
unfoldable pub start_lifecycle : Text → CallRegistry → CallRegistry
unfolding resolve_session_id pop
start_lifecycle call_id r = record r {
  terminal_summary_ids = pop (resolve_session_id call_id r) r.terminal_summary_ids;
}
