-- ===== src/Dtmf/Collect.antt =====
-- dtmf.py: `_match_dtmf`, `collect_info_digits` and `DtmfCollector`, on the digits that arrive and
-- their times (whole ticks of the monotonic clock). A digit that arrives at the deadline is too late.
pub mod Codes
pub mod Agreement
use mathlib.Core.List.{reverse}
use esphome_intercom.Prelude.{
  ℕ, ◌-◌, max, Bool, true, false, not, ◌&&◌, ◌||◌, ◌+◌, Option, none, some, List, [], ◌∷◌, ◌++◌,
  ltb, if◌then◌else◌, length, take, Text, eq_text, non_empty, starts_with,
}

-- `dict[str, str]`; a later entry for a key that is there already would replace the first.
abbrev pub Routes : Type 0
Routes = List (Text × Text)

-- routes.get(code)
unfoldable pub route? : Routes → Text → Option Text
route? [] code = none
route? ((k, v) ∷ routes) code = if eq_text k code then some v else route? routes code

unfoldable pub or_empty : Option Text → Text
or_empty none = []
or_empty (some t) = t

-- s.endswith(t)
unfoldable pub ends_with : Text → Text → Bool
unfolding starts_with
ends_with s t = starts_with (reverse s) (reverse t)

-- any(key != buffer and key.startswith(buffer) for key in routes)
unfoldable pub ambiguous : Routes → Text → Bool
ambiguous [] buffer = false
ambiguous ((k, v) ∷ routes) buffer =
    not (eq_text k buffer) && starts_with k buffer || ambiguous routes buffer

-- The destination, and whether collection ends.
unfoldable pub match_dtmf : Text → Routes → Text → Text × Bool
match_dtmf buffer routes terminator =
    if non_empty terminator && ends_with buffer terminator
    then (or_empty (route? routes (take (length buffer - length terminator) buffer)), true)
    else elim (route? routes buffer) [
      | none ↦ ([], false)
      | some destination ↦ if ambiguous routes buffer then ([], false) else (destination, true)
    ]

-- A digit and the time at which it is queued.
abbrev pub Arrivals : Type 0
Arrivals = List (ℕ × Text)

-- The loop of `collect_info_digits`: the buffer and the destination with which it ends.
unfoldable pub collect_loop : Routes → Text → ℕ → ℕ → Text → Arrivals → Text × Text
collect_loop routes terminator deadline now buffer [] = (buffer, [])
collect_loop routes terminator deadline now buffer ((time, digit) ∷ rest) =
    let buffer' = buffer ++ digit in
    let (destination, terminal) = match_dtmf buffer' routes terminator in
    let later = collect_loop routes terminator deadline (max now time) buffer' rest in
    if ltb now deadline && ltb time deadline
    then (if terminal then (buffer', destination) else later)
    else (buffer, [])

-- `timeout` is that of the call, after `max(0.1, timeout)`.
unfoldable pub collect_info_digits : Routes → Text → ℕ → ℕ → Arrivals → Text × Text
collect_info_digits routes terminator started timeout arrivals =
    let (buffer, destination) =
      collect_loop routes terminator (started + timeout) started [] arrivals in
    (buffer, if non_empty destination then destination else or_empty (route? routes buffer))

-- DtmfCollector: the buffer, and the future's result.
pub record DtmfCollector : Type 0 where
  pub buffer : Text
  pub done : Option Text

unfoldable pub on_digit : Routes → Text → DtmfCollector → Text → DtmfCollector
on_digit routes terminator c digit = elim c.done [
  | some destination ↦ c
  | none ↦
      let buffer' = c.buffer ++ digit in
      let (destination, terminal) = match_dtmf buffer' routes terminator in
      record { buffer = buffer'; done = if terminal then some destination else none }
]

-- The callbacks that run before the timeout cancels the wait.
unfoldable pub deliver : Routes → Text → ℕ → DtmfCollector → Arrivals → DtmfCollector
deliver routes terminator deadline c [] = c
deliver routes terminator deadline c ((time, digit) ∷ rest) =
    deliver routes terminator deadline
      (if ltb time deadline then on_digit routes terminator c digit else c) rest

unfoldable pub collect : Routes → Text → ℕ → ℕ → Arrivals → Text × Text
collect routes terminator started timeout arrivals =
    let c =
      deliver routes terminator (started + timeout) (record { buffer = []; done = none })
        arrivals in
    (
      c.buffer,
      elim c.done [ none ↦ or_empty (route? routes c.buffer) | some destination ↦ destination ],
    )
