-- ===== src/Dtmf/Collect/Agreement.antt =====
-- dtmf.py: the SIP INFO collector beside the RTP collector, which `trunk_dtmf.py` races.
use esphome_intercom.Prelude.{
  ℕ, ◌+◌, ◌≤◌, ◌<◌, ◌≡◌, refl, inl, inr, true, ◌&&◌, none, some, [], ◌∷◌, ◌++◌, arith, ltb,
  if◌then◌else◌, Text, non_empty, Bool-cases, lt→ltb, ltb→lt, max,
}
use esphome_intercom.Dtmf.Collect.{
  Routes, route?, or_empty, ends_with, match_dtmf, Arrivals, collect_loop, collect_info_digits,
  DtmfCollector, on_digit, deliver, collect,
}

-- Digits come in the order of their times, none before `from`.
abbrev pub InOrder : ℕ → Arrivals → Type 0
InOrder from [] = Unit {0}
InOrder from ((time, digit) ∷ rest) = (from ≤ time) × InOrder time rest

deliver_done :
    (routes : Routes) (terminator : Text) (deadline : ℕ) (c : DtmfCollector) (arrivals : Arrivals)
    (d : Text)
    → c.done ≡ some d
    → deliver routes terminator deadline c arrivals ≡ c
unfolding deliver on_digit
deliver_done routes terminator deadline c [] d h = refl
deliver_done routes terminator deadline c ((time, digit) ∷ rest) d h =
    ground (arith, deliver_done routes terminator deadline c rest d h)

deliver_late :
    (routes : Routes) (terminator : Text) (deadline from : ℕ) (c : DtmfCollector)
    (arrivals : Arrivals)
    → InOrder from arrivals
    → deadline ≤ from
    → deliver routes terminator deadline c arrivals ≡ c
unfolding deliver
deliver_late routes terminator deadline from c [] o h = refl
deliver_late routes terminator deadline from c ((time, digit) ∷ rest) o h =
    ground (arith, deliver_late routes terminator deadline time c rest o.1 (omega arith))

abbrev final_info : Routes → Text × Text → Text × Text
final_info routes (buffer, destination) =
    (buffer, if non_empty destination then destination else or_empty (route? routes buffer))

abbrev final_rtp : Routes → DtmfCollector → Text × Text
final_rtp routes c =
    (c.buffer, elim c.done [ none ↦ or_empty (route? routes c.buffer) | some d ↦ d ])

module _ (routes : Routes) (terminator : Text)
    (codes_open : (code : Text)
      → (non_empty terminator && ends_with code terminator) ≡ true
      → route? routes code ≡ none) where
  -- An end with no destination leaves nothing for the look-up that follows.
  match_empty :
      (buffer : Text)
      → (match_dtmf buffer routes terminator).1 ≡ true
      → (match_dtmf buffer routes terminator).0 ≡ []
      → or_empty (route? routes buffer) ≡ []
  unfolding match_dtmf or_empty
  match_empty buffer ends empty = ground (arith, codes_open buffer)

  loop_agrees :
      (deadline now : ℕ) (buffer : Text) (arrivals : Arrivals)
      → now < deadline
      → InOrder now arrivals
      → final_rtp routes
          (deliver routes terminator deadline (record { buffer = buffer; done = none }) arrivals)
        ≡ final_info routes (collect_loop routes terminator deadline now buffer arrivals)
  unfolding deliver collect_loop on_digit
  loop_agrees deadline now buffer [] open_ o = refl
  loop_agrees deadline now buffer ((time, digit) ∷ rest) open_ o =
      let later : max now time ≡ time = omega (arith, o.0) in
      let buffer' = buffer ++ digit in
      let found = (match_dtmf buffer' routes terminator).0 in
      let ended : DtmfCollector = record { buffer = buffer'; done = some found } in
      let kept : DtmfCollector = record { buffer = buffer; done = none } in
      elim (Bool-cases (ltb time deadline)) [
        | inl e ↦ ground (
          arith,
          e,
          lt→ltb now deadline open_,
          later,
          match_empty buffer',
          deliver_done routes terminator deadline ended rest found refl,
          loop_agrees deadline time buffer' rest (ltb→lt time deadline e) o.1,
        )
        | inr e ↦ ground (
          arith,
          e,
          lt→ltb now deadline open_,
          deliver_late routes terminator deadline time kept rest o.1 (ground arith),
        )
      ]

  -- On the same digits, in the order of their times, the collector of RTP events and the collector
  -- of SIP INFO digits return the same buffer and destination, if no code of the dial plan ends
  -- with the terminator and the wait is not empty.
  pub collect-agrees :
      (started timeout : ℕ) (arrivals : Arrivals)
      → 0 < timeout
      → InOrder started arrivals
      → collect routes terminator started timeout arrivals
        ≡ collect_info_digits routes terminator started timeout arrivals
  unfolding collect collect_info_digits
  collect-agrees started timeout arrivals waits o =
      loop_agrees (started + timeout) started [] arrivals (omega arith) o
