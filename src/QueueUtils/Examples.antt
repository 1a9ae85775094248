-- ===== src/QueueUtils/Examples.antt =====
-- queue_utils.py: a queue of two items that is given three.
use esphome_intercom.Prelude.{ℕ, ◌≡◌, [], ◌∷◌, arith}
use esphome_intercom.QueueUtils.{Queue}
use esphome_intercom.QueueUtils.Newest.{newest, put_all, put_all-newest}

abbrev empty : Queue ℕ
empty = record { maxsize = 2; items = [] }

abbrev frames : Queue ℕ
frames = record { maxsize = 2; items = newest 2 (7 ∷ 8 ∷ 9 ∷ []) }

put_all-newest_example : put_all empty (7 ∷ 8 ∷ 9 ∷ []) ≡ frames
put_all-newest_example = put_all-newest 2 (7 ∷ 8 ∷ 9 ∷ []) (omega arith)
