-- ===== src/QueueUtils.antt =====
-- custom_components/voip_stack/queue_utils.py: a bounded queue that keeps the most recent items.
-- The queue is asyncio.Queue, of which the code uses `full`, `get_nowait` and `put_nowait`.
pub mod Newest
pub mod Examples
use esphome_intercom.Prelude.{
  ℕ, zero, suc, Bool, true, false, ◌&&◌, Option, none, some, List, [], ◌∷◌, ◌++◌, ltb, leb,
  if◌then◌else◌, length,
}

-- A size bound of zero is none.
pub record Queue {ℓ} (A : Type ℓ) : Type ℓ where
  pub maxsize : ℕ
  pub items : List A

unfoldable pub full {ℓ} : {A : Type ℓ} → Queue A → Bool
full queue = ltb 0 queue.maxsize && leb queue.maxsize (length queue.items)

-- `none` is QueueEmpty.
unfoldable pub get_nowait {ℓ} : {A : Type ℓ} → Queue A → Option (Queue A)
get_nowait queue = elim queue.items [
  | [] ↦ none
  | _ ∷ rest ↦ some (record { maxsize = queue.maxsize; items = rest })
]

-- `none` is QueueFull.
unfoldable pub put_nowait {ℓ} : {A : Type ℓ} → Queue A → A → Option (Queue A)
unfolding full
put_nowait queue item =
    if full queue
    then none
    else some (record { maxsize = queue.maxsize; items = queue.items ++ item ∷ [] })

-- Whether an older item had to go, and the queue without it.
unfoldable pub make_room {ℓ} : {A : Type ℓ} → Queue A → Bool × Queue A
unfolding full get_nowait
make_room queue =
    if full queue
    then elim (get_nowait queue) [ some rest ↦ (true, rest) | none ↦ (false, queue) ]
    else (false, queue)

unfoldable pub put_drop_oldest {ℓ} : {A : Type ℓ} → Queue A → A → Bool × Queue A
unfolding make_room put_nowait
put_drop_oldest queue item =
    let (dropped, ready) = make_room queue in
    elim (put_nowait ready item) [ some later ↦ (dropped, later) | none ↦ (true, ready) ]
