-- ===== src/QueueUtils/Newest.antt =====
-- queue_utils.py: what a queue holds after a stream of items.
use mathlib.Core.List.{append-nil, append_assoc}
use esphome_intercom.Prelude.{
  ℕ, zero, suc, ◌-◌, ◌≤◌, ◌<◌, ◌≡◌, refl, sym, ap, ◌∙◌, true, false, List, [], ◌∷◌, ◌++◌, ltb,
  length, length-append, drop, length-drop, arith, Bool-cases, inl, inr,
}
use esphome_intercom.QueueUtils.{Queue, full, get_nowait, put_nowait, make_room, put_drop_oldest}

-- The last items of a list, at most `size` of them.
unfoldable pub newest {ℓ} : {A : Type ℓ} → ℕ → List A → List A
newest size xs = drop (length xs - size) xs

tail_of {ℓ} : {A : Type ℓ} → List A → List A
tail_of [] = []
tail_of (x ∷ xs) = xs

put_short {ℓ} :
    {A : Type ℓ} (maxsize : ℕ) (items : List A) (item : A)
    → length items < maxsize
    → put_drop_oldest (record { maxsize = maxsize; items = items }) item
      ≡ (false, record { maxsize = maxsize; items = items ++ item ∷ [] })
unfolding put_drop_oldest full put_nowait make_room
put_short maxsize items item h = ground arith

put_long {ℓ} :
    {A : Type ℓ} (maxsize : ℕ) (old : A) (items : List A) (item : A)
    → length (old ∷ items) ≡ maxsize
    → put_drop_oldest (record { maxsize = maxsize; items = old ∷ items }) item
      ≡ (true, record { maxsize = maxsize; items = items ++ item ∷ [] })
unfolding put_drop_oldest full put_nowait make_room get_nowait
put_long maxsize old items item h = ground arith

drop-snoc {ℓ} :
    {A : Type ℓ} (n : ℕ) (xs : List A) (x : A)
    → n ≤ length xs
    → drop n (xs ++ x ∷ []) ≡ drop n xs ++ x ∷ []
drop-snoc zero xs x h = refl
drop-snoc (suc n) [] x h = absurd (omega (arith, h))
drop-snoc (suc n) (y ∷ xs) x h = drop-snoc n xs x (omega (arith, h))

drop-suc {ℓ} :
    {A : Type ℓ} (n : ℕ) (xs : List A) (y : A) (ys : List A)
    → drop n xs ≡ y ∷ ys
    → drop (suc n) xs ≡ ys
unfolding tail_of
drop-suc zero [] y ys h = absurd (let n = ap length h in ground (arith, n))
drop-suc (suc n) [] y ys h = absurd (let n = ap length h in ground (arith, n))
drop-suc zero (x ∷ xs) y ys h = ap tail_of h
drop-suc (suc n) (x ∷ xs) y ys h = drop-suc n xs y ys h

abbrev holding {ℓ} : {A : Type ℓ} → ℕ → List A → Queue A
holding maxsize items = record { maxsize = maxsize; items = items }

step_short {ℓ} :
    {A : Type ℓ} (maxsize : ℕ) (past : List A) (x : A)
    → length past < maxsize
    → (put_drop_oldest (holding maxsize (newest maxsize past)) x).1
      ≡ holding maxsize (newest maxsize (past ++ x ∷ []))
unfolding newest
step_short maxsize past x h =
    let a : length past - maxsize ≡ 0 = omega (arith, h) in
    let b : length (past ++ x ∷ []) - maxsize ≡ 0 = omega (arith, h, length-append past (x ∷ [])) in
    rw (a, b, put_short maxsize past x h) refl

step_long {ℓ} :
    {A : Type ℓ} (maxsize : ℕ) (past : List A) (x : A) (items : List A)
    → 0 < maxsize
    → maxsize ≤ length past
    → drop (length past - maxsize) past ≡ items
    → (put_drop_oldest (holding maxsize items) x).1
      ≡ holding maxsize (newest maxsize (past ++ x ∷ []))
unfolding newest
step_long maxsize past x [] some_room h e = absurd (
    let n = ap length e in omega (arith, n, length-drop (length past - maxsize) past, h, some_room))
step_long maxsize past x (old ∷ items) some_room h e =
    let k = length past - maxsize in
    let full_ : length (old ∷ items) ≡ maxsize =
      let n = ap length e in omega (arith, n, length-drop k past, h) in
    let c : length (past ++ x ∷ []) - maxsize ≡ suc k =
      omega (arith, h, length-append past (x ∷ [])) in
    rw
      (
        put_long maxsize old items x full_,
        c,
        drop-snoc (suc k) past x (omega (arith, h, some_room)),
        drop-suc k past old items e,
      )
      refl

step {ℓ} :
    {A : Type ℓ} (maxsize : ℕ) (past : List A) (x : A)
    → 0 < maxsize
    → (put_drop_oldest (holding maxsize (newest maxsize past)) x).1
      ≡ holding maxsize (newest maxsize (past ++ x ∷ []))
unfolding newest
step maxsize past x some_room = elim (Bool-cases (ltb (length past) maxsize)) [
  | inl e ↦ step_short maxsize past x (ground (arith, e))
  | inr e ↦ step_long maxsize past x (newest maxsize past) some_room (ground (arith, e)) refl
]

-- A stream of items, put one after the other.
unfoldable pub put_all {ℓ} : {A : Type ℓ} → Queue A → List A → Queue A
put_all queue [] = queue
put_all queue (x ∷ xs) = put_all (put_drop_oldest queue x).1 xs

steps {ℓ} :
    {A : Type ℓ} (maxsize : ℕ) (past xs : List A)
    → 0 < maxsize
    → put_all (holding maxsize (newest maxsize past)) xs
      ≡ holding maxsize (newest maxsize (past ++ xs))
unfolding put_all
steps maxsize past [] some_room = rw (append-nil past) refl
steps maxsize past (x ∷ xs) some_room =
    rw (step maxsize past x some_room, sym (append_assoc past (x ∷ []) xs))
      (steps maxsize (past ++ x ∷ []) xs some_room)

-- A queue with a positive size bound that is given a stream of items, one after the other, holds
-- the newest of them up to its bound, in order.
pub put_all-newest {ℓ} :
    {A : Type ℓ} (maxsize : ℕ) (xs : List A)
    → 0 < maxsize
    → put_all (record { maxsize = maxsize; items = [] }) xs
      ≡ record { maxsize = maxsize; items = newest maxsize xs }
unfolding newest
put_all-newest maxsize xs some_room =
    let z : 0 - maxsize ≡ 0 = omega arith in
    ap (λ k. put_all (holding maxsize (drop k [])) xs) (sym z) ∙ steps maxsize [] xs some_room
