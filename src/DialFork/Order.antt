-- ===== src/DialFork/Order.antt =====
-- dial_fork.py: `sorted({candidate.tier for candidate in self.candidates})`.
use esphome_intercom.Prelude.{
  ℕ, ◌≡◌, refl, inl, inr, true, false, ◌&&◌, List, [], ◌∷◌, arith, ◌==◌, any, all, Bool-cases, ltb,
}
use esphome_intercom.DialFork.{DialCandidate}
use esphome_intercom.DialFork.Controller.{tiers_of, insert_tier}

abbrev pub Distinct : List ℕ → Type 0
Distinct [] = Unit {0}
Distinct (t ∷ ts) = (any (λ u. u == t) ts ≡ false) × Distinct ts

-- The tiers of a controller rise.
abbrev pub Rising : List ℕ → Type 0
Rising [] = Unit {0}
Rising (t ∷ ts) = (all (λ u. ltb t u) ts ≡ true) × Rising ts

all-insert_tier :
    (b t : ℕ) (ts : List ℕ)
    → all (λ u. ltb b u) (insert_tier t ts) ≡ (ltb b t && all (λ u. ltb b u) ts)
unfolding insert_tier
all-insert_tier b t [] = refl
all-insert_tier b t (u ∷ us) = ground (arith, all-insert_tier b t us)

all_further :
    (b t : ℕ) (ts : List ℕ)
    → ltb b t ≡ true
    → all (λ u. ltb t u) ts ≡ true
    → all (λ u. ltb b u) ts ≡ true
all_further b t [] l a = refl
all_further b t (u ∷ us) l a = ground (arith, all_further b t us)

all-Distinct : (t : ℕ) (ts : List ℕ) → all (λ u. ltb t u) ts ≡ true → any (λ u. u == t) ts ≡ false
all-Distinct t [] a = refl
all-Distinct t (u ∷ us) a = ground (arith, all-Distinct t us)

insert_tier-Rising : (t : ℕ) (ts : List ℕ) → Rising ts → Rising (insert_tier t ts)
unfolding insert_tier
insert_tier-Rising t [] r = (refl, tt)
insert_tier-Rising t (u ∷ us) r = elim (Bool-cases (t == u)) [
  | inl same ↦ simp same r
  | inr other ↦ elim (Bool-cases (ltb t u)) [
    | inl below ↦ simp (other, below) (ground (arith, all_further t u us below r.0), r)
    | inr above ↦
        simp (other, above) (ground (arith, all-insert_tier u t us), insert_tier-Rising t us r.1)
  ]
]

pub tiers_of-Rising : (cs : List DialCandidate) → Rising (tiers_of cs)
unfolding tiers_of
tiers_of-Rising [] = tt
tiers_of-Rising (c ∷ cs) = insert_tier-Rising c.tier (tiers_of cs) (tiers_of-Rising cs)

pub Rising-Distinct : (ts : List ℕ) → Rising ts → Distinct ts
Rising-Distinct [] r = tt
Rising-Distinct (t ∷ ts) r = (all-Distinct t ts r.0, Rising-Distinct ts r.1)
