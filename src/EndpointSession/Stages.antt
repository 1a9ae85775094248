-- ===== src/EndpointSession/Stages.antt =====
-- endpoint_session.py: the order in which resources are sorted for their close.
use esphome_intercom.Prelude.{
  ℕ, ◌≡◌, ◌≤◌, refl, ap, ◌∙◌, Bool, true, List, [], ◌∷◌, ◌++◌, ◌==◌, if◌then◌else◌, ltb, arith, All,
  inl, inr, Bool-cases,
}
use esphome_intercom.EndpointSession.{ManagedResource, stage_value}
use esphome_intercom.EndpointSession.Termination.{insert_resource, sort_resources, staged}

-- The resources of the stage with value n.
unfoldable pub of_stage : ℕ → List ManagedResource → List ManagedResource
of_stage n [] = []
of_stage n (r ∷ rs) =
    let rest = of_stage n rs in if stage_value r.stage == n then r ∷ rest else rest

pub of_stage-append :
    (n : ℕ) (rs qs : List ManagedResource) → of_stage n (rs ++ qs) ≡ of_stage n rs ++ of_stage n qs
unfolding of_stage
of_stage-append n [] qs = refl
of_stage-append n (r ∷ rs) qs = ground (arith, of_stage-append n rs qs)

of_stage-insert :
    (n : ℕ) (r : ManagedResource) (xs : List ManagedResource)
    → of_stage n (insert_resource r xs) ≡ of_stage n (r ∷ xs)
unfolding of_stage insert_resource
of_stage-insert n r [] = refl
of_stage-insert n r (x ∷ xs) = ground (arith, of_stage-insert n r xs)

pub of_stage-sort :
    (n : ℕ) (rs : List ManagedResource) → of_stage n (sort_resources rs) ≡ of_stage n rs
unfolding of_stage sort_resources
of_stage-sort n [] = refl
of_stage-sort n (r ∷ rs) =
    of_stage-insert n r (sort_resources rs) ∙ ground (arith, of_stage-sort n rs)

pub of_stage-staged :
    (n : ℕ) (test : ℕ → Bool) (rs : List ManagedResource)
    → of_stage n (staged test rs) ≡ (if test n then of_stage n rs else [])
unfolding of_stage staged
of_stage-staged n test [] = ground arith
of_stage-staged n test (r ∷ rs) = elim (Bool-cases (stage_value r.stage == n)) [
  | inl same ↦
      let e : stage_value r.stage ≡ n = ground arith in
      ground (arith, ap test e, of_stage-staged n test rs)
  | inr other ↦ ground (arith, of_stage-staged n test rs)
]

abbrev pub Falling : List ManagedResource → Type 0
Falling [] = Unit {0}
Falling (r ∷ rs) = All (λ q. stage_value q.stage ≤ stage_value r.stage) rs × Falling rs

All-insert :
    (b : ℕ) (r : ManagedResource) (xs : List ManagedResource)
    → stage_value r.stage ≤ b
    → All (λ q. stage_value q.stage ≤ b) xs
    → All (λ q. stage_value q.stage ≤ b) (insert_resource r xs)
unfolding insert_resource
All-insert b r [] low all_low = (low, tt)
All-insert b r (x ∷ xs) low all_low =
    elim (Bool-cases (ltb (stage_value r.stage) (stage_value x.stage))) [
      | inl e ↦ simp e (all_low.0, All-insert b r xs low all_low.1)
      | inr e ↦ simp e (low, all_low)
    ]

All-lower :
    (a b : ℕ) (xs : List ManagedResource)
    → a ≤ b
    → All (λ q. stage_value q.stage ≤ a) xs
    → All (λ q. stage_value q.stage ≤ b) xs
All-lower a b [] h all_low = tt
All-lower a b (x ∷ xs) h all_low = (omega (arith, h, all_low.0), All-lower a b xs h all_low.1)

insert-Falling :
    (r : ManagedResource) (xs : List ManagedResource) → Falling xs → Falling (insert_resource r xs)
unfolding insert_resource
insert-Falling r [] f = (tt, tt)
insert-Falling r (x ∷ xs) f = elim (Bool-cases (ltb (stage_value r.stage) (stage_value x.stage))) [
  | inl e ↦
      simp e (All-insert (stage_value x.stage) r xs (ground arith) f.0, insert-Falling r xs f.1)
  | inr e ↦ simp e (
    (ground arith, All-lower (stage_value x.stage) (stage_value r.stage) xs (ground arith) f.0),
    f,
  )
]

pub sort-Falling : (rs : List ManagedResource) → Falling (sort_resources rs)
unfolding sort_resources
sort-Falling [] = tt
sort-Falling (r ∷ rs) = insert-Falling r (sort_resources rs) (sort-Falling rs)

All-staged :
    (b : ℕ) (test : ℕ → Bool) (xs : List ManagedResource)
    → All (λ q. stage_value q.stage ≤ b) xs
    → All (λ q. stage_value q.stage ≤ b) (staged test xs)
unfolding staged
All-staged b test [] all_low = tt
All-staged b test (x ∷ xs) all_low = elim (Bool-cases (test (stage_value x.stage))) [
  | inl e ↦ simp e (all_low.0, All-staged b test xs all_low.1)
  | inr e ↦ simp e (All-staged b test xs all_low.1)
]

pub staged-Falling :
    (test : ℕ → Bool) (xs : List ManagedResource) → Falling xs → Falling (staged test xs)
unfolding staged
staged-Falling test [] f = tt
staged-Falling test (x ∷ xs) f = elim (Bool-cases (test (stage_value x.stage))) [
  | inl e ↦ simp e (All-staged (stage_value x.stage) test xs f.0, staged-Falling test xs f.1)
  | inr e ↦ simp e (staged-Falling test xs f.1)
]

-- A stage that `staged` keeps passes its test.
pub staged_passes :
    (test : ℕ → Bool) (xs : List ManagedResource)
    → All (λ q. test (stage_value q.stage) ≡ true) (staged test xs)
unfolding staged
staged_passes test [] = tt
staged_passes test (x ∷ xs) = elim (Bool-cases (test (stage_value x.stage))) [
  | inl e ↦ simp e (refl, staged_passes test xs)
  | inr e ↦ simp e (staged_passes test xs)
]
