-- ===== src/EndpointSession/Order.antt =====
-- endpoint_session.py: what a termination closes, and in which order.
use mathlib.Core.List.{reverse, append-nil}
use esphome_intercom.Prelude.{
  ℕ, ◌≡◌, ◌≤◌, refl, ◌∙◌, true, false, List, [], ◌∷◌, ◌++◌, map, if◌then◌else◌, ltb, leb, arith,
  All, inl, inr, Bool-cases, All-append,
}
use esphome_intercom.EndpointSession.{Session, ManagedResource, CallLeg, CleanupStage, stage_value}
use esphome_intercom.EndpointSession.Termination.{
  Closers, Teardown, closes_resource, closes_leg, cancel_tasks, cancelled_tasks, sort_resources,
  staged, run_termination,
}
use esphome_intercom.EndpointSession.Stages.{
  of_stage, of_stage-append, of_stage-sort, of_stage-staged, Falling, sort-Falling, staged-Falling,
  staged_passes,
}
use esphome_intercom.EndpointSession.Trace.{
  rank, closed_resources_of, closed_legs_of, resources-append, legs-append, close_resources-trace,
  close_legs-trace, map-resources, map-legs, cancel-nothing, of_stage-reverse,
}

abbrev pub Falls : List Teardown → Type 0
Falls [] = Unit {0}
Falls (x ∷ xs) = All (λ y. rank y ≤ rank x) xs × Falls xs

Falls-append :
    (b : ℕ) (xs ys : List Teardown)
    → Falls xs
    → Falls ys
    → All (λ x. b ≤ rank x) xs
    → All (λ y. rank y ≤ b) ys
    → Falls (xs ++ ys)
Falls-append b [] ys f g high low = g
Falls-append b (x ∷ xs) ys f g high low = (
  All-append (λ y. rank y ≤ rank x) xs ys f.0 (under b x ys high.0 low),
  Falls-append b xs ys f.1 g high.1 low,
)
  where
    under :
        (b : ℕ) (x : Teardown) (ys : List Teardown)
        → b ≤ rank x
        → All (λ y. rank y ≤ b) ys
        → All (λ y. rank y ≤ rank x) ys
    under b x [] h low = tt
    under b x (y ∷ ys) h low = (omega (arith, h, low.0), under b x ys h low.1)

cancel-Falls :
    (env : Closers) (ts : List ℕ)
    → Falls (cancel_tasks env ts)
      × All (λ x. 50 ≤ rank x) (cancel_tasks env ts)
      × All (λ x. rank x ≤ 50) (cancel_tasks env ts)
unfolding cancel_tasks
cancel-Falls env [] = (tt, tt, tt)
cancel-Falls env (t ∷ ts) =
    let (f, high, low) = cancel-Falls env ts in
    elim (Bool-cases (env.task_done t)) [
      | inl e ↦ simp e (f, high, low)
      | inr e ↦ simp e ((low, f), (omega arith, high), (omega arith, low))
    ]

legs-Falls :
    (ls : List CallLeg)
    → Falls (map closes_leg ls)
      × All (λ x. 20 ≤ rank x) (map closes_leg ls)
      × All (λ x. rank x ≤ 20) (map closes_leg ls)
legs-Falls [] = (tt, tt, tt)
legs-Falls (l ∷ ls) =
    let (f, high, low) = legs-Falls ls in ((low, f), (omega arith, high), (omega arith, low))

All-map :
    (P Q : ℕ → Type 0) (rs : List ManagedResource)
    → ((n : ℕ) → P n → Q n)
    → All (λ q. P (stage_value q.stage)) rs
    → All (λ x. Q (rank x)) (map closes_resource rs)
All-map P Q [] imp h = tt
All-map P Q (r ∷ rs) imp h = (imp (stage_value r.stage) h.0, All-map P Q rs imp h.1)

resources-Falls : (rs : List ManagedResource) → Falling rs → Falls (map closes_resource rs)
resources-Falls [] f = tt
resources-Falls (r ∷ rs) f = (
  All-map (λ n. n ≤ stage_value r.stage) (λ n. n ≤ stage_value r.stage) rs (λ n h. h) f.0,
  resources-Falls rs f.1,
)

below_tasks : (rs : List ManagedResource) → All (λ x. rank x ≤ 50) (map closes_resource rs)
below_tasks [] = tt
below_tasks (r ∷ rs) = (below r.stage, below_tasks rs)
  where
    below : (s : CleanupStage) → stage_value s ≤ 50
    below s = ground arith

All-weaken :
    (b c : ℕ) (xs : List Teardown) → b ≤ c → All (λ x. rank x ≤ b) xs → All (λ x. rank x ≤ c) xs
All-weaken b c [] h low = tt
All-weaken b c (x ∷ xs) h low = (omega (arith, h, low.0), All-weaken b c xs h low.1)

run_termination-trace :
    (env : Closers) (current : ℕ) (s : Session)
    → (run_termination env current s).1
      ≡ cancel_tasks env (cancelled_tasks current s.termination_initiator s.tasks)
        ++ (map closes_resource (staged (λ n. leb 20 n) (sort_resources (reverse s.resources)))
            ++ (map closes_leg (reverse s.legs)
                ++ map closes_resource
                    (staged (λ n. ltb n 20) (sort_resources (reverse s.resources)))))
unfolding run_termination
run_termination-trace env current s =
    rw
      (
        close_resources-trace env.resource_error
            (staged (λ n. leb 20 n) (sort_resources (reverse s.resources))) [] _,
        close_legs-trace env.leg_error (reverse s.legs) [] _,
        close_resources-trace env.resource_error
            (staged (λ n. ltb n 20) (sort_resources (reverse s.resources))) _ _,
      )
      refl

trace-Falls :
    (env : Closers) (ts : List ℕ) (rs : List ManagedResource) (ls : List CallLeg)
    → Falling rs
    → Falls (
        cancel_tasks env ts
        ++ (map closes_resource (staged (λ n. leb 20 n) rs)
            ++ (map closes_leg ls ++ map closes_resource (staged (λ n. ltb n 20) rs))))
trace-Falls env ts rs ls f =
    let before = staged (λ n. leb 20 n) rs in
    let after = staged (λ n. ltb n 20) rs in
    let (cancel_falls, cancel_high, cancel_low) = cancel-Falls env ts in
    let (legs_fall, legs_high, legs_low) = legs-Falls ls in
    let after_low =
      All-map (λ n. ltb n 20 ≡ true) (λ n. n ≤ 20) after (λ n h. ground arith)
        (staged_passes (λ n. ltb n 20) rs) in
    let before_high =
      All-map (λ n. leb 20 n ≡ true) (λ n. 20 ≤ n) before (λ n h. ground arith)
        (staged_passes (λ n. leb 20 n) rs) in
    let tail_falls =
      Falls-append 20 (map closes_leg ls) (map closes_resource after) legs_fall
        (resources-Falls after (staged-Falling _ rs f)) legs_high after_low in
    let tail_low =
      All-append (λ x. rank x ≤ 20) (map closes_leg ls) (map closes_resource after) legs_low
        after_low in
    Falls-append 50 (cancel_tasks env ts) _ cancel_falls
      (Falls-append 20 (map closes_resource before) _
        (resources-Falls before (staged-Falling _ rs f)) tail_falls before_high tail_low)
      cancel_high
      (All-append (λ x. rank x ≤ 50) (map closes_resource before) _ (below_tasks before)
        (All-weaken 20 50 _ (omega arith) tail_low))

trace-closes :
    (env : Closers) (ts : List ℕ) (rs : List ManagedResource) (ls : List CallLeg) (n : ℕ)
    → (of_stage n (
          closed_resources_of (
            cancel_tasks env ts
            ++ (map closes_resource (staged (λ n. leb 20 n) rs)
                ++ (map closes_leg ls ++ map closes_resource (staged (λ n. ltb n 20) rs)))))
        ≡ of_stage n rs)
      × (closed_legs_of (
            cancel_tasks env ts
            ++ (map closes_resource (staged (λ n. leb 20 n) rs)
                ++ (map closes_leg ls ++ map closes_resource (staged (λ n. ltb n 20) rs))))
          ≡ ls)
trace-closes env ts rs ls n =
    let before = map closes_resource (staged (λ n. leb 20 n) rs) in
    let after = map closes_resource (staged (λ n. ltb n 20) rs) in
    (
      rw
          (
            resources-append (cancel_tasks env ts) (before ++ (map closes_leg ls ++ after)),
            (cancel-nothing env ts).0,
            resources-append before (map closes_leg ls ++ after),
            resources-append (map closes_leg ls) after,
            (map-legs ls).0,
            (map-resources (staged (λ n. leb 20 n) rs)).0,
            (map-resources (staged (λ n. ltb n 20) rs)).0,
            of_stage-append n (staged (λ n. leb 20 n) rs) (staged (λ n. ltb n 20) rs),
            of_stage-staged n (λ n. leb 20 n) rs,
            of_stage-staged n (λ n. ltb n 20) rs,
          )
          (halves n),
      rw
          (
            legs-append (cancel_tasks env ts) (before ++ (map closes_leg ls ++ after)),
            (cancel-nothing env ts).1,
            legs-append before (map closes_leg ls ++ after),
            legs-append (map closes_leg ls) after,
            (map-legs ls).1,
            (map-resources (staged (λ n. leb 20 n) rs)).1,
            (map-resources (staged (λ n. ltb n 20) rs)).1,
          )
          (append-nil ls),
    )
  where
    halves :
        (n : ℕ)
        → ((if leb 20 n then of_stage n rs else []) ++ (if ltb n 20 then of_stage n rs else []))
          ≡ of_stage n rs
    halves n = elim (Bool-cases (leb 20 n)) [
      | inl e ↦ let f : ltb n 20 ≡ false = ground arith in rw (e, f) (append-nil (of_stage n rs))
      | inr e ↦ let f : ltb n 20 ≡ true = ground arith in rw (e, f) refl
    ]

-- Whatever the closers raise, a termination first cancels tasks and then closes every resource and
-- every leg of the session once: by falling cleanup stages with the legs at the stage LEG, within a
-- stage the latest resource first, and the latest leg first.
pub run_termination_order :
    (env : Closers) (current : ℕ) (s : Session)
    → Falls (run_termination env current s).1
      × ((n : ℕ)
          → of_stage n (closed_resources_of (run_termination env current s).1)
            ≡ reverse (of_stage n s.resources))
      × (closed_legs_of (run_termination env current s).1 ≡ reverse s.legs)
run_termination_order env current s =
    let tasks = cancelled_tasks current s.termination_initiator s.tasks in
    let ordered = sort_resources (reverse s.resources) in
    rw (run_termination-trace env current s) (
      trace-Falls env tasks ordered (reverse s.legs) (sort-Falling (reverse s.resources)),
      λ n.
          (trace-closes env tasks ordered (reverse s.legs) n).0
          ∙ of_stage-sort n (reverse s.resources)
          ∙ of_stage-reverse n s.resources,
      (trace-closes env tasks ordered (reverse s.legs) 0).1,
    )
