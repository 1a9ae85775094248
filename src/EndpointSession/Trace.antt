-- ===== src/EndpointSession/Trace.antt =====
-- endpoint_session.py: the steps of a termination.
use mathlib.Core.List.{reverse, reverse-cons, append-nil}
use esphome_intercom.Prelude.{
  ℕ, ◌≡◌, refl, sym, ap, Option, List, [], ◌∷◌, ◌++◌, map, ◌==◌, arith, inl, inr, Bool-cases, Text,
}
use esphome_intercom.EndpointSession.{ManagedResource, CallLeg, stage_value}
use esphome_intercom.EndpointSession.Termination.{
  Closers, Teardown, cancels, closes_resource, closes_leg, close_resources, close_legs,
  cancel_tasks,
}
use esphome_intercom.EndpointSession.Stages.{of_stage, of_stage-append}

-- The stage of a step; legs stand at the stage LEG, and tasks come before all.
abbrev pub rank : Teardown → ℕ
rank (cancels t) = 50
rank (closes_resource r) = stage_value r.stage
rank (closes_leg l) = 20

-- The resources that a trace closes, in order, and its legs.
unfoldable pub closed_resources_of : List Teardown → List ManagedResource
closed_resources_of [] = []
closed_resources_of (closes_resource r ∷ trace) = r ∷ closed_resources_of trace
closed_resources_of (cancels t ∷ trace) = closed_resources_of trace
closed_resources_of (closes_leg l ∷ trace) = closed_resources_of trace

unfoldable pub closed_legs_of : List Teardown → List CallLeg
closed_legs_of [] = []
closed_legs_of (closes_leg l ∷ trace) = l ∷ closed_legs_of trace
closed_legs_of (cancels t ∷ trace) = closed_legs_of trace
closed_legs_of (closes_resource r ∷ trace) = closed_legs_of trace

pub resources-append :
    (xs ys : List Teardown)
    → closed_resources_of (xs ++ ys) ≡ closed_resources_of xs ++ closed_resources_of ys
unfolding closed_resources_of
resources-append [] ys = refl
resources-append (closes_resource r ∷ xs) ys = ap (λ rs. r ∷ rs) (resources-append xs ys)
resources-append (cancels t ∷ xs) ys = resources-append xs ys
resources-append (closes_leg l ∷ xs) ys = resources-append xs ys

pub legs-append :
    (xs ys : List Teardown) → closed_legs_of (xs ++ ys) ≡ closed_legs_of xs ++ closed_legs_of ys
unfolding closed_legs_of
legs-append [] ys = refl
legs-append (closes_leg l ∷ xs) ys = ap (λ ls. l ∷ ls) (legs-append xs ys)
legs-append (cancels t ∷ xs) ys = legs-append xs ys
legs-append (closes_resource r ∷ xs) ys = legs-append xs ys

-- The steps of the three loops.
pub close_resources-trace :
    (fails : Text → Option Text) (rs : List ManagedResource) (done errors : List Text)
    → ((close_resources fails rs done errors).1 ≡ map closes_resource rs)
unfolding close_resources
close_resources-trace fails [] done errors = refl
close_resources-trace fails (r ∷ rs) done errors =
    ap (λ t. closes_resource r ∷ t) (close_resources-trace fails rs _ _)

pub close_legs-trace :
    (fails : Text → Option Text) (ls : List CallLeg) (done errors : List Text)
    → ((close_legs fails ls done errors).1 ≡ map closes_leg ls)
unfolding close_legs
close_legs-trace fails [] done errors = refl
close_legs-trace fails (l ∷ ls) done errors =
    ap (λ t. closes_leg l ∷ t) (close_legs-trace fails ls _ _)

pub map-resources :
    (rs : List ManagedResource)
    → (closed_resources_of (map closes_resource rs) ≡ rs)
      × (closed_legs_of (map closes_resource rs) ≡ [])
unfolding closed_resources_of closed_legs_of
map-resources [] = (refl, refl)
map-resources (r ∷ rs) = (ap (λ qs. r ∷ qs) (map-resources rs).0, (map-resources rs).1)

pub map-legs :
    (ls : List CallLeg)
    → (closed_resources_of (map closes_leg ls) ≡ []) × (closed_legs_of (map closes_leg ls) ≡ ls)
unfolding closed_resources_of closed_legs_of
map-legs [] = (refl, refl)
map-legs (l ∷ ls) = ((map-legs ls).0, ap (λ ks. l ∷ ks) (map-legs ls).1)

pub cancel-nothing :
    (env : Closers) (ts : List ℕ)
    → (closed_resources_of (cancel_tasks env ts) ≡ []) × (closed_legs_of (cancel_tasks env ts) ≡ [])
unfolding closed_resources_of closed_legs_of cancel_tasks
cancel-nothing env [] = (refl, refl)
cancel-nothing env (t ∷ ts) = ground (arith, cancel-nothing env ts)

pub of_stage-reverse :
    (n : ℕ) (rs : List ManagedResource) → of_stage n (reverse rs) ≡ reverse (of_stage n rs)
unfolding of_stage
of_stage-reverse n [] = refl
of_stage-reverse n (r ∷ rs) = elim (Bool-cases (stage_value r.stage == n)) [
  | inl e ↦
      rw (reverse-cons r rs, of_stage-append n (reverse rs) (r ∷ []), of_stage-reverse n rs)
        (simp e (sym (reverse-cons r (of_stage n rs))))
  | inr e ↦
      rw (reverse-cons r rs, of_stage-append n (reverse rs) (r ∷ []), of_stage-reverse n rs)
        (simp e (append-nil (reverse (of_stage n rs))))
]
