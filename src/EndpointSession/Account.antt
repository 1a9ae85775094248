-- ===== src/EndpointSession/Account.antt =====
-- endpoint_session.py: the result of a termination beside what the session owned.
use mathlib.Core.List.{reverse, reverse-cons}
use esphome_intercom.Prelude.{
  ℕ, suc, ◌+◌, ◌≡◌, refl, ap, ◌∙◌, Option, none, some, List, [], ◌∷◌, ltb, leb, arith, Text, length,
  length-append, codes,
}
use esphome_intercom.EndpointSession.{Session, ManagedResource, CallLeg}
use esphome_intercom.EndpointSession.Termination.{
  Closers, close_resources, close_legs, note_close, cancelled_tasks, task_errors, insert_resource,
  sort_resources, staged, run_termination,
}

note_close-length :
    (outcome : Option Text) (kind name : Text) (done errors : List Text)
    → length (note_close outcome kind name done errors).0
        + length (note_close outcome kind name done errors).1
      ≡ suc (length done + length errors)
unfolding note_close
note_close-length none kind name done errors = omega (arith, length-append done (name ∷ []))
note_close-length (some e) kind name done errors = omega (arith, length-append errors (_ ∷ []))

close_resources-length :
    (fails : Text → Option Text) (rs : List ManagedResource) (done errors : List Text)
    → length (close_resources fails rs done errors).0.0
        + length (close_resources fails rs done errors).0.1
      ≡ length done + length errors + length rs
unfolding close_resources note_close
close_resources-length fails [] done errors = omega arith
close_resources-length fails (r ∷ rs) done errors = omega (
  arith,
  close_resources-length fails rs _ _,
  note_close-length (fails r.name) (codes "resource") r.name done errors,
)

close_legs-length :
    (fails : Text → Option Text) (ls : List CallLeg) (done errors : List Text)
    → length (close_legs fails ls done errors).0.0 + length (close_legs fails ls done errors).0.1
      ≡ length done + length errors + length ls
unfolding close_legs note_close
close_legs-length fails [] done errors = omega arith
close_legs-length fails (l ∷ ls) done errors = omega (
  arith,
  close_legs-length fails ls _ _,
  note_close-length (fails l.leg_id) (codes "leg") l.leg_id done errors,
)

length-insert :
    (r : ManagedResource) (xs : List ManagedResource)
    → length (insert_resource r xs) ≡ suc (length xs)
unfolding insert_resource
length-insert r [] = refl
length-insert r (x ∷ xs) = ground (arith, length-insert r xs)

length-sort : (rs : List ManagedResource) → length (sort_resources rs) ≡ length rs
unfolding sort_resources
length-sort [] = refl
length-sort (r ∷ rs) = length-insert r (sort_resources rs) ∙ ap suc (length-sort rs)

length-staged :
    (rs : List ManagedResource)
    → length (staged (λ n. leb 20 n) rs) + length (staged (λ n. ltb n 20) rs) ≡ length rs
unfolding staged
length-staged [] = refl
length-staged (r ∷ rs) = ground (arith, length-staged rs)

length-reverse {ℓ} : {A : Type ℓ} (xs : List A) → length (reverse xs) ≡ length xs
length-reverse [] = refl
length-reverse (x ∷ xs) =
    rw (reverse-cons x xs) (omega (arith, length-append (reverse xs) (x ∷ []), length-reverse xs))

-- The result of a termination accounts for everything: the closed resources, the closed legs and
-- the errors are together as many as the resources, the legs and the failed tasks of the session.
pub run_termination_accounts :
    (env : Closers) (current : ℕ) (s : Session)
    → let r = (run_termination env current s).0 in
      length r.closed_resources + length r.closed_legs + length r.errors
      ≡ length s.resources
        + length s.legs
        + length (task_errors env (cancelled_tasks current s.termination_initiator s.tasks))
unfolding run_termination
run_termination_accounts env current s =
    let ordered = sort_resources (reverse s.resources) in
    omega (
      arith,
      close_resources-length env.resource_error (staged (λ n. leb 20 n) ordered) []
          (task_errors env (cancelled_tasks current s.termination_initiator s.tasks)),
      close_legs-length env.leg_error (reverse s.legs) [] _,
      close_resources-length env.resource_error (staged (λ n. ltb n 20) ordered) _ _,
      length-staged ordered,
      length-sort (reverse s.resources),
      length-reverse s.resources,
      length-reverse s.legs,
    )
