-- ===== src/DialFork/Reduce.antt =====
-- dial_fork.py: `_reduce_failures`.
use mathlib.Core.List.{Permᴰ, Perm}
use mathlib.Core.Logic.{∥∥₁_elim}
use esphome_intercom.Prelude.{◌≡◌, refl, ap, ◌∙◌, Bool, List, any, all, arith}
use esphome_intercom.DialFork.{
  DialOutcome, is_declined, is_busy, is_dnd, is_media_incompatible, is_timeout, reduce_failures,
}

module _ {ℓ} {A : Type ℓ} (p : A → Bool) where
  any-perm : {xs ys : List A} → Permᴰ xs ys → any p xs ≡ any p ys
  any-perm Permᴰ.nil = refl
  any-perm (Permᴰ.cons e r) = ground (arith, any-perm r, ap p e)
  any-perm (Permᴰ.swap e f) = ground (arith, ap p e, ap p f)
  any-perm (Permᴰ.trans r s) = any-perm r ∙ any-perm s

  all-perm : {xs ys : List A} → Permᴰ xs ys → all p xs ≡ all p ys
  all-perm Permᴰ.nil = refl
  all-perm (Permᴰ.cons e r) = ground (arith, all-perm r, ap p e)
  all-perm (Permᴰ.swap e f) = ground (arith, ap p e, ap p f)
  all-perm (Permᴰ.trans r s) = all-perm r ∙ all-perm s

DialOutcome_set : IsSet DialOutcome
DialOutcome_set = hlevel

reduce_failures-permᴰ :
    {xs ys : List DialOutcome} → Permᴰ xs ys → reduce_failures xs ≡ reduce_failures ys
unfolding reduce_failures
reduce_failures-permᴰ Permᴰ.nil = refl
reduce_failures-permᴰ (Permᴰ.cons e r) = ground (
  arith,
  ap (λ (o : DialOutcome). o.disposition) e,
  all-perm (λ (o : DialOutcome). is_declined o.disposition) r,
  any-perm (λ (o : DialOutcome). is_busy o.disposition) r,
  any-perm (λ (o : DialOutcome). is_dnd o.disposition) r,
  all-perm (λ (o : DialOutcome). is_media_incompatible o.disposition) r,
  all-perm (λ (o : DialOutcome). is_timeout o.disposition) r,
)
reduce_failures-permᴰ (Permᴰ.swap e f) =
    ground
      (arith, ap (λ (o : DialOutcome). o.disposition) e, ap (λ (o : DialOutcome). o.disposition) f)
reduce_failures-permᴰ (Permᴰ.trans r s) = reduce_failures-permᴰ r ∙ reduce_failures-permᴰ s

-- The outcome reported for a fork without an answer does not depend on the order in which its
-- branches failed.
pub reduce_failures-perm :
    (xs ys : List DialOutcome) → Perm xs ys → reduce_failures xs ≡ reduce_failures ys
reduce_failures-perm xs ys p = ∥∥₁_elim p (DialOutcome_set _ _) reduce_failures-permᴰ
