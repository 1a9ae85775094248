-- ===== src/EndpointSession/Unique.antt =====
-- endpoint_session.py: leg ids and resource names.
use esphome_intercom.Prelude.{
  ℕ, ◌≡◌, refl, Bool, true, false, not, ◌&&◌, ◌||◌, Option, List, [], ◌∷◌, ◌++◌, map, arith, Text,
  non_empty, strip, eq_text, eq_text_sym,
}
use esphome_intercom.EndpointSession.{
  CallLeg, ManagedResource, has_leg, has_resource, pop_resource, pop_leg,
}
use esphome_intercom.EndpointSession.Termination.{close_session_leg}
use esphome_intercom.EndpointSession.Ownership.{close_session_leg_id}

unfoldable pub unique_legs : List CallLeg → Bool
unique_legs [] = true
unique_legs (l ∷ legs) = non_empty l.leg_id && not (has_leg l.leg_id legs) && unique_legs legs

unfoldable pub unique_resources : List ManagedResource → Bool
unique_resources [] = true
unique_resources (r ∷ resources) =
    non_empty (strip r.name) && not (has_resource r.name resources) && unique_resources resources

has_leg-snoc :
    (id : Text) (ls : List CallLeg) (l : CallLeg)
    → has_leg id (ls ++ l ∷ []) ≡ (has_leg id ls || eq_text l.leg_id id)
unfolding has_leg
has_leg-snoc id [] l = ground arith
has_leg-snoc id (k ∷ ls) l = ground (arith, has_leg-snoc id ls l)

pub unique_legs-snoc :
    (ls : List CallLeg) (l : CallLeg)
    → unique_legs ls ≡ true
    → non_empty l.leg_id ≡ true
    → has_leg l.leg_id ls ≡ false
    → unique_legs (ls ++ l ∷ []) ≡ true
unfolding unique_legs has_leg
unique_legs-snoc [] l u n h = ground arith
unique_legs-snoc (k ∷ ls) l u n h =
    ground (arith, unique_legs-snoc ls l, has_leg-snoc k.leg_id ls l, eq_text_sym k.leg_id l.leg_id)

has_resource-snoc :
    (id : Text) (rs : List ManagedResource) (r : ManagedResource)
    → has_resource id (rs ++ r ∷ []) ≡ (has_resource id rs || eq_text r.name id)
unfolding has_resource
has_resource-snoc id [] r = ground arith
has_resource-snoc id (k ∷ rs) r = ground (arith, has_resource-snoc id rs r)

pub unique_resources-snoc :
    (rs : List ManagedResource) (r : ManagedResource)
    → unique_resources rs ≡ true
    → non_empty (strip r.name) ≡ true
    → has_resource r.name rs ≡ false
    → unique_resources (rs ++ r ∷ []) ≡ true
unfolding unique_resources has_resource
unique_resources-snoc [] r u n h = ground arith
unique_resources-snoc (k ∷ rs) r u n h =
    ground
      (arith, unique_resources-snoc rs r, has_resource-snoc k.name rs r, eq_text_sym k.name r.name)

has_leg-pop :
    (id gone : Text) (ls : List CallLeg)
    → has_leg id ls ≡ false
    → has_leg id (pop_leg gone ls).1 ≡ false
unfolding has_leg pop_leg
has_leg-pop id gone [] h = refl
has_leg-pop id gone (l ∷ ls) h = ground (arith, has_leg-pop id gone ls)

pub unique_legs-pop :
    (gone : Text) (ls : List CallLeg)
    → unique_legs ls ≡ true
    → unique_legs (pop_leg gone ls).1 ≡ true
unfolding unique_legs pop_leg
unique_legs-pop gone [] u = refl
unique_legs-pop gone (l ∷ ls) u =
    ground (arith, unique_legs-pop gone ls, has_leg-pop l.leg_id gone ls)

has_resource-pop :
    (id gone : Text) (value : Option ℕ) (rs : List ManagedResource)
    → has_resource id rs ≡ false
    → has_resource id (pop_resource gone value rs).1 ≡ false
unfolding has_resource pop_resource
has_resource-pop id gone value [] h = refl
has_resource-pop id gone value (r ∷ rs) h = ground (arith, has_resource-pop id gone value rs)

pub unique_resources-pop :
    (gone : Text) (value : Option ℕ) (rs : List ManagedResource)
    → unique_resources rs ≡ true
    → unique_resources (pop_resource gone value rs).1 ≡ true
unfolding unique_resources pop_resource
unique_resources-pop gone value [] u = refl
unique_resources-pop gone value (r ∷ rs) u =
    ground (arith, unique_resources-pop gone value rs, has_resource-pop r.name gone value rs)

has_leg-closed :
    (id : Text) (ls : List CallLeg) → has_leg id (map close_session_leg ls) ≡ has_leg id ls
unfolding has_leg
has_leg-closed id [] = refl
has_leg-closed id (l ∷ ls) = rw (close_session_leg_id l, has_leg-closed id ls) refl

pub unique_legs-closed :
    (ls : List CallLeg) → unique_legs (map close_session_leg ls) ≡ unique_legs ls
unfolding unique_legs
unique_legs-closed [] = refl
unique_legs-closed (l ∷ ls) =
    rw (close_session_leg_id l, has_leg-closed l.leg_id ls, unique_legs-closed ls) refl
