-- ===== src/Router/Ml/Ranked.antt =====
-- The venues that the scored strategy may pick.
use mathlib.Core.List.{Memᴰ}
use mathlib.Core.Option.{some-injective}
use synapse_oms.Base.{
  String, ◌==◌, eq_iff, ◌≡◌, refl, sym, subst, inl, inr, List, [], ◌∷◌, All, All-append, members,
  true, Bool-cases, Option, none, some, Result, ok, err, panic, arith,
}
use synapse_oms.Base.Maps.{Map, lookup, insert, lookup-insert}
use synapse_oms.Base.Sort.{slice_stable}
use synapse_oms.Decimal.{Decimal, IsDecimal}
use synapse_oms.Decimal.Order.{le_refl}
use synapse_oms.Domain.Order.{Order}
use synapse_oms.Router.Types.{VenueCandidate, VenueAllocation, RouterError, RoutingStrategy}
use synapse_oms.Router.Backed.{IsBacked, AllBacked}
use synapse_oms.Router.Ml.{
  VenueScore, by_rank, depth_map, allocation_of, ranked_allocations, covers, or_fallback,
  allocate_ranked, ml_allocate, ml_evaluate,
}

module _ {D F : Type 0} (candidates : List (VenueCandidate D F)) where
  -- Every entry of the map is a candidate under its own venue.
  abbrev IsIndex : Map (VenueCandidate D F) → Type 0
  IsIndex m =
      (venue : String) (c : VenueCandidate D F)
      → lookup venue m ≡ some c
      → Memᴰ c candidates × (c.venue_id ≡ venue)

  depth_map-IsIndex :
      (m : Map (VenueCandidate D F)) (cs : List (VenueCandidate D F))
      → All (λ c. Memᴰ c candidates) cs
      → IsIndex m
      → IsIndex (depth_map m cs)
  unfolding depth_map
  depth_map-IsIndex m [] _ index = index
  depth_map-IsIndex m (c ∷ cs) (member, ms) index =
      depth_map-IsIndex (insert c.venue_id c m) cs ms (λ venue x e.
        let written = lookup-insert c.venue_id venue c m in
        elim (Bool-cases (venue == c.venue_id)) [
          | inl same ↦
              let found : c ≡ x = some-injective c x (ground (arith, written, e)) in
              (
                subst (λ t. Memᴰ t candidates) found member,
                subst (λ t. t.venue_id ≡ venue) found (sym ((eq_iff venue c.venue_id).0 same)),
              )
          | inr other ↦ index venue x (ground (arith, written, e))
        ])

module _ {D F : Type 0} ⦃d : Decimal D⦄ (laws : IsDecimal D)
    (candidates : List (VenueCandidate D F)) where
  allocation_of-AllBacked :
      (sc : VenueScore) (found : Option (VenueCandidate D F))
      → ((c : VenueCandidate D F) → found ≡ some c → Memᴰ c candidates × (c.venue_id ≡ sc.venue_id))
      → All (IsBacked candidates) (allocation_of sc found)
  allocation_of-AllBacked sc none _ = tt
  allocation_of-AllBacked sc (some c) h = (
    record {
      by = c;
      member = (h c refl).0;
      venue = (h c refl).1;
      depth = le_refl laws c.depth_at_price;
    },
    tt,
  )

  ranked-AllBacked :
      (m : Map (VenueCandidate D F)) (scores : List VenueScore)
      → IsIndex candidates m
      → All (IsBacked candidates) (ranked_allocations m scores)
  unfolding ranked_allocations
  ranked-AllBacked m [] index = tt
  ranked-AllBacked m (sc ∷ scores) index =
      All-append (IsBacked candidates) (allocation_of sc (lookup sc.venue_id m))
        (ranked_allocations m scores)
        (allocation_of-AllBacked sc (lookup sc.venue_id m) (index sc.venue_id))
        (ranked-AllBacked m scores index)

  covers-IsBacked :
      (order : Order D) (sc : VenueScore) (reason : String) (found : Option (VenueCandidate D F))
      → ((c : VenueCandidate D F) → found ≡ some c → Memᴰ c candidates × (c.venue_id ≡ sc.venue_id))
      → covers order found ≡ true
      → IsBacked candidates
          (record { venue_id = sc.venue_id; quantity = order.quantity; reason = reason })
  covers-IsBacked order sc reason none h e = ground arith
  covers-IsBacked order sc reason (some c) h e = record {
    by = c;
    member = (h c refl).0;
    venue = (h c refl).1;
    depth = ground (arith, laws.cmp_flip c.depth_at_price order.quantity);
  }

  or_fallback-AllBacked :
      (fallback : Result RouterError (List (VenueAllocation D)))
      (allocations : List (VenueAllocation D))
      → AllBacked candidates fallback
      → All (IsBacked candidates) allocations
      → AllBacked candidates (or_fallback fallback allocations)
  or_fallback-AllBacked fallback [] h _ = h
  or_fallback-AllBacked fallback (a ∷ more) _ h = h

  allocate_ranked-AllBacked :
      (fallback : Result RouterError (List (VenueAllocation D))) (order : Order D)
      (m : Map (VenueCandidate D F)) (scores : List VenueScore)
      → AllBacked candidates fallback
      → IsIndex candidates m
      → AllBacked candidates (allocate_ranked fallback order m scores)
  unfolding allocate_ranked
  allocate_ranked-AllBacked fallback order m [] h index = h
  allocate_ranked-AllBacked fallback order m (sc ∷ scores) h index =
      elim (Bool-cases (covers order (lookup sc.venue_id m))) [
        | inl e ↦ rw e (covers-IsBacked order sc _ (lookup sc.venue_id m) (index sc.venue_id) e, tt)
        | inr e ↦ rw e (
            or_fallback-AllBacked fallback (ranked_allocations m (sc ∷ scores)) h
              (ranked-AllBacked m (sc ∷ scores) index))
      ]

  ml_allocate-AllBacked :
      (fallback : RoutingStrategy D F) (order : Order D)
      (scores : Result RouterError (List VenueScore))
      → AllBacked candidates (fallback.evaluate order candidates)
      → AllBacked candidates (ml_allocate fallback order candidates scores)
  unfolding ml_allocate lookup
  ml_allocate-AllBacked fallback order (err e) h = h
  ml_allocate-AllBacked fallback order panic h = tt
  ml_allocate-AllBacked fallback order (ok scores) h =
      allocate_ranked-AllBacked (fallback.evaluate order candidates) order (depth_map [] candidates)
        (slice_stable by_rank scores) h
        (depth_map-IsIndex candidates [] candidates (members candidates)
          (λ venue c e. ground arith))

module _ {D F : Type 0} ⦃d : Decimal D⦄ (laws : IsDecimal D) where
  -- Whatever the scoring service answers (an error, venues that are not candidates, any ranks), each
  -- allocation of the scored strategy goes to a candidate's venue, for at most the depth that it
  -- shows, if the fallback strategy keeps to that.
  pub ml_evaluate-AllBacked :
      (score_venues : Order D → List (VenueCandidate D F) → Result RouterError (List VenueScore))
      (fallback : RoutingStrategy D F) (order : Order D) (candidates : List (VenueCandidate D F))
      → AllBacked candidates (fallback.evaluate order candidates)
      → AllBacked candidates (ml_evaluate score_venues fallback order candidates)
  unfolding ml_evaluate
  ml_evaluate-AllBacked score_venues fallback order [] h = tt
  ml_evaluate-AllBacked score_venues fallback order (c ∷ cs) h =
      ml_allocate-AllBacked laws (c ∷ cs) fallback order (score_venues order (c ∷ cs)) h
