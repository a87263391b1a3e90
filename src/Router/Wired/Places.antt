-- ===== src/Router/Wired/Places.antt =====
-- Each strategy of the gateway's router answers, with venues among the candidates.
use synapse_oms.Base.{
  String, ◌==◌, ◌≡◌, ◌≢◌, refl, subst, inl, inr, Bool, true, Bool-cases, Option, none, some, List,
  [], ◌∷◌, All, any, arith, Result, ok, err, panic, eq_iff, if◌then◌else◌,
}
use mathlib.Core.List.{Memᴰ}
use mathlib.Core.Option.{some-injective}
use synapse_oms.Decimal.{Decimal, IsDecimal}
use synapse_oms.Domain.Order.{Order}
use synapse_oms.Base.Sort.{slice_stable}
use synapse_oms.Base.Maps.{Map, lookup}
use synapse_oms.Router.Types.{Float, VenueCandidate, VenueAllocation, RouterError, RoutingStrategy}
use synapse_oms.Router.Registry.Defaults.{last_named}
use synapse_oms.Router.BestPrice.{best_price_evaluate, best_price_strategy}
use synapse_oms.Router.BestPrice.Ranking as Ranking
use synapse_oms.Router.BestPrice.Ranking.{best_price_evaluate-Outcome}
use synapse_oms.Router.VenuePreference.{names, venue_preference_evaluate, venue_preference_strategy}
use synapse_oms.Router.Backed.{AllBacked, IsBacked, best_price-AllBacked}
use synapse_oms.Router.Ml.{
  VenueScore, by_rank, depth_map, ranked_allocations, covers, or_fallback, allocate_ranked,
  ml_allocate, ml_evaluate, ml_strategy,
}
use synapse_oms.Router.Ml.Ranked.{ml_evaluate-AllBacked}
use synapse_oms.Router.Wired.{Scorer, further_strategies}

module _ {D : Type 0} where
  abbrev pub HasSome : List (VenueAllocation D) → Type 0
  HasSome [] = ⊥
  HasSome (a ∷ more) = Unit

  abbrev pub Answered : Result RouterError (List (VenueAllocation D)) → Type 0
  Answered (ok allocations) = HasSome allocations
  Answered (err e) = ⊥
  Answered panic = ⊥

  or_fallback-Answered :
      (fallback : Result RouterError (List (VenueAllocation D)))
      (allocations : List (VenueAllocation D))
      → Answered fallback
      → Answered (or_fallback fallback allocations)
  or_fallback-Answered fallback [] h = h
  or_fallback-Answered fallback (a ∷ more) h = tt

module _ {D F : Type 0} where
  -- An allocation to one of the candidates' venues.
  abbrev pub IsPlaced : List (VenueCandidate D F) → VenueAllocation D → Type 0
  IsPlaced candidates a = (c : VenueCandidate D F) × Memᴰ c candidates × (c.venue_id ≡ a.venue_id)

  abbrev pub Placed :
      List (VenueCandidate D F) → Result RouterError (List (VenueAllocation D)) → Type 0
  Placed candidates (ok allocations) = HasSome allocations × All (IsPlaced candidates) allocations
  Placed candidates (err e) = ⊥
  Placed candidates panic = ⊥

module _ {D F : Type 0} ⦃d : Decimal D⦄ ⦃f : Float F⦄ where
  IsBacked-IsPlaced :
      (candidates : List (VenueCandidate D F)) (allocations : List (VenueAllocation D))
      → All (IsBacked candidates) allocations
      → All (IsPlaced candidates) allocations
  IsBacked-IsPlaced candidates [] _ = tt
  IsBacked-IsPlaced candidates (a ∷ more) (b, bs) =
      ((b.by, b.member, b.venue), IsBacked-IsPlaced candidates more bs)

  AllBacked-Placed :
      (candidates : List (VenueCandidate D F)) (r : Result RouterError (List (VenueAllocation D)))
      → AllBacked candidates r
      → Answered r
      → Placed candidates r
  AllBacked-Placed candidates (ok allocations) backed some_one =
      (some_one, IsBacked-IsPlaced candidates allocations backed)
  AllBacked-Placed candidates (err e) backed some_one = some_one
  AllBacked-Placed candidates panic backed some_one = some_one

  outcome-Answered :
      (order : Order D) (c : VenueCandidate D F) (cs : List (VenueCandidate D F)) (is_buy : Bool)
      (r : Result RouterError (List (VenueAllocation D)))
      → Ranking.Outcome order (c ∷ cs) is_buy r
      → Answered r
  outcome-Answered order c cs is_buy r (Ranking.Outcome.refused e) = absurd (ground (arith, e))
  outcome-Answered order c cs is_buy r (Ranking.Outcome.whole best rest p pref covered) = tt
  outcome-Answered order c cs is_buy r (Ranking.Outcome.ranked best rest p o shallow) = tt

  any_named :
      (venue : String) (cs : List (VenueCandidate D F))
      → any (names venue) cs ≡ true
      → (c : VenueCandidate D F) × Memᴰ c cs × (c.venue_id ≡ venue)
  any_named venue [] h = absurd (ground (arith, h))
  any_named venue (x ∷ xs) h = elim (Bool-cases (x.venue_id == venue)) [
    | inl e ↦ (x, Memᴰ.head refl, (eq_iff x.venue_id venue).0 e)
    | inr e ↦ let (c, m, k) = any_named venue xs (rw e at h) in (c, Memᴰ.tail m, k)
  ]

  allocate_ranked-Answered :
      (fallback : Result RouterError (List (VenueAllocation D))) (order : Order D)
      (m : Map (VenueCandidate D F)) (scores : List VenueScore)
      → Answered fallback
      → Answered (allocate_ranked fallback order m scores)
  unfolding allocate_ranked
  allocate_ranked-Answered fallback order m [] h = h
  allocate_ranked-Answered fallback order m (sc ∷ scores) h =
      elim (Bool-cases (covers order (lookup sc.venue_id m))) [
        | inl e ↦ rw e tt
        | inr e ↦ rw e (or_fallback-Answered fallback (ranked_allocations m (sc ∷ scores)) h)
      ]

  ml_allocate-Answered :
      (fallback : RoutingStrategy D F) (order : Order D) (candidates : List (VenueCandidate D F))
      (scores : Result RouterError (List VenueScore))
      → scores ≢ panic
      → Answered (fallback.evaluate order candidates)
      → Answered (ml_allocate fallback order candidates scores)
  unfolding ml_allocate
  ml_allocate-Answered fallback order candidates (err e) _ h = h
  ml_allocate-Answered fallback order candidates panic n h = absurd (n refl)
  ml_allocate-Answered fallback order candidates (ok scores) _ h =
      allocate_ranked-Answered (fallback.evaluate order candidates) order (depth_map [] candidates)
        (slice_stable by_rank scores) h

module _ {D F : Type 0} ⦃d : Decimal D⦄ ⦃f : Float F⦄ (laws : IsDecimal D) (order : Order D)
    (c : VenueCandidate D F) (cs : List (VenueCandidate D F)) where
  abbrev pub Places : RoutingStrategy D F → Type 0
  Places strategy = Placed (c ∷ cs) (strategy.evaluate order (c ∷ cs))

  best_price-Answered : Answered (best_price_evaluate order (c ∷ cs))
  best_price-Answered =
      outcome-Answered order c cs _ _ (best_price_evaluate-Outcome laws order (c ∷ cs))

  best_price-Places : Places best_price_strategy
  best_price-Places =
      AllBacked-Placed (c ∷ cs) (best_price_evaluate order (c ∷ cs))
        (best_price-AllBacked laws (c ∷ cs) order) best_price-Answered

  venue_preference-Places :
      (reason : String → String) → Places (venue_preference_strategy reason best_price_strategy)
  unfolding venue_preference_evaluate
  venue_preference-Places reason = elim (Bool-cases (order.venue_id == "")) [
    | inl e ↦ rw e best_price-Places
    | inr e ↦ rw e (elim (Bool-cases (any (names order.venue_id) (c ∷ cs))) [
      | inl k ↦ rw k (tt, (any_named order.venue_id (c ∷ cs) k, tt))
      | inr k ↦ rw k best_price-Places
    ])
  ]

  ml_scored-Places :
      (score_venues : Scorer D F)
      → score_venues order (c ∷ cs) ≢ panic
      → Places (ml_strategy score_venues best_price_strategy)
  unfolding ml_evaluate
  ml_scored-Places score_venues h =
      AllBacked-Placed (c ∷ cs) (ml_evaluate score_venues best_price_strategy order (c ∷ cs))
        (ml_evaluate-AllBacked laws score_venues best_price_strategy order (c ∷ cs)
          (best_price-AllBacked laws (c ∷ cs) order))
        (ml_allocate-Answered best_price_strategy order (c ∷ cs) (score_venues order (c ∷ cs)) h
          best_price-Answered)

  -- The strategies that main.go registers.
  pub All-Places :
      (reason : String → String) (scorer : Option (Scorer D F))
      → ((score_venues : Scorer D F)
          → scorer ≡ some score_venues
          → score_venues order (c ∷ cs) ≢ panic)
      → All Places (best_price_strategy ∷ further_strategies reason scorer)
  All-Places reason none h = (best_price-Places, (venue_preference-Places reason, tt))
  All-Places reason (some score_venues) h = (
    best_price-Places,
    (venue_preference-Places reason, (ml_scored-Places score_venues (h score_venues refl), tt)),
  )

module _ {D F : Type 0} (P : RoutingStrategy D F → Type 0) where
  found-or :
      (k : String) (s : RoutingStrategy D F) (found : Option (RoutingStrategy D F))
      → P s
      → ((t : RoutingStrategy D F) → found ≡ some t → P t)
      → (t : RoutingStrategy D F)
      → elim found [ some t ↦ some t | none ↦ if k == s.name then some s else none ] ≡ some t
      → P t
  found-or k s (some u) p h t e = h t e
  found-or k s none p h t e = elim (Bool-cases (k == s.name)) [
    | inl same ↦ subst P (some-injective s t (rw same at e)) p
    | inr other ↦ absurd (ground (arith, rw other at e))
  ]

  last_named_all :
      (k : String) (ss : List (RoutingStrategy D F))
      → All P ss
      → (t : RoutingStrategy D F) → last_named k ss ≡ some t
      → P t
  unfolding last_named
  last_named_all k [] _ t e = absurd (ground (arith, e))
  last_named_all k (s ∷ ss) (p, ps) t e =
      found-or k s (last_named k ss) p (last_named_all k ss ps) t e

  chosen_all :
      (s : RoutingStrategy D F) (found : Option (RoutingStrategy D F))
      → P s
      → ((t : RoutingStrategy D F) → found ≡ some t → P t)
      → P (elim found [ some t ↦ t | none ↦ s ])
  chosen_all s (some t) p h = h t refl
  chosen_all s none p h = p

  pub named_all :
      (k : String) (s : RoutingStrategy D F) (ss : List (RoutingStrategy D F))
      → All P (s ∷ ss)
      → P (elim (if k == "" then none else last_named k (s ∷ ss)) [ some t ↦ t | none ↦ s ])
  named_all k s ss ps = elim (Bool-cases (k == "")) [
    | inl e ↦ rw e (ps.0)
    | inr e ↦ rw e (chosen_all s (last_named k (s ∷ ss)) (ps.0) (last_named_all k (s ∷ ss) ps))
  ]
