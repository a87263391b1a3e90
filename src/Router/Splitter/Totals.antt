-- ===== src/Router/Splitter/Totals.antt =====
-- The quantity that the splitter allocates in all.
use synapse_oms.Base.{
  String, ◌==◌, ◌≡◌, ◌≢◌, refl, sym, ap, ◌∙◌, inl, inr, false, Bool-cases, none, some, List, [],
  ◌∷◌, ◌++◌, map, arith, if◌then◌else◌, ◌⊎◌, Option, All,
}
use synapse_oms.Base.Maps.{Map, lookup}
use synapse_oms.Decimal.{
  Decimal, IsDecimal, ◌⊕◌, ◌⊖◌, ◌⊗◌, ◌≼◌, sum, less_than, greater_than, less_than_or_equal, ◌≺◌,
}
use synapse_oms.Decimal.Order.{le_refl, not-gt, sub-add_cancel, zero-add}
use synapse_oms.Decimal.Within.{mul-zero}
use synapse_oms.Router.Types.{VenueAllocation}
use synapse_oms.Router.Splitter.{
  split_threshold, depth_of, total_depth, part, place, split_loop, assign_residual, settle, single,
  split_order,
}

module _ {D : Type 0} ⦃d : Decimal D⦄ where
  abbrev pub quantity_of : List (VenueAllocation D) → D
  quantity_of allocations = sum (map (λ a. a.quantity) allocations)

  -- The running total is the sum of what was appended.
  abbrev IsTallied : List (VenueAllocation D) × D → Type 0
  IsTallied acc = quantity_of (acc.0) ≡ acc.1

found_cases : {A : Type 0} (found : Option A) → (found ≡ none) ⊎ ((a : A) × (found ≡ some a))
found_cases none = inl refl
found_cases (some a) = inr (a, refl)

module _ {D : Type 0} ⦃d : Decimal D⦄ (laws : IsDecimal D) where
  whole :
      (best : VenueAllocation D) (order_qty : D) (reason : String)
      → order_qty ≼ quantity_of (single reason best order_qty)
  whole best order_qty reason = rw (laws.add-zero order_qty) (le_refl laws order_qty)

  quantity_of_snoc :
      (allocations : List (VenueAllocation D)) (a : VenueAllocation D)
      → quantity_of (allocations ++ (a ∷ [])) ≡ quantity_of allocations ⊕ a.quantity
  quantity_of_snoc [] a = laws.add_comm a.quantity d.zero
  quantity_of_snoc (x ∷ xs) a =
      ap (◌⊕◌ x.quantity) (quantity_of_snoc xs a)
      ∙ sym (laws.add_assoc x.quantity (quantity_of xs) a.quantity)

  part-some :
      (order_qty lot_size total depth : D)
      → lot_size ≢ d.zero
      → total ≢ d.zero
      → (qty : D) × (part order_qty lot_size total depth ≡ some qty)
  unfolding part
  part-some order_qty lot_size total depth lot nonzero =
      let share = laws.div-some depth total nonzero in
      let lots = laws.div-some (share.0 ⊗ order_qty) lot_size lot in
      (d.floor lots.0 ⊗ lot_size, rw (share.1, lots.1) refl)

  place-IsTallied :
      (reason : D → D → String) (lot_size total depth : D) (v : VenueAllocation D) (qty : D)
      (acc : List (VenueAllocation D) × D)
      → IsTallied acc
      → (acc' : List (VenueAllocation D) × D) × (place reason lot_size total depth v (some qty) acc
          ≡ some acc')
        × IsTallied acc'
  place-IsTallied reason lot_size total depth v qty (allocations, allocated) tally =
      elim (Bool-cases (less_than qty lot_size)) [
        | inl e ↦ ((allocations, allocated), rw e refl, tally)
        | inr e ↦
            let a : VenueAllocation D = record {
              venue_id = v.venue_id;
              quantity = qty;
              reason = reason depth total;
            } in
            (
              (allocations ++ (a ∷ []), allocated ⊕ qty),
              rw e refl,
              quantity_of_snoc allocations a ∙ ap (λ t. t ⊕ qty) tally,
            )
      ]

  split_loop-IsTallied :
      (reason : D → D → String) (depth_map : Map D) (order_qty lot_size total : D)
      (venues : List (VenueAllocation D)) (acc : List (VenueAllocation D) × D)
      → lot_size ≢ d.zero
      → total ≢ d.zero
      → IsTallied acc
      → (acc' : List (VenueAllocation D) × D) × (split_loop reason depth_map order_qty lot_size
            total venues acc
          ≡ some acc')
        × IsTallied acc'
  unfolding split_loop
  split_loop-IsTallied reason depth_map order_qty lot_size total [] acc lot nonzero tally =
      (acc, refl, tally)
  split_loop-IsTallied reason depth_map order_qty lot_size total (v ∷ vs) acc lot nonzero tally =
      let depth = depth_of depth_map v in
      let own = part-some order_qty lot_size total depth lot nonzero in
      let placed = place-IsTallied reason lot_size total depth v own.0 acc tally in
      let others =
        split_loop-IsTallied reason depth_map order_qty lot_size total vs placed.0 lot nonzero
          placed.2 in
      (others.0, rw (own.1, placed.1) (others.1), others.2)

  assign_residual-quantity_of :
      (best : VenueAllocation D) (residual : D) (allocations : List (VenueAllocation D))
      → quantity_of (assign_residual best residual allocations) ≡ residual ⊕ quantity_of allocations
  unfolding assign_residual
  assign_residual-quantity_of best residual [] = refl
  assign_residual-quantity_of best residual (a ∷ more) =
      elim (Bool-cases (a.venue_id == best.venue_id)) [
        | inl e ↦ rw e (
            ap (λ t. t ⊕ quantity_of more) (laws.add_comm a.quantity residual)
            ∙ laws.add_assoc residual a.quantity (quantity_of more))
        | inr e ↦ rw e refl
      ]

  settle-quantity_of :
      (order_qty : D) (best : VenueAllocation D) (acc : List (VenueAllocation D) × D)
      → IsTallied acc
      → quantity_of (settle order_qty best acc)
        ≡ (if greater_than order_qty (quantity_of (acc.0)) then order_qty else quantity_of (acc.0))
  unfolding settle
  settle-quantity_of order_qty best (allocations, allocated) tally =
      let assigned = assign_residual-quantity_of best (order_qty ⊖ allocated) allocations in
      let shifted = laws.cmp-add (order_qty ⊖ allocated) d.zero allocated in
      let gap : d.cmp (order_qty ⊖ allocated) d.zero ≡ d.cmp order_qty allocated =
        sym shifted ∙ rw (sub-add_cancel laws order_qty allocated, zero-add laws allocated) refl in
      let whole : (order_qty ⊖ allocated) ⊕ quantity_of allocations ≡ order_qty =
        ap (◌⊕◌ (order_qty ⊖ allocated)) tally ∙ sub-add_cancel laws order_qty allocated in
      ground (arith, assigned, gap, whole, tally)

  settle_covers :
      (order_qty : D) (best : VenueAllocation D) (acc : List (VenueAllocation D) × D)
      → IsTallied acc
      → order_qty ≼ quantity_of (settle order_qty best acc)
  settle_covers order_qty best acc tally =
      let total = settle-quantity_of order_qty best acc tally in
      elim (Bool-cases (greater_than order_qty (quantity_of (acc.0)))) [
        | inl e ↦ rw (total, e) (le_refl laws order_qty)
        | inr e ↦ rw (total, e) (not-gt laws order_qty (quantity_of (acc.0)) e)
      ]

  -- With a lot size and a total depth that are not zero, splitting over at least one ranked venue
  -- does not panic, and the parts add up to at least the order's quantity: the rounding down to whole
  -- lots and the parts dropped below one lot lose nothing.
  pub split_order_covers :
      (reason : D → D → String) (order_qty : D) (best : VenueAllocation D)
      (venues : List (VenueAllocation D)) (depth_map : Map D) (lot_size : D)
      → lot_size ≢ d.zero
      → total_depth depth_map d.zero (best ∷ venues) ≢ d.zero
      → (allocations : List (VenueAllocation D)) × (split_order reason order_qty
            (best ∷ venues)
            depth_map
            lot_size
          ≡ some allocations)
        × (order_qty ≼ quantity_of allocations)
  unfolding split_order
  split_order_covers reason order_qty best [] depth_map lot_size lot nonzero =
      (single "single-venue" best order_qty, refl, whole best order_qty "single-venue")
  split_order_covers reason order_qty best (second ∷ rest) depth_map lot_size lot nonzero =
      let ranked = best ∷ second ∷ rest in
      let total = total_depth depth_map d.zero ranked in
      let looped =
        split_loop-IsTallied reason depth_map order_qty lot_size total ranked ([], d.zero) lot
          nonzero refl in
      elim (Bool-cases (less_than_or_equal order_qty (depth_of depth_map best ⊗ split_threshold))) [
        | inl e ↦ (
          single "no-split: within depth threshold" best order_qty,
          rw e refl,
          whole best order_qty "no-split: within depth threshold",
        )
        | inr e ↦ (
          settle order_qty best looped.0,
          rw (e, looped.1) refl,
          settle_covers order_qty best looped.0 looped.2,
        )
      ]

  total_depth_none :
      (depth_map : Map D) (total : D) (venues : List (VenueAllocation D))
      → All (λ v. depth_of depth_map v ≡ d.zero) venues
      → total_depth depth_map total venues ≡ total
  unfolding total_depth
  total_depth_none depth_map total [] _ = refl
  total_depth_none depth_map total (v ∷ vs) (h, hs) =
      elim (found_cases (lookup v.venue_id depth_map)) [
        | inl e ↦ rw (total_depth, e) (total_depth_none depth_map total vs hs)
        | inr (depth, e) ↦
            let none_here : depth ≡ d.zero = rw e at h in
            rw (total_depth, e, none_here, laws.add-zero total)
              (total_depth_none depth_map total vs hs)
      ]

  -- When none of two or more ranked venues shows any depth, splitting a positive quantity over them
  -- panics, whatever the lot size: the shares are quotients by the total depth.
  pub split_order_panics :
      (reason : D → D → String) (order_qty : D) (best second : VenueAllocation D)
      (rest : List (VenueAllocation D)) (depth_map : Map D) (lot_size : D)
      → d.zero ≺ order_qty
      → All (λ v. depth_of depth_map v ≡ d.zero) (best ∷ second ∷ rest)
      → split_order reason order_qty (best ∷ second ∷ rest) depth_map lot_size ≡ none
  unfolding split_order split_loop part
  split_order_panics reason order_qty best second rest depth_map lot_size positive shallow =
      let nothing = total_depth_none depth_map d.zero (best ∷ second ∷ rest) shallow in
      let threshold : depth_of depth_map best ⊗ split_threshold ≡ d.zero =
        rw (shallow.0) (laws.mul_comm d.zero split_threshold ∙ mul-zero laws split_threshold) in
      let large : less_than_or_equal order_qty d.zero ≡ false =
        ground (arith, laws.cmp_flip d.zero order_qty, positive) in
      rw (threshold, large, nothing, laws.div-zero (depth_of depth_map best)) refl
