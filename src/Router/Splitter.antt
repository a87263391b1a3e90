-- ===== src/Router/Splitter.antt =====
-- gateway/internal/router/splitter.go.
pub mod Totals
use synapse_oms.Base.{
  ℕ, String, ◌==◌, Bool, true, false, Option, none, some, List, [], ◌∷◌, ◌++◌, if◌then◌else◌,
}
use synapse_oms.Base.Maps.{Map, lookup}
use synapse_oms.Decimal.{Decimal, ◌⊕◌, ◌⊖◌, ◌⊗◌, less_than, less_than_or_equal, is_positive}
use synapse_oms.Router.Types.{VenueAllocation}

abbrev pub and_then : {A B : Type 0} → Option A → (A → Option B) → Option B
and_then none f = none
and_then (some a) f = f a

module _ {D : Type 0} ⦃d : Decimal D⦄ where
  abbrev pub split_threshold : D
  split_threshold = d.new_from_float 5 1

  -- A missing key reads as the zero decimal.
  abbrev pub depth_or_zero : Option D → D
  depth_or_zero none = d.zero
  depth_or_zero (some depth) = depth

  abbrev pub depth_of : Map D → VenueAllocation D → D
  depth_of depth_map v = depth_or_zero (lookup v.venue_id depth_map)

  -- The sum of the depths that the map has, added up from the left.
  unfoldable pub total_depth : Map D → D → List (VenueAllocation D) → D
  total_depth depth_map total [] = total
  total_depth depth_map total (v ∷ vs) = elim (lookup v.venue_id depth_map) [
    | none ↦ total_depth depth_map total vs
    | some depth ↦ total_depth depth_map (total ⊕ depth) vs
  ]

  -- The whole lots in `share * order_qty`; `none` is the panic of a division by zero.
  abbrev pub lots_in : D → D → Option D → Option D
  lots_in order_qty lot_size none = none
  lots_in order_qty lot_size (some share) = d.div (share ⊗ order_qty) lot_size

  abbrev pub round_down : D → Option D → Option D
  round_down lot_size none = none
  round_down lot_size (some lots) = some (d.floor lots ⊗ lot_size)

  -- A venue's proportional part, rounded down to whole lots.
  unfoldable pub part : D → D → D → D → Option D
  part order_qty lot_size total depth =
      round_down lot_size (lots_in order_qty lot_size (d.div depth total))

  -- `append` of an allocation of at least one lot, and the quantity allocated so far. `reason` stands
  -- for the text of `fmt.Sprintf`, given the depth and the total.
  abbrev pub place :
      (D → D → String)
      → D
      → D
      → D
      → VenueAllocation D
      → Option D
      → List (VenueAllocation D) × D
      → Option (List (VenueAllocation D) × D)
  place reason lot_size total depth v none (allocations, allocated) = none
  place reason lot_size total depth v (some qty) (allocations, allocated) =
      if less_than qty lot_size
      then some (allocations, allocated)
      else some (
        allocations
            ++ (record { venue_id = v.venue_id; quantity = qty; reason = reason depth total } ∷ []),
        allocated ⊕ qty,
      )

  -- The loop over the ranked venues.
  unfoldable pub split_loop :
      (D → D → String)
      → Map D
      → D
      → D
      → D
      → List (VenueAllocation D)
      → List (VenueAllocation D) × D
      → Option (List (VenueAllocation D) × D)
  unfolding part
  split_loop reason depth_map order_qty lot_size total [] acc = some acc
  split_loop reason depth_map order_qty lot_size total (v ∷ vs) acc =
      let depth = depth_of depth_map v in
      and_then (place reason lot_size total depth v (part order_qty lot_size total depth) acc)
        (split_loop reason depth_map order_qty lot_size total vs)

  -- A positive residual goes to the best venue, at the head of the allocations.
  unfoldable pub assign_residual :
      VenueAllocation D → D → List (VenueAllocation D) → List (VenueAllocation D)
  assign_residual best residual [] =
      record {
        venue_id = best.venue_id;
        quantity = residual;
        reason = "split: residual to best venue";
      }
      ∷ []
  assign_residual best residual (a ∷ more) =
      if a.venue_id == best.venue_id
      then record a { quantity = a.quantity ⊕ residual } ∷ more
      else record {
        venue_id = best.venue_id;
        quantity = residual;
        reason = "split: residual to best venue";
      }
        ∷ a
        ∷ more

  -- What follows the loop.
  unfoldable pub settle :
      D → VenueAllocation D → List (VenueAllocation D) × D → List (VenueAllocation D)
  unfolding assign_residual
  settle order_qty best (allocations, allocated) =
      if is_positive (order_qty ⊖ allocated)
      then assign_residual best (order_qty ⊖ allocated) allocations
      else allocations

  abbrev pub settled :
      D
      → VenueAllocation D
      → Option (List (VenueAllocation D) × D)
      → Option (List (VenueAllocation D))
  unfolding settle
  settled order_qty best none = none
  settled order_qty best (some acc) = some (settle order_qty best acc)

  abbrev pub single : String → VenueAllocation D → D → List (VenueAllocation D)
  single reason best order_qty =
      record { venue_id = best.venue_id; quantity = order_qty; reason = reason } ∷ []

  -- `none` is the panic of a division by zero.
  unfoldable pub split_order :
      (D → D → String)
      → D
      → List (VenueAllocation D)
      → Map D
      → D
      → Option (List (VenueAllocation D))
  unfolding split_loop total_depth settle
  split_order reason order_qty [] depth_map lot_size = some []
  split_order reason order_qty (best ∷ []) depth_map lot_size =
      some (single "single-venue" best order_qty)
  split_order reason order_qty (best ∷ second ∷ rest) depth_map lot_size =
      if less_than_or_equal order_qty (depth_of depth_map best ⊗ split_threshold)
      then some (single "no-split: within depth threshold" best order_qty)
      else let ranked = best ∷ second ∷ rest in
        settled order_qty best (
          split_loop reason depth_map order_qty lot_size (total_depth depth_map d.zero ranked)
            ranked ([], d.zero))
