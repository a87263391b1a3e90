-- ===== src/Router/Comparator.antt =====
-- gateway/internal/router/price_comparator.go. The market data provider is an argument: its answer for
-- each venue. A time is a count of nanoseconds from a fixed past moment, so that the cutoff, the
-- threshold before the clock's reading, is never below zero.
pub mod Quoted
pub mod Freshness
use synapse_oms.Base.{
  ℕ, ◌-◌, String, Bool, true, false, Option, none, some, List, [], ◌∷◌, ltb, ◌||◌, if◌then◌else◌,
  Result, ok, err, panic,
}
use synapse_oms.Base.Sort.{slice_stable}
use synapse_oms.Decimal.{Decimal, ◌⊕◌, ◌⊖◌, ◌⊗◌, less_than, greater_than, is_positive}
use synapse_oms.Domain.Order.{OrderSide, side_eq}
use synapse_oms.Adapter.{MarketDataSnapshot}

-- `VenueCandidate` holds the venue and its prices; the other fields keep their zero values.
pub record PricedVenueCandidate (D : Type 0) : Type 0 where
  pub venue_id : String
  pub bid_price : D
  pub ask_price : D
  pub spread_bps : D
  pub cross_venue_diff_bps : D

pub data ComparatorError : Type 0 where
  no_available_venues no_venues_provided : ComparatorError

module _ {D : Type 0} ⦃d : Decimal D⦄ where
  abbrev pub bps_factor : D
  bps_factor = d.new_from_int 10000

  -- The body of the first loop, on the provider's answer.
  abbrev pub keep_fresh :
      ℕ
      → String
      → Option (MarketDataSnapshot D)
      → List (String × MarketDataSnapshot D)
      → List (String × MarketDataSnapshot D)
  keep_fresh cutoff vid none fresh = fresh
  keep_fresh cutoff vid (some snap) fresh =
      if ltb snap.timestamp cutoff then fresh else (vid, snap) ∷ fresh

  unfoldable pub fresh_snapshots :
      (String → Option (MarketDataSnapshot D))
      → ℕ
      → List String
      → List (String × MarketDataSnapshot D)
  fresh_snapshots get_snapshot cutoff [] = []
  fresh_snapshots get_snapshot cutoff (vid ∷ vids) =
      keep_fresh cutoff vid (get_snapshot vid) (fresh_snapshots get_snapshot cutoff vids)

  abbrev pub side_price : OrderSide → MarketDataSnapshot D → D
  side_price OrderSide.buy snap = snap.ask_price
  side_price OrderSide.sell snap = snap.bid_price

  abbrev pub improves : OrderSide → D → D → Bool
  improves OrderSide.buy price best = less_than price best
  improves OrderSide.sell price best = greater_than price best

  -- The second loop, from its second round on.
  unfoldable pub best_price : OrderSide → D → List (String × MarketDataSnapshot D) → D
  best_price side best [] = best
  best_price side best (vs ∷ rest) =
      let price = side_price side vs.1 in
      best_price side (if improves side price best then price else best) rest

  -- A quotient times 10000; `none` is the panic of a division by zero.
  abbrev pub bps : Option D → Option D
  bps none = none
  bps (some q) = some (q ⊗ bps_factor)

  abbrev pub spread_of : MarketDataSnapshot D → Option D → Option D
  spread_of snap none = none
  spread_of snap (some mid) =
      if is_positive mid then bps (d.div (snap.ask_price ⊖ snap.bid_price) mid) else some d.zero

  unfoldable pub spread : MarketDataSnapshot D → Option D
  spread snap = spread_of snap (d.div (snap.bid_price ⊕ snap.ask_price) (d.new_from_int 2))

  abbrev pub worse_by : OrderSide → D → D → D
  worse_by OrderSide.buy best price = price ⊖ best
  worse_by OrderSide.sell best price = best ⊖ price

  unfoldable pub divergence : OrderSide → D → MarketDataSnapshot D → Option D
  divergence side best snap =
      if is_positive best
      then bps (d.div (worse_by side best (side_price side snap)) best)
      else some d.zero

  abbrev pub candidate_of :
      String → MarketDataSnapshot D → Option D → Option D → Option (PricedVenueCandidate D)
  candidate_of vid snap (some spread_bps) (some diff_bps) = some (record {
    venue_id = vid;
    bid_price = snap.bid_price;
    ask_price = snap.ask_price;
    spread_bps = spread_bps;
    cross_venue_diff_bps = diff_bps;
  })
  candidate_of vid snap (some spread_bps) none = none
  candidate_of vid snap none _ = none

  abbrev pub push_candidate :
      Option (PricedVenueCandidate D)
      → Option (List (PricedVenueCandidate D))
      → Option (List (PricedVenueCandidate D))
  push_candidate (some c) (some cs) = some (c ∷ cs)
  push_candidate (some c) none = none
  push_candidate none _ = none

  -- The third loop.
  unfoldable pub build_candidates :
      OrderSide → D → List (String × MarketDataSnapshot D) → Option (List (PricedVenueCandidate D))
  unfolding spread divergence
  build_candidates side best [] = some []
  build_candidates side best (vs ∷ rest) =
      push_candidate (candidate_of vs.0 vs.1 (spread vs.1) (divergence side best vs.1))
        (build_candidates side best rest)

  -- The comparison that is handed to `sort.SliceStable`.
  unfoldable pub sorts_before : OrderSide → PricedVenueCandidate D → PricedVenueCandidate D → Bool
  sorts_before OrderSide.buy a b = less_than a.ask_price b.ask_price
  sorts_before OrderSide.sell a b = greater_than a.bid_price b.bid_price

  unfoldable pub sorted :
      OrderSide
      → Option (List (PricedVenueCandidate D))
      → Result ComparatorError (List (PricedVenueCandidate D))
  unfolding sorts_before
  sorted side none = panic
  sorted side (some candidates) = ok (slice_stable (sorts_before side) candidates)

  -- What follows the first loop.
  unfoldable pub rank_fresh :
      OrderSide
      → List (String × MarketDataSnapshot D)
      → Result ComparatorError (List (PricedVenueCandidate D))
  unfolding best_price build_candidates sorted
  rank_fresh side [] = err no_available_venues
  rank_fresh side (vs ∷ rest) =
      sorted side (build_candidates side (best_price side (side_price side vs.1) rest) (vs ∷ rest))

  unfoldable pub compare_venue_prices :
      (String → Option (MarketDataSnapshot D))
      → ℕ
      → ℕ
      → List String
      → OrderSide
      → Result ComparatorError (List (PricedVenueCandidate D))
  unfolding fresh_snapshots rank_fresh
  compare_venue_prices get_snapshot now stale_threshold [] side = err no_venues_provided
  compare_venue_prices get_snapshot now stale_threshold (vid ∷ vids) side =
      rank_fresh side (fresh_snapshots get_snapshot (now - stale_threshold) (vid ∷ vids))
