-- ===== src/Router/Comparator/Quoted.antt =====
-- What the comparator computes of the fresh snapshots: the best price, the spreads and the divergences.
use synapse_oms.Base.{
  String, ◌≡◌, refl, ◌∙◌, inl, inr, Bool-cases, some, List, [], ◌∷◌, map, All, arith, if◌then◌else◌,
}
use mathlib.Core.List.{Memᴰ}
use synapse_oms.Decimal.{
  Decimal, IsDecimal, ◌⊖◌, ◌⊕◌, ◌⊗◌, ◌≼◌, ◌≺◌, is_positive, less_than, greater_than,
}
use synapse_oms.Decimal.Order.{le_refl, le_trans, le_of_lt, not-lt-iff, not-gt, ne_of_lt, gt→lt}
use synapse_oms.Decimal.Halves.{two-ne-zero}
use synapse_oms.Domain.Order.{OrderSide}
use synapse_oms.Adapter.{MarketDataSnapshot}
use synapse_oms.Router.Comparator.{
  PricedVenueCandidate, side_price, improves, best_price, bps, bps_factor, spread, worse_by,
  divergence, build_candidates, candidate_of,
}

module _ {D : Type 0} ⦃d : Decimal D⦄ where
  -- Ten thousand times a quotient by a positive number, and zero for any other divisor.
  abbrev pub IsBps : D → D → D → Type 0
  IsBps a b x =
      (d.zero ≺ b → (q : D) × (d.div a b ≡ some q) × (x ≡ q ⊗ d.new_from_int 10000))
      × (b ≼ d.zero → x ≡ d.zero)

  abbrev pub NoWorsePrice : OrderSide → D → D → Type 0
  NoWorsePrice OrderSide.buy a b = a ≼ b
  NoWorsePrice OrderSide.sell a b = b ≼ a

  -- The best of the prices, for a side.
  abbrev pub IsBest : OrderSide → D → List D → Type 0
  IsBest side best prices = All (NoWorsePrice side best) prices × Memᴰ best prices

  abbrev pub price_of : OrderSide → PricedVenueCandidate D → D
  price_of OrderSide.buy c = c.ask_price
  price_of OrderSide.sell c = c.bid_price

  -- How far a price is behind the best one.
  abbrev pub behind_by : OrderSide → D → D → D
  behind_by OrderSide.buy best price = price ⊖ best
  behind_by OrderSide.sell best price = best ⊖ price

  -- What a candidate shows of its venue's snapshot: the prices, the spread relative to their middle, and
  -- how far its price is behind the best one, relative to that.
  pub record Quotes (side : OrderSide) (best : D) (snap : MarketDataSnapshot D)
      (c : PricedVenueCandidate D) : Type 0 where
    pub bid : c.bid_price ≡ snap.bid_price
    pub ask : c.ask_price ≡ snap.ask_price
    pub middle : D
    pub halved : d.div (snap.bid_price ⊕ snap.ask_price) (d.new_from_int 2) ≡ some middle
    pub spread_bps : IsBps (snap.ask_price ⊖ snap.bid_price) middle c.spread_bps
    pub diff_bps : IsBps (behind_by side best (price_of side c)) best c.cross_venue_diff_bps

module _ {D : Type 0} ⦃d : Decimal D⦄ (laws : IsDecimal D) where
  bps-IsBps :
      (a b : D)
      → (x : D) × ((if is_positive b then bps (d.div a b) else some d.zero) ≡ some x) × IsBps a b x
  bps-IsBps a b = elim (Bool-cases (is_positive b)) [
    | inl e ↦
        let (q, k) = laws.div-some a b (ne_of_lt laws d.zero b (gt→lt laws b d.zero e)) in
        (q ⊗ bps_factor, rw (e, k) refl, (λ _. (q, k, refl), λ h. absurd (ground (arith, e, h))))
    | inr e ↦
        (d.zero, rw e refl, (λ h. absurd (ground (arith, laws.cmp_flip b d.zero, e, h)), λ _. refl))
  ]

  spread_lem :
      (snap : MarketDataSnapshot D)
      → (mid x : D) × (d.div (snap.bid_price ⊕ snap.ask_price) (d.new_from_int 2) ≡ some mid)
        × (spread snap ≡ some x)
        × IsBps (snap.ask_price ⊖ snap.bid_price) mid x
  unfolding spread
  spread_lem snap =
      let (mid, e) =
        laws.div-some (snap.bid_price ⊕ snap.ask_price) (d.new_from_int 2) (two-ne-zero laws) in
      let (x, k, is) = bps-IsBps (snap.ask_price ⊖ snap.bid_price) mid in (mid, x, e, rw e k, is)

  divergence_lem :
      (side : OrderSide) (best : D) (snap : MarketDataSnapshot D)
      → (x : D) × (divergence side best snap ≡ some x)
        × IsBps (worse_by side best (side_price side snap)) best x
  unfolding divergence
  divergence_lem side best snap = bps-IsBps (worse_by side best (side_price side snap)) best

  better_of :
      (side : OrderSide) (price best : D)
      → let r = if improves side price best then price else best in
        NoWorsePrice side r price × NoWorsePrice side r best
  better_of OrderSide.buy price best = elim (Bool-cases (less_than price best)) [
    | inl e ↦ rw e (le_refl laws price, le_of_lt laws price best e)
    | inr e ↦ rw e (not-lt-iff laws price best e, le_refl laws best)
  ]
  better_of OrderSide.sell price best = elim (Bool-cases (greater_than price best)) [
    | inl e ↦ rw e (le_refl laws price, le_of_lt laws best price (gt→lt laws price best e))
    | inr e ↦ rw e (not-gt laws price best e, le_refl laws best)
  ]

  NoWorsePrice-trans :
      (side : OrderSide) (a b c : D)
      → NoWorsePrice side a b
      → NoWorsePrice side b c
      → NoWorsePrice side a c
  NoWorsePrice-trans OrderSide.buy a b c h k = le_trans laws a b c h k
  NoWorsePrice-trans OrderSide.sell a b c h k = le_trans laws c b a k h

  NoWorsePrice-refl : (side : OrderSide) (a : D) → NoWorsePrice side a a
  NoWorsePrice-refl OrderSide.buy a = le_refl laws a
  NoWorsePrice-refl OrderSide.sell a = le_refl laws a

  abbrev pub prices : OrderSide → List (String × MarketDataSnapshot D) → List D
  prices side fresh = map (λ vs. side_price side vs.1) fresh

  best_price_lem :
      (side : OrderSide) (best : D) (rest : List (String × MarketDataSnapshot D))
      → let r = best_price side best rest in
        NoWorsePrice side r best
        × All (NoWorsePrice side r) (prices side rest)
        × Memᴰ r (best ∷ prices side rest)
  unfolding best_price
  best_price_lem side best [] = (NoWorsePrice-refl side best, tt, Memᴰ.head refl)
  best_price_lem side best (vs ∷ rest) =
      let price = side_price side vs.1 in
      let next = if improves side price best then price else best in
      let (n, all, m) = best_price_lem side next rest in
      let r = best_price side next rest in
      let (to_price, to_best) = better_of side price best in
      (
        NoWorsePrice-trans side r next best n to_best,
        (NoWorsePrice-trans side r next price n to_price, all),
        elim m [
          | Memᴰ.tail k ↦ Memᴰ.tail (Memᴰ.tail k)
          | Memᴰ.head e ↦ elim (Bool-cases (improves side price best)) [
            | inl i ↦ Memᴰ.tail (Memᴰ.head (e ∙ rw i refl))
            | inr i ↦ Memᴰ.head (e ∙ rw i refl)
          ]
        ],
      )

  pub best_price-IsBest :
      (side : OrderSide) (vs : String × MarketDataSnapshot D)
      (rest : List (String × MarketDataSnapshot D))
      → IsBest side (best_price side (side_price side vs.1) rest) (prices side (vs ∷ rest))
  best_price-IsBest side vs rest =
      let (n, all, m) = best_price_lem side (side_price side vs.1) rest in ((n, all), m)

  price_of_snapshot :
      (side : OrderSide) (c : PricedVenueCandidate D) (snap : MarketDataSnapshot D)
      → c.bid_price ≡ snap.bid_price
      → c.ask_price ≡ snap.ask_price
      → price_of side c ≡ side_price side snap
  price_of_snapshot OrderSide.buy c snap b a = a
  price_of_snapshot OrderSide.sell c snap b a = b

  behind_lem :
      (side : OrderSide) (best : D) (c : PricedVenueCandidate D) (snap : MarketDataSnapshot D)
      → price_of side c ≡ side_price side snap
      → (x : D) → IsBps (worse_by side best (side_price side snap)) best x
      → IsBps (behind_by side best (price_of side c)) best x
  behind_lem OrderSide.buy best c snap e x h = rw e h
  behind_lem OrderSide.sell best c snap e x h = rw e h

  -- The candidate that is built of a snapshot.
  built_candidate :
      (side : OrderSide) (best : D) (vs : String × MarketDataSnapshot D)
      → (c : PricedVenueCandidate D) × (candidate_of vs.0 vs.1
            (spread vs.1)
            (divergence side best vs.1)
          ≡ some c)
        × (c.venue_id ≡ vs.0)
        × (price_of side c ≡ side_price side vs.1)
        × Quotes side best vs.1 c
  built_candidate side best vs =
      let (mid, wide, halved, e, is_wide) = spread_lem vs.1 in
      let (away, k, is_away) = divergence_lem side best vs.1 in
      let c : PricedVenueCandidate D = record {
        venue_id = vs.0;
        bid_price = vs.1.bid_price;
        ask_price = vs.1.ask_price;
        spread_bps = wide;
        cross_venue_diff_bps = away;
      } in
      let same = price_of_snapshot side c vs.1 refl refl in
      (
        c,
        rw (e, k) refl,
        refl,
        same,
        record {
          bid = refl;
          ask = refl;
          middle = mid;
          halved = halved;
          spread_bps = is_wide;
          diff_bps = behind_lem side best c vs.1 same away is_away;
        },
      )

  pub build_candidates_lem :
      (side : OrderSide) (best : D) (P : PricedVenueCandidate D → Type 0)
      (fresh : List (String × MarketDataSnapshot D))
      → All
          (λ vs. (c : PricedVenueCandidate D) → c.venue_id ≡ vs.0 → Quotes side best vs.1 c → P c)
          fresh
      → (cs : List (PricedVenueCandidate D)) × (build_candidates side best fresh ≡ some cs)
        × All P cs
        × (map (λ c. c.venue_id) cs ≡ map (λ vs. vs.0) fresh)
        × (map (price_of side) cs ≡ prices side fresh)
  unfolding build_candidates
  build_candidates_lem side best P [] _ = ([], refl, tt, refl, refl)
  build_candidates_lem side best P (vs ∷ rest) (h, hs) =
      let (c, built, venue, price, quotes) = built_candidate side best vs in
      let (cs, others, all, venues, priced) = build_candidates_lem side best P rest hs in
      (
        c ∷ cs,
        rw (built, others) refl,
        (h c venue quotes, all),
        rw (venue, venues) refl,
        rw (price, priced) refl,
      )
