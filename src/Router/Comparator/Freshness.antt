-- ===== src/Router/Comparator/Freshness.antt =====
-- What the comparator answers: the venues with a fresh snapshot, in the order of their prices.
use synapse_oms.Base.{
  ℕ, ◌-◌, ◌≤◌, String, ◌≡◌, refl, sym, ap, ◌∙◌, subst, inl, inr, Bool, true, false, Bool-cases,
  Option, none, some, List, [], ◌∷◌, All, map, select, leb, ltb, arith, Result, ok, err,
  if◌then◌else◌,
}
use mathlib.Core.Option.{some-injective}
use mathlib.Core.List.{Perm}
use synapse_oms.Base.Sort.{slice_stable, slice_stable-perm, slice_stable-Ordered, Ordered}
use synapse_oms.Decimal.{Decimal, IsDecimal, ◌≼◌}
use synapse_oms.Decimal.Order.{le_trans}
use synapse_oms.Domain.Order.{OrderSide}
use synapse_oms.Adapter.{MarketDataSnapshot}
use synapse_oms.Router.Comparator.{
  PricedVenueCandidate, ComparatorError, no_available_venues, no_venues_provided, keep_fresh,
  fresh_snapshots, side_price, best_price, sorts_before, sorted, rank_fresh, compare_venue_prices,
}
use synapse_oms.Router.Comparator.Quoted.{
  IsBest, price_of, Quotes, best_price-IsBest, build_candidates_lem,
}

module _ {D : Type 0} ⦃d : Decimal D⦄ where
  abbrev pub NoWorse : OrderSide → PricedVenueCandidate D → PricedVenueCandidate D → Type 0
  NoWorse OrderSide.buy a b = a.ask_price ≼ b.ask_price
  NoWorse OrderSide.sell a b = b.bid_price ≼ a.bid_price

module _ {D : Type 0} ⦃d : Decimal D⦄ (get_snapshot : String → Option (MarketDataSnapshot D))
    (cutoff : ℕ) where
  -- The venue's snapshot, no older than the cutoff.
  pub record IsFresh (venue : String) (snap : MarketDataSnapshot D) : Type 0 where
    pub found : get_snapshot venue ≡ some snap
    pub recent : cutoff ≤ snap.timestamp

  -- A candidate shows its venue's fresh snapshot.
  pub record ShowsFresh (side : OrderSide) (best : D) (c : PricedVenueCandidate D) : Type 0 where
    pub snapshot : MarketDataSnapshot D
    pub fresh : IsFresh c.venue_id snapshot
    pub quotes : Quotes side best snapshot c

  -- Whether a venue has a fresh snapshot.
  abbrev pub is_recent : Option (MarketDataSnapshot D) → Bool
  is_recent none = false
  is_recent (some snap) = leb cutoff snap.timestamp

  abbrev pub fresh_venues : List String → List String
  fresh_venues = select (λ venue. is_recent (get_snapshot venue))

  -- The venue has no snapshot, or an old one.
  abbrev pub IsStale : String → Type 0
  IsStale venue = (snap : MarketDataSnapshot D) → ¬ IsFresh venue snap

  pub data Outcome (side : OrderSide) (venues : List String)
      : Result ComparatorError (List (PricedVenueCandidate D)) → Type 0 where
    unasked : venues ≡ [] → Outcome side venues (err no_venues_provided)
    unavailable : All IsStale venues → Outcome side venues (err no_available_venues)
    -- `shown` has a candidate for each fresh venue, and `cs` is `shown` in order.
    ranked :
        (cs shown : List (PricedVenueCandidate D)) (best : D)
        → Ordered (NoWorse side) cs
        → Perm cs shown
        → map (λ c. c.venue_id) shown ≡ fresh_venues venues
        → IsBest side best (map (price_of side) shown)
        → All (ShowsFresh side best) shown
        → Outcome side venues (ok cs)

  keep_fresh-All :
      (vid : String) (answer : Option (MarketDataSnapshot D))
      (fresh : List (String × MarketDataSnapshot D))
      → get_snapshot vid ≡ answer
      → All (λ vs. IsFresh vs.0 vs.1) fresh
      → All (λ vs. IsFresh vs.0 vs.1) (keep_fresh cutoff vid answer fresh)
  keep_fresh-All vid none fresh e h = h
  keep_fresh-All vid (some snap) fresh e h = elim (Bool-cases (ltb snap.timestamp cutoff)) [
    | inl old ↦ rw old h
    | inr young ↦ rw young (record { found = e; recent = ground arith }, h)
  ]

  fresh_snapshots-All :
      (vids : List String)
      → All (λ vs. IsFresh vs.0 vs.1) (fresh_snapshots get_snapshot cutoff vids)
  unfolding fresh_snapshots
  fresh_snapshots-All [] = tt
  fresh_snapshots-All (vid ∷ vids) =
      keep_fresh-All vid (get_snapshot vid) (fresh_snapshots get_snapshot cutoff vids) refl
        (fresh_snapshots-All vids)

  keep_fresh-none :
      (vid : String) (answer : Option (MarketDataSnapshot D))
      (fresh : List (String × MarketDataSnapshot D))
      → get_snapshot vid ≡ answer
      → keep_fresh cutoff vid answer fresh ≡ []
      → IsStale vid × (fresh ≡ [])
  keep_fresh-none vid none fresh e h = (λ snap k. ground (arith, k.found), h)
  keep_fresh-none vid (some old) fresh e h = elim (Bool-cases (ltb old.timestamp cutoff)) [
    | inl late ↦ (
      λ snap k.
          let same = some-injective old snap (sym e ∙ k.found) in
          ground (arith, k.recent, ap (λ t. t.timestamp) same),
      rw late at h,
    )
    | inr young ↦ ground (arith, h)
  ]

  fresh_snapshots-none :
      (vids : List String) → fresh_snapshots get_snapshot cutoff vids ≡ [] → All IsStale vids
  unfolding fresh_snapshots
  fresh_snapshots-none [] h = tt
  fresh_snapshots-none (vid ∷ vids) h =
      let here =
        keep_fresh-none vid (get_snapshot vid) (fresh_snapshots get_snapshot cutoff vids) refl h in
      (here.0, fresh_snapshots-none vids here.1)

  keep_fresh-venues :
      (vid : String) (answer : Option (MarketDataSnapshot D))
      (fresh : List (String × MarketDataSnapshot D)) (rest : List String)
      → map (λ vs. vs.0) fresh ≡ rest
      → map (λ vs. vs.0) (keep_fresh cutoff vid answer fresh)
        ≡ (if is_recent answer then vid ∷ rest else rest)
  keep_fresh-venues vid none fresh rest h = h
  keep_fresh-venues vid (some snap) fresh rest h = elim (Bool-cases (ltb snap.timestamp cutoff)) [
    | inl old ↦
        let late : leb cutoff snap.timestamp ≡ false = ground (arith, old) in rw (old, late) h
    | inr young ↦
        let soon : leb cutoff snap.timestamp ≡ true = ground (arith, young) in
        rw (young, soon) (ap (◌∷◌ vid) h)
  ]

  fresh_snapshots-venues :
      (vids : List String)
      → map (λ vs. vs.0) (fresh_snapshots get_snapshot cutoff vids) ≡ fresh_venues vids
  unfolding fresh_snapshots
  fresh_snapshots-venues [] = refl
  fresh_snapshots-venues (vid ∷ vids) =
      keep_fresh-venues vid (get_snapshot vid) (fresh_snapshots get_snapshot cutoff vids)
        (fresh_venues vids) (fresh_snapshots-venues vids)

module _ {D : Type 0} ⦃d : Decimal D⦄ (laws : IsDecimal D)
    (get_snapshot : String → Option (MarketDataSnapshot D)) (cutoff : ℕ) (side : OrderSide) where
  fresh-ShowsFresh :
      (best : D) (fresh : List (String × MarketDataSnapshot D))
      → All (λ vs. IsFresh get_snapshot cutoff vs.0 vs.1) fresh
      → All
          (λ vs.
            (c : PricedVenueCandidate D)
            → c.venue_id ≡ vs.0
            → Quotes side best vs.1 c
            → ShowsFresh get_snapshot cutoff side best c)
          fresh
  fresh-ShowsFresh best [] _ = tt
  fresh-ShowsFresh best (vs ∷ rest) (h, hs) = (
    λ c venue quotes. record {
      snapshot = vs.1;
      fresh = subst (λ v. IsFresh get_snapshot cutoff v vs.1) (sym venue) h;
      quotes = quotes;
    },
    fresh-ShowsFresh best rest hs,
  )

  NoWorse-trans :
      (s : OrderSide) (a b c : PricedVenueCandidate D)
      → NoWorse s a b
      → NoWorse s b c
      → NoWorse s a c
  NoWorse-trans OrderSide.buy a b c h k = le_trans laws _ _ _ h k
  NoWorse-trans OrderSide.sell a b c h k = le_trans laws _ _ _ k h

  before-NoWorse :
      (s : OrderSide) (a b : PricedVenueCandidate D) → sorts_before s a b ≡ true → NoWorse s a b
  unfolding sorts_before
  before-NoWorse OrderSide.buy a b h = ground arith
  before-NoWorse OrderSide.sell a b h = ground (arith, laws.cmp_flip a.bid_price b.bid_price)

  behind-NoWorse :
      (s : OrderSide) (a b : PricedVenueCandidate D) → sorts_before s a b ≡ false → NoWorse s b a
  unfolding sorts_before
  behind-NoWorse OrderSide.buy a b h = ground (arith, laws.cmp_flip a.ask_price b.ask_price)
  behind-NoWorse OrderSide.sell a b h = ground arith

  rank_fresh-Outcome :
      (venues : List String) (fresh : List (String × MarketDataSnapshot D))
      → All (λ vs. IsFresh get_snapshot cutoff vs.0 vs.1) fresh
      → (fresh ≡ [] → All (IsStale get_snapshot cutoff) venues)
      → map (λ vs. vs.0) fresh ≡ fresh_venues get_snapshot cutoff venues
      → Outcome get_snapshot cutoff side venues (rank_fresh side fresh)
  unfolding rank_fresh sorted
  rank_fresh-Outcome venues [] hs h names = unavailable (h refl)
  rank_fresh-Outcome venues (vs ∷ rest) hs h names =
      let best = best_price side (side_price side vs.1) rest in
      let (shown, built, all, venues_shown, priced) =
        build_candidates_lem laws side best (ShowsFresh get_snapshot cutoff side best) (vs ∷ rest)
          (fresh-ShowsFresh best (vs ∷ rest) hs) in
      rw built (
        ranked (slice_stable (sorts_before side) shown) shown best
          (slice_stable-Ordered (sorts_before side) (NoWorse side) (NoWorse-trans side)
            (before-NoWorse side) (behind-NoWorse side) shown)
          (slice_stable-perm (sorts_before side) shown) (venues_shown ∙ names)
          (subst (IsBest side best) (sym priced) (best_price-IsBest laws side vs rest)) all)

module _ {D : Type 0} ⦃d : Decimal D⦄ (laws : IsDecimal D) where
  -- Comparing the venues' prices never panics, and refuses only when no venue is asked for or none of
  -- them has a snapshot as recent as the threshold asks. Otherwise there is a candidate for each of the
  -- venues with a recent snapshot and for no other, and no candidate is ranked behind a worse price for
  -- the side. Each shows the prices of its snapshot, the spread relative to their middle and its
  -- distance from the best of the candidates' prices relative to that, in hundredths of a percent;
  -- such a number is zero where the middle or the best price is not positive.
  pub compare_venue_prices-Outcome :
      (get_snapshot : String → Option (MarketDataSnapshot D)) (now stale_threshold : ℕ)
      (venues : List String) (side : OrderSide)
      → Outcome get_snapshot
          (now - stale_threshold)
          side
          venues
          (compare_venue_prices get_snapshot now stale_threshold venues side)
  unfolding compare_venue_prices
  compare_venue_prices-Outcome get_snapshot now stale_threshold [] side = unasked refl
  compare_venue_prices-Outcome get_snapshot now stale_threshold (vid ∷ vids) side =
      let cutoff = now - stale_threshold in
      rank_fresh-Outcome laws get_snapshot cutoff side (vid ∷ vids)
        (fresh_snapshots get_snapshot cutoff (vid ∷ vids))
        (fresh_snapshots-All get_snapshot cutoff (vid ∷ vids))
        (fresh_snapshots-none get_snapshot cutoff (vid ∷ vids))
        (fresh_snapshots-venues get_snapshot cutoff (vid ∷ vids))
