-- ===== src/Simulated/Found/Tests.antt =====
-- An order at a connected venue, and the theorem about it.
use synapse_oms.Base.{◌≡◌, refl, ne_of_test, [], ◌∷◌, ok, err, ◌>>=◌}
use synapse_oms.Base.Int.{ℤ, pos}
use synapse_oms.Base.Maps.{lookup}
use synapse_oms.Decimal.Units.{units}
use synapse_oms.Domain.Order.Tests.{ten}
use synapse_oms.Adapter.{VenueStatus}
use synapse_oms.Simulated.Tests.{fill_ids, seller}
use synapse_oms.Simulated.Venue.{
  SimulatedAdapter, order_not_found, submit_venue_order, cancel_venue_order, query_order,
}
use synapse_oms.Simulated.Found.{query_order-submit}
use synapse_oms.Simulated.Found.Prefix.{sim_prefixed, sim_prefixed_injective}

abbrev exchange : SimulatedAdapter ℤ
exchange = record {
  engine = record {
    books = ("AAPL", seller ∷ []) ∷ [];
    price_walks = ("AAPL", pos 95) ∷ [];
    fill_ch = [];
  };
  status = VenueStatus.connected;
}

query_order-submit_example :
    ((submit_venue_order sim_prefixed (λ side price. price) fill_ids 2 ten exchange >>= λ r.
    query_order sim_prefixed r.0.venue_order_id r.1)
      ≡ ok ten)
    × ((submit_venue_order sim_prefixed (λ side price. price) fill_ids 2 ten exchange >>= λ r.
          cancel_venue_order ten.id r.1 >>= λ c. query_order sim_prefixed r.0.venue_order_id c)
        ≡ err order_not_found)
unfolding lookup
query_order-submit_example =
    query_order-submit sim_prefixed sim_prefixed_injective (λ side price. price) fill_ids 2 ten
      (seller ∷ []) exchange refl refl refl ((ne_of_test "o-2" "o-1" refl, tt), tt)

-- The answer carries the prefix.
ack_prefixed : sim_prefixed ten.id ≡ "SIM-o-1"
ack_prefixed = refl
