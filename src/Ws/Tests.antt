-- ===== src/Ws/Tests.antt =====
-- Updates of positions at a new hub, and the theorem about them. The bytes of a message are its data.
use synapse_oms.Base.{ℕ, ◌*◌, String, ◌≡◌, refl, Option, none, some, List, [], ◌∷◌, arith}
use synapse_oms.Ws.Messages.{positions, PositionData, Message, position_update}
use synapse_oms.Ws.Hub.{new_hub}
use synapse_oms.Ws.Acts.{Act, update, turn, act, run}
use synapse_oms.Ws.Throttle.{Sent, last_update-Sent}

abbrev held : String → String → PositionData
held instrument quantity = record {
  instrument_id = instrument;
  venue_id = "sim-exchange";
  quantity = quantity;
  average_cost = "1";
  market_price = "1";
  unrealized_pnl = "0";
  realized_pnl = "0";
  unsettled_quantity = "0";
  settled_quantity = "0";
  asset_class = "equity";
  quote_currency = "USD";
  updated_at = 0;
}

abbrev to_data : Message ℕ → Option PositionData
to_data (position_update pd) = some pd
to_data _ = none

abbrev ms : ℕ
ms = 1_000_000

abbrev burst : List (Act PositionData × ℕ)
burst =
    (update (held "AAPL" "1"), 1000 * ms)
    ∷ (update (held "BTC" "2"), 1050 * ms)
    ∷ (update (held "AAPL" "3"), 1060 * ms)
    ∷ []

-- The update of BTC, which came between those of AAPL, is never sent.
burst_drops :
    (act to_data turn (1100 * ms) (run to_data burst new_hub)).broadcasts
    ≡ (positions, held "AAPL" "3") ∷ (positions, held "AAPL" "1") ∷ []
unfolding act run new_hub
burst_drops = refl

abbrev race : List (Act PositionData × ℕ)
race =
    (update (held "AAPL" "1"), 1000 * ms)
    ∷ (update (held "AAPL" "2"), 1050 * ms)
    ∷ (update (held "AAPL" "3"), 1100 * ms)
    ∷ (turn, 1100 * ms)
    ∷ []

-- An update that comes when the timer is due, before its function runs, is sent first, and then the older
-- one.
race_sends_older :
    (run to_data race new_hub).broadcasts
    ≡ (positions, held "AAPL" "2")
      ∷ (positions, held "AAPL" "3")
      ∷ (positions, held "AAPL" "1")
      ∷ []
unfolding act run new_hub
race_sends_older = refl

last_update-Sent_example :
    Sent to_data
      (λ pd. pd)
      (λ pd. refl)
      (held "AAPL" "3")
      (act to_data turn (1160 * ms) (run to_data burst new_hub))
last_update-Sent_example =
    last_update-Sent to_data (λ pd. pd) (λ pd. refl) burst (held "AAPL" "3") (1060 * ms) (1160 * ms)
      (omega arith, (omega arith, (omega arith, tt))) refl (omega arith)
