-- ===== src/Pipeline/Postgres.antt =====
-- The tables of gateway/internal/store as the store of the pipeline.
use synapse_oms.Store.Tables.{Driver, Database}
use synapse_oms.Store.Orders
use synapse_oms.Store.Positions
use synapse_oms.Pipeline.State.{Store}

unfoldable pub postgres_store : {D : Type 0} ⦃w : Driver D⦄ → Store (Database D) D
unfolding Orders.create_order Orders.update_order Orders.create_fill Positions.upsert_position
    Positions.get_position
postgres_store = record {
  create_order = Orders.create_order;
  update_order = Orders.update_order;
  create_fill = Orders.create_fill;
  upsert_position = Positions.upsert_position;
  get_position = Positions.get_position;
}
