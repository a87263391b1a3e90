-- ===== src/Lib.antt =====
-- The core of the SynapseOMS gateway (gateway/internal): orders, positions, internal crossing, routing.
--
-- Orders (gateway/internal/domain/order.go) carry a state machine and the quantity filled so far;
-- positions (domain/position.go) carry average cost, realized and unrealized profit; the crossing
-- engine (crossing/engine.go) matches an incoming order with resting ones; the router (router) decides
-- which venues an order goes to, by the strategy that is asked for; the pipeline (pipeline) takes an
-- order from Submit through the risk check, the router and a venue's dispatcher to its fills, and calls
-- all of the others.
--
--   Decimal    the numbers of github.com/shopspring/decimal, a parameter of every other module with
--              the documented laws that are relied on; Decimal/Units meets them with integers
--   Domain     gateway/internal/domain: Instrument, Fill, Order (ApplyTransition, ApplyFill),
--              Position (ApplyFill, UpdateMarketPrice)
--   Crossing   gateway/internal/crossing: AddOrder, TryCross, canCross, midpointPrice; the book holds orders
--              and not pointers, so an order that is added twice, or filled elsewhere while it rests,
--              is outside the model
--   Router     gateway/internal/router: Types (types.go, strategy.go), Registry (router.go), BestPrice,
--              VenuePreference and Ml (strategy_*.go), Splitter (splitter.go), Comparator
--              (price_comparator.go), Backed, what an allocation
--              promises, and Wired, the router that gateway/cmd/gateway/main.go builds
--   Pipeline   gateway/internal/pipeline/pipeline.go: State, Events (notifications; with
--              kafka/events.go), Intake (Submit, riskCheckWorker), Dispatch (routeLegacy,
--              dispatchToVenue, venueDispatch), Fills (processFill), Smart (routeSmart); Actions has the
--              interleavings of their rounds; Pricer (pricer.go); Submission, Refusal, Applied, Safety
--              and Priced are about them
--   Simulated  gateway/internal/adapter/simulated/matching_engine.go: ProcessOrder, the sweep, CancelOrder,
--              FindOrder; Venue is the adapters in front of it (simulated/adapter.go,
--              tokenized/adapter.go), and Found is about them
--   Adapter    gateway/internal/adapter/provider.go and registry.go
--   MarketData gateway/internal/marketdata/aggregator.go: Ingest, Flush; Chart and Candles say what the bars
--              should be, Built, Ingested and Extremes that they are
--   Store      gateway/internal/store: Tables (the columns), Convert, Orders (with the fills), Positions,
--              Instruments (with the settings), Venues (with the credentials); Rows, Saved and Replayed
--              are about what is read back
--   Credential gateway/internal/credential: Vault, Types, Manager; Kept is the interface that the manager
--              asks of its store, Postgres meets it with the tables, Moved and Rotation are about a
--              rotation
--   Ws         gateway/internal/ws/hub.go: Messages, Hub (the clients, the broadcasts, the throttle of position
--              updates); Acts has the interleavings of the throttle, and Throttle is about them
--   Rest       gateway/internal/rest/handler_order.go: Orders (submitOrder, cancelOrder), on the pipeline, the
--              store and the registry of adapters; Checks, Venues and Accepted are about an order that is
--              posted
--   Base       what the modules share
--
-- A method on a pointer returns the new record. An error is a value of Result, and a panic (a
-- division by zero in decimal.Div) is one too. A mutex makes a method one step. The clock's reading
-- (nanoseconds, a natural number) and random identifiers are arguments. The market data
-- provider and the scoring service are arguments too: functions that give their answers.
--
-- A goroutine of the pipeline is a loop over a channel, and one round of it is one step on the shared
-- state: fills that a venue produces during SubmitOrder are collected in a later step. The interleavings
-- are those of a pipeline without a smart router. No definition runs on fuel: every loop of the source
-- walks over a list.
--
-- Not modelled: the HTTP and WebSocket transport, the other REST handlers, the adapters of remote
-- venues, the market data that the simulated venues send, and the services outside the gateway. The
-- Postgres store is a parameter of the pipeline, which Pipeline/Postgres instantiates; a lost
-- connection to the database, the migrations and the driver are outside the model of the store,
-- which takes PostgreSQL's keys and references from gateway/migrations.
pub mod Base
pub mod Decimal
pub mod Domain
pub mod Adapter
pub mod MarketData
pub mod Crossing
pub mod Router
pub mod Pipeline
pub mod Simulated
pub mod Store
pub mod Credential
pub mod Ws
pub mod Rest
