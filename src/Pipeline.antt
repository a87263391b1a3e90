-- ===== src/Pipeline.antt =====
-- gateway/internal/pipeline: the way of an order from Submit to its fills. Each of the pipeline's
-- goroutines is a loop over a channel; one round of a loop is one step on the shared state.
pub mod State
pub mod Events
pub mod Intake
pub mod Dispatch
pub mod Fills
pub mod Smart
pub mod Actions
pub mod Safety
pub mod Submission
pub mod Refusal
pub mod Applied
pub mod Postgres
pub mod Pricer
pub mod Priced
pub mod Tests
