-- ===== src/Router.antt =====
-- gateway/internal/router: where an order goes. The strategies, the splitter and the price comparator
-- are child modules.
pub mod Types
pub mod Registry
pub mod BestPrice
pub mod VenuePreference
pub mod Backed
pub mod Ml
pub mod Splitter
pub mod Comparator
pub mod Wired
pub mod Tests
