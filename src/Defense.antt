-- ===== src/Defense.antt =====
-- defense/: the application-plane defense.
pub mod Bucket
pub mod CreditFilter
pub mod UseLedger
pub mod Request
pub mod Lanes
pub mod ReplayGuard
pub mod Reasons
pub mod Anomaly
pub mod Events
pub mod Automata
pub mod Lifecycle
pub mod Lineage
pub mod Channel
pub mod L2Lifecycle
pub mod Penetration
pub mod Composer
pub mod Enrollment
pub mod L2Stage
pub mod IngressClass
