-- ===== src/Delivery.antt =====
-- Delivery of job events (src/store/queue/delivery.rs, src/queue/delivery.rs): the outbox of the
-- machine that owns the queue, and the routes and inbox of the machine that owns the callbacks.
pub mod Types
pub mod Routes
pub mod Inbox
pub mod Cursors
pub mod Updates
pub mod SettleLaws
pub mod Kept
pub mod RouteLaws
pub mod Accept
pub mod AcceptLaws
pub mod Growth
pub mod Preserved
pub mod Submitted
pub mod Reach
pub mod Outbox
pub mod Branches
pub mod Offers
pub mod Acks
pub mod Worker
mod Examples
