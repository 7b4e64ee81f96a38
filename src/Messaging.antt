-- ===== src/Messaging.antt =====
-- src/dispatch_core/messaging: the replies, and the guided flow that ends in a submitted order.
pub mod Replies
pub mod Intake
