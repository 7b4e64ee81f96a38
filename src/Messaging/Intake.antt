-- ===== src/Messaging/Intake.antt =====
-- src/dispatch_core/messaging/intake.py: `IntakeCoordinator`.
pub mod Data
pub mod Prompts
pub mod Steps
pub mod Changes
pub mod Flow
pub mod Handlers
pub mod MapChoice
pub mod Passed
pub mod Validity
pub mod Judgement
pub mod Ready
pub mod Fields
pub mod Sound
pub mod Buttons
pub mod Updates
pub mod Confirmation
pub mod Again
