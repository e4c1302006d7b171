-- ===== src/Tests.antt =====
-- Each theorem at a concrete input where its conditions hold.
mod Settlement
mod Execution
mod Hosted
mod Boundary
mod Attestation
mod Control
mod ExitGuard
mod Stripe
