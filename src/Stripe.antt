-- ===== src/Stripe.antt =====
-- The Stripe gateway of safeagent_exec_guard/stripe_gateway.py. An object of the Stripe library is
-- the dict that `_plain_object` makes of it.
pub mod Store
pub mod Journal
pub mod Reconcile
pub mod Request
pub mod Correlation
pub mod Webhook
