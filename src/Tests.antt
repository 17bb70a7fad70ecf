-- ===== src/Tests.antt =====
-- Runs of the model on small inputs, and the theorems that Lib.antt lists applied to one.
mod Fixtures
mod Withdrawals
mod Payments
mod Chain
mod Webhooks
mod Currencies
mod Collection
mod Evm
mod Gateways
mod Administration
mod Blocks
mod Alerts
