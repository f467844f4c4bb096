-- ===== src/Tests.antt =====
-- Concrete inputs for the theorems of the other modules.
mod Sample
mod Numbers
mod Store
mod Broker
mod Trading
mod Data
mod Runtime
