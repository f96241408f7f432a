-- ===== src/Tests.antt =====
-- Runs of the model at concrete inputs, and the theorems at inputs that meet their hypotheses.
mod Wire
mod Lost
mod Oversize
mod Direct
mod Messages
mod Data
mod Cases
mod Chain
mod Delivery
mod World
mod Metadata
mod Timeouts
mod Calls
mod Queues
mod Loopback
mod Rpc
mod Exchanges
mod Serving
mod Services
