-- ===== src/Tests.antt =====
-- The theorems and the definitions at concrete inputs, among them those of the unit tests in src/.
mod Instances
mod Bucket
mod Protocol
mod Stream
mod Requests
mod Task
mod Discovery
mod Loop
mod Catalog
mod Whole
mod Program
mod Recovery
mod Gone
mod Agent
mod Live
mod Order
