-- ===== src/Tests.antt =====
-- Concrete values, and the theorems at them.
mod Heap
mod Values
mod Scheduling
mod Storing
mod Delivering
mod Pausing
mod Draining
mod Pruning
mod Requests
mod Settings
mod Gateway
mod Listing
mod Posting
