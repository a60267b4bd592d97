-- ===== src/Tests.antt =====
-- Small inputs: runs of the operations, and the theorems applied to them.
mod Assembler
mod PmtHeld
mod Runs
mod Slots
mod Streams
mod Avc
mod Cases
mod Sections
mod Queues
mod Packets
mod Delivery
mod Frames
mod Collector
