-- ===== src/Tests.antt =====
-- The development at concrete inputs.
mod Host
mod Gate
mod Owner
mod Approvals
mod Streams
mod Mailing
mod Exports
mod Chain
mod Keys
mod Rules
mod Counters
mod Home
mod Serving
mod Posting
