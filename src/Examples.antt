-- ===== src/Examples.antt =====
-- Concrete runs: every theorem with hypotheses, at data of the kind that the gateway handles.
mod Wire
mod Streams
mod Requests
mod Local
mod Service
mod Updates
mod Uploads
mod Sessions
mod Publishing
