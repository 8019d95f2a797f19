-- ===== src/Tests.antt =====
-- Runs on concrete inputs, and each theorem at an input where its hypotheses hold.
mod Tenths
mod Lru
mod LruPool
mod Region
mod Merge
mod Cache
mod Writes
mod Search
mod InsertPool
mod DeletePool
mod SearchPool
mod Recall
mod Calls
mod Rotation
mod GlobalTheta
