-- ===== src/Tests.antt =====
-- Runs of the model on small inputs: each applies a theorem where its conditions hold.
mod Transactions
mod Rows
mod Locks
mod Tokens
mod Queries
mod Indexes
mod Stores
