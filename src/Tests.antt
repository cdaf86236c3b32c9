-- ===== src/Tests.antt =====
-- Concrete data, runs of the definitions on it, and the theorems applied to it.
mod Toy
mod Chain
mod Mount
mod Tokens
mod Serving
mod Approvals
mod Cards
mod Surface
mod Identity
mod Discovery
mod Schemas
mod Rows
