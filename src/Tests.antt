-- ===== src/Tests.antt =====
-- Runs at fixed inputs, and one witness for each theorem that has conditions.
mod World
mod Package
mod Runs
mod Starting
mod Consuming
mod Conditions
mod Unpacking
mod Listings
mod Reading
mod Installing
