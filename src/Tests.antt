-- ===== src/Tests.antt =====
-- Concrete runs: a registry of two keys, a store inside a scope, a codec, and the theorems at them.
mod Fixtures
mod Codec
mod Stores
mod Registries
mod Transfers
mod Relays
mod Actors
mod Journeys
mod Threads
mod Reentry
mod Typing
mod Locks
mod Programs
