-- ===== src/Clients.antt =====
-- clients/clients.go and clients/rand.go: the table of clients. The lock makes each method one step.
-- The clock and the random numbers are arguments: `now` is what the clock shows, and `draws` lists
-- what `randUint64` will return.
pub mod Client
pub mod Table
pub mod Invariant
pub mod Preserve
pub mod History
pub mod Refusals
pub mod Expiry
pub mod Leases
pub mod Handshake
