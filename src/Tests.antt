-- ===== src/Tests.antt =====
-- Concrete instances of what is not part of this repository, and the theorems at concrete inputs.
mod Toy
mod Components
mod Sessions
mod Printing
mod Setups
mod Clients
mod Daemons
mod Files
mod Loops
mod Messages
mod Paths
mod Texts
mod Writers
