-- ===== src/Tests.antt =====
-- Runs of the code on small inputs.
pub mod World
pub mod Sealing
pub mod Audits
pub mod Certificates
pub mod Trees
pub mod Ttl
pub mod Lattice
pub mod Risks
pub mod Organ
pub mod Charity
pub mod Flash
pub mod Pinning
pub mod Deployment
pub mod Descent
pub mod Phases
