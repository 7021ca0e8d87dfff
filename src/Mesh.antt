-- ===== src/Mesh.antt =====
-- src/mesh.rs: the exchange of events between stores.
pub mod Import
pub mod Loop
pub mod Convergence
