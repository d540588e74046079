-- ===== src/Catalog/Bodies.antt =====
-- The bodies of the schema and auxiliary entities (crates/gems-catalog).
pub mod EntityAttribute
pub mod EntityType
pub mod Layer
pub mod Link
pub mod Subject
pub mod RoundTrip
