-- ===== src/Record.antt =====
-- crates/gems-cluster/src/record.rs: the unit of replication.
use gems.Prelude.{ℕ, List}
use gems.Catalog.Header.{EntityHeader, Tuid}

pub data LogRecord : Type 0 where
  insert : EntityHeader → List ℕ → LogRecord
  delete : Tuid → LogRecord
