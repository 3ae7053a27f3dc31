-- ===== src/Completeness/Reported.antt =====
-- crates/stroma-core/src/completeness.rs, `evaluate`: which nodes are reported, and with what.
use stromadb.Base.Tests.{◌>>=◌}
use stromadb.Base.Order.{nat_ord}
use stromadb.Catalog.{Catalog}
