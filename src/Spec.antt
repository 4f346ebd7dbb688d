-- ===== src/Spec.antt =====
-- manager/pkg/specsyncer/db2transport: what decides how often specs are read from the database.
pub mod IntervalPolicy
