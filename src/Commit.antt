-- ===== src/Commit.antt =====
-- manager/pkg/statussyncer/transport2db/transport: the two committers.
pub mod Kafka
pub mod SyncService
