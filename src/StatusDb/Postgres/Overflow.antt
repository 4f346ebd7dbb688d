-- ===== src/StatusDb/Postgres/Overflow.antt =====
-- postgresql.go: a batch with a statement that lacks arguments is refused.
use multicluster_global_hub.Base.{string_key, nat_key}
