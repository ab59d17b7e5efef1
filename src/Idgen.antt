-- ===== src/Idgen.antt =====
-- common/idgen/snowflake.go.
pub mod Snowflake
