-- ===== src/Common.antt =====
-- Package common: the types of the webhook protocol (common/messages.go, common/metrics.go,
-- common/config_schema.go, common/request_schema.go).
pub mod Value
pub mod Schema
pub mod Messages
pub mod DataTypes
