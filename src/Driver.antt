-- ===== src/Driver.antt =====
-- pkg/driver: the driver behind the kubelet's two calls (driver.go), and what it publishes
-- (publisher.go).
pub mod Codec
pub mod Claim
pub mod Store
pub mod Server
pub mod Publisher
