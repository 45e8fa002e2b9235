-- ===== src/Sensor.antt =====
-- internal/sensor: what the agent reads of the machine.
pub mod CpuList
pub mod Topology
pub mod Collector
pub mod Fragmentation
pub mod Discovery
pub mod Summary
pub mod Hypervisor
pub mod CacheGroups
