-- ===== src/Motor.antt =====
-- internal/motor: the actuators.
pub mod Cpuset
pub mod Cgroups
pub mod Survival
pub mod Vital
pub mod SchedExt
