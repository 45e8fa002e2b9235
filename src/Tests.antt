-- ===== src/Tests.antt =====
-- Concrete inputs: the theorems applied to them, and runs of the definitions.
mod Data
mod Residue
mod ElfFiles
mod SysbpfTests
mod KernelTests
mod BrainTests
mod StateTests
mod MotorTests
mod ConfigTests
mod SensorTests
mod AgentTests
