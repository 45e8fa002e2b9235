-- ===== src/Sensor/Topology.antt =====
-- The hardware topology of internal/sensor/proprioception.go.
use hosa.Prelude.{ℕ, Bool, List, Bytes}
use hosa.Prelude.Int.{ℤ}

pub record Topology : Type 0 where
  pub physical_cores : ℤ
  pub logical_cores : ℤ
  pub numa_nodes : ℤ
  pub memory_total_bytes : ℕ
  pub cache_size_l3_bytes : ℕ
  pub is_vm : Bool
  pub hypervisor_vendor : Bytes
  pub cache_groups : List (List ℕ)
