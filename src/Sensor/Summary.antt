-- ===== src/Sensor/Summary.antt =====
-- internal/sensor/proprioception.go: `Topology.String`. The text of the gigabytes, with `%.1f` of
-- package fmt, is an argument.
use hosa.Prelude.{◌/◌, ◌^◌, Bytes, codes, ◌∷◌, ◌++◌, length, if◌then◌else◌}
use hosa.Strings.{format_int, format_uint}
use hosa.Float.{Float, ◌⊘◌}
use hosa.Sensor.Topology.{Topology}

abbrev environment_text : Topology → Bytes
environment_text t =
    if t.is_vm then codes "VM (" ++ t.hypervisor_vendor ++ codes ")" else codes "bare metal"

module _ {F : Type 0} ⦃fl : Float F⦄ (one_decimal : F → Bytes) where
  unfoldable pub topology_text : Topology → Bytes
  unfolding format_int format_uint
  topology_text t =
      codes "cores="
      ++ format_int t.physical_cores
      ++ codes "/"
      ++ format_int t.logical_cores
      ++ codes "(f"
      ++ (195 ∷ 173 ∷ codes "sico/l")
      ++ (195 ∷ 179 ∷ codes "gico) NUMA=")
      ++ format_int t.numa_nodes
      ++ codes " mem="
      ++ one_decimal (fl.of_ℕ t.memory_total_bytes ⊘ fl.of_ℕ (2 ^ 30))
      ++ codes "GB L3="
      ++ format_uint (t.cache_size_l3_bytes / 2 ^ 20)
      ++ codes "MB l3_groups="
      ++ format_uint (length t.cache_groups)
      ++ codes " env="
      ++ environment_text t
