-- ===== src/Sensor/Hypervisor.antt =====
-- `detectVM` of internal/sensor/proprioception.go.
use hosa.Prelude.{
  ◌+◌, Bool, false, ◌&&◌, ◌||◌, not, Option, none, some, List, [], ◌∷◌, map, Bytes, codes, bytes_eq,
  is_empty, leb, if◌then◌else◌,
}
use hosa.Strings.{trim_space, split, has_prefix}
use hosa.Sensor.Discovery.{Machine, contains}

-- strings.ToLower, of ASCII letters.
abbrev pub to_lower : Bytes → Bytes
to_lower = map (λ c. if leb b'A' c && leb c b'Z' then c + 32 else c)

unfoldable pub vendor_of : List Bytes → Bytes
vendor_of [] = codes "unknown"
vendor_of (line ∷ lines) =
    let rest = vendor_of lines in
    if not (has_prefix line (codes "vendor_id"))
    then rest
    else if contains (codes "KVMKVMKVM") line
    then codes "KVM"
    else if contains (codes "Microsoft Hv") line
    then codes "Hyper-V"
    else if contains (codes "VMwareVMware") line
    then codes "VMware"
    else rest

abbrev pub vm_keywords : List Bytes
vm_keywords =
    codes "vmware"
    ∷ codes "virtualbox"
    ∷ codes "kvm"
    ∷ codes "qemu"
    ∷ codes "xen"
    ∷ codes "microsoft"
    ∷ codes "amazon"
    ∷ codes "google"
    ∷ []

abbrev pub contains_any : List Bytes → Bytes → Bool
contains_any [] s = false
contains_any (kw ∷ kws) s = contains kw s || contains_any kws s

unfoldable pub dmi_vendor : List (Option Bytes) → Option Bytes
dmi_vendor [] = none
dmi_vendor (none ∷ fs) = dmi_vendor fs
dmi_vendor (some text ∷ fs) =
    let rest = dmi_vendor fs in
    let s = trim_space text in if contains_any vm_keywords (to_lower s) then some s else rest

abbrev pub hypervisor : Option Bytes → Option Bytes
hypervisor none = none
hypervisor (some text) =
    let vendor = trim_space text in
    if not (is_empty vendor) && not (bytes_eq vendor (codes "none")) then some vendor else none

unfoldable pub cpuinfo_vendor : Option Bytes → Option Bytes
unfolding vendor_of
cpuinfo_vendor none = none
cpuinfo_vendor (some text) =
    if contains (codes "hypervisor") text then some (vendor_of (split b'\n' text)) else none

-- `detectVM`; bare metal is `none`.
unfoldable pub detect_vm : Machine → Option Bytes
unfolding cpuinfo_vendor dmi_vendor
detect_vm m = elim (hypervisor m.hypervisor_type) [
  | some vendor ↦ some vendor
  | none ↦ elim (cpuinfo_vendor m.cpuinfo) [ some vendor ↦ some vendor | none ↦ dmi_vendor m.dmi ]
]
