-- ===== src/Lib.antt =====
-- HOSA, an agent that senses one Linux host, measures how far it is from its usual state, and answers
-- by limiting cgroups. This library models the Go code of the agent and states what it does.
--
-- The parts, and where they are modelled. One round of the loop of cmd/hosa/main.go reads four
-- metrics, inserts them into a ring buffer, hands a snapshot of it to the cortex, and passes the level
-- that the cortex reports to the log filter, the memory motor, the survival motor, the telemetry state
-- and the webhook.
--   * Prelude, Outcome, Float, Strings: numbers, lists and bytes; results of functions that return an
--     error or panic, and loops over them; float64; the functions of strings, strconv and path/filepath.
--   * Linalg (internal/linalg): `Get` and `Set` are `get` and `put`, an index beyond the slice panics.
--     Linalg.Inverse is `Inverse`.
--   * State (internal/state/memory.go): `Insert`, `Snapshot`, `IsReady`. State.Stream feeds a buffer
--     with a stream of readings.
--   * Brain.Welford, Brain.Mahalanobis, Brain.Cortex (internal/brain/welford.go, mahalanobis.go,
--     predictor.go): `Update`, `CalculateStress`, `Analyze`, `classify`. `classify` is `candidate_level`,
--     what a reading asks for, and `settle`, the hysteresis. Brain.Welford.Cells reads `Update` cell by
--     cell, and Brain.Welford.Exact and Batch are about arithmetic without rounding.
--   * Brain.Thalamus (internal/brain/thalamic_filter.go): `Observe` and `NotifyContainment` return the
--     events that the code hands to its handler.
--   * Syscgroup (internal/syscgroup/file_edit.go): the control files, as the list of accepted writes.
--     Which writes the kernel accepts is a function that the theorems quantify over, and two paths
--     that `filepath.Join` cleans to the same one are the same cgroup. Syscgroup.Reads
--     is `CgroupPath`, `ReadControl`, `GetMemoryCurrent` and `EnsureHosaCgroup`.
--   * Motor.Cgroups, Motor.Cpuset, Motor.Survival (internal/motor): `Apply`, the text of a CPU set and
--     the control files of phase 2, `Engage` and `Release`. What `loadSchedExt` does where `Engage` calls
--     it, a panic included, is an argument, and a panic goes on through `react` to the round. Motor.Vital is `EnsureVitalCgroup`.
--   * Sensor.CpuList, Sensor.Discovery, Sensor.Hypervisor, Sensor.CacheGroups
--     (internal/sensor/proprioception.go): the parsers of CPU lists, and `DiscoverTopology` over what
--     the files of /proc and /sys hold. `none` is a call of `parseCPUList` that never returns.
--   * Sensor.Fragmentation (internal/sensor/fragmentation.go): /proc/buddyinfo, the entropy, `Sample`.
--   * Sensor.Collector (internal/sensor/collector.go): `Start`, `ReadMetrics` and `Close`, over the
--     descriptors that were opened and closed.
--   * Sysbpf (internal/sysbpf): Sysbpf.Elf and its children are `parseELF` of loader.go, Sysbpf.Relocate
--     is `RelocateInsns`, Sysbpf.Btf is the search in BTF of struct_ops.go, Sysbpf.Kernel the wrappers
--     of bpf(2) in syscall.go and struct_ops.go. Sysbpf.Kernel.Accounts counts descriptors.
--   * Motor.SchedExt (internal/motor/survival.go): `loadSchedExt`. Motor.SchedExt.Episode is `Engage` with
--     the load that it calls, and `Release` with the close of the link.
--   * Config (internal/config): the defaults, the TOML parser, `Load`, `LoadWithFlags`, `Validate`,
--     `Summary`. Sensor.Summary is `Topology.String`.
--   * Telemetry (internal/telemetry): the snapshot, /healthz and the webhook. Telemetry.Server is the
--     text of /metrics and the choice of a handler by the path.
--   * Agent (cmd/hosa/main.go): Agent.Wiring is the literals that `main` builds, Agent.React is `react`
--     and the shutdown, Agent.Loop is a round, Agent.Meminfo is `readMemTotal`.
--   * The modules named Safety state that no index is out of range, with the rules of Outcome.Safe.
--   * Tests: concrete inputs.
--
-- Conventions. float64 is a type with the operations of the code (Float); theorems about its order
-- take the laws of IEEE 754, NaN included, as a hypothesis (`IsOrdered`), which Float.Fixed satisfies
-- with fixed-point numbers and a NaN. Where a theorem is about sums without rounding, its hypothesis
-- is the laws of a field (`IsExact`), which Tests.Residue satisfies with the numbers modulo 7. `int` is a
-- natural number where the code never makes it negative and an integer otherwise; uint64 sums keep their remainder by 2^64. Strings are lists of
-- bytes. The clock, files that are read and outcomes of system calls are arguments. The text of an
-- error is left out.
--
-- A slice of a file has a capacity, which may pass its end, since a slice expression may reach into
-- it. What the kernel answers to a call is a function of how many calls came before, and for a lookup
-- of its map and its key. A Go map is
-- a list with one entry for each key, in an order that the theorems do not rely on.
--
-- Fuel. The decimal printer of Strings (`emit`), the search in BTF and two functions of Float.Fixed run
-- on fuel. The printer of n has fuel n + 1 and divides n by ten in each round, so the fuel is enough.
-- The search has one round for each byte of the section and one more, and moves by 12 bytes or more
-- in a round. All other loops are structural, or count up to a bound that is known when they start; the
-- one loop of the code that may never end, over a range of CPUs up to the largest `int`, is written out
-- as such.
--
-- Not modelled: the C programs of internal/bpf, which run in the kernel; the layout of the attributes
-- of bpf(2); the listener of the HTTP server and the encoding as JSON; the start-up of `main` and its fatal exits;
-- locks, since each shared object has one writer; the white space of Unicode beyond ASCII, which
-- `TrimSpace` and `Fields` also know.
pub mod Prelude
pub mod Float
pub mod Outcome
pub mod Linalg
pub mod State
pub mod Brain
pub mod Strings
pub mod Sysbpf
pub mod Sensor
pub mod Syscgroup
pub mod Motor
pub mod Config
pub mod Telemetry
pub mod Agent
pub mod Tests
