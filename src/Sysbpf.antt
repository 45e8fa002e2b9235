-- ===== src/Sysbpf.antt =====
-- internal/sysbpf: the loader of eBPF objects and the wrapper of bpf(2).
pub mod Words
pub mod Dict
pub mod Relocate
pub mod Elf
pub mod Btf
pub mod Kernel
