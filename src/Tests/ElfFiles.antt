-- ===== src/Tests/ElfFiles.antt =====
-- Object files and a BTF blob for the tests of internal/sysbpf.
use hosa.Prelude.{ℕ, ◌+◌, List, [], ◌∷◌, ◌++◌, Bytes, codes, length, replicate}
use hosa.Sysbpf.Words.{to_little}
use hosa.Sysbpf.Btf.Search.{BtfType, int, struct, encode_all}

-- The bytes of a section, its name, its type, its link and its info.
pub record Section : Type 0 where
  pub name_off : ℕ
  pub sh_type : ℕ
  pub link : ℕ
  pub info : ℕ
  pub bytes : Bytes

abbrev contents : List Section → Bytes
contents [] = []
contents (s ∷ ss) = s.bytes ++ contents ss

abbrev header_of : Section → ℕ → Bytes
header_of s offset =
    to_little 4 s.name_off
    ++ (to_little 4 s.sh_type
        ++ (replicate 16 0
            ++ (to_little 8 offset
                ++ (to_little 8 (length s.bytes)
                    ++ (to_little 4 s.link ++ (to_little 4 s.info ++ replicate 16 0))))))

abbrev headers : List Section → ℕ → Bytes
headers [] offset = []
headers (s ∷ ss) offset = header_of s offset ++ headers ss (offset + length s.bytes)

-- A file with its sections behind the header of 64 bytes, and their headers at the end.
abbrev pub elf_file : ℕ → List Section → Bytes
elf_file names ss =
    (0x7f ∷ codes "ELF")
    ++ ((2 ∷ 1 ∷ replicate 34 0)
        ++ (to_little 8 (64 + length (contents ss))
            ++ (replicate 10 0
                ++ (to_little 2 64
                    ++ (to_little 2 (length ss)
                        ++ (to_little 2 names ++ (contents ss ++ headers ss 64)))))))

abbrev pub exit_insns : Bytes
exit_insns = 0xb7 ∷ replicate 7 0 ++ (0x95 ∷ replicate 7 0)

-- A load of 64 bits, whose two instructions refer to a map, and an exit.
abbrev pub map_insns : Bytes
map_insns = 0x18 ∷ 0x01 ∷ replicate 14 0 ++ (0x95 ∷ replicate 7 0)

abbrev section : ℕ → ℕ → ℕ → ℕ → Bytes → Section
section name_off sh_type link info bytes = record {
  name_off = name_off;
  sh_type = sh_type;
  link = link;
  info = info;
  bytes = bytes;
}

abbrev sensor_names : Bytes
sensor_names =
    0 ∷ codes "tracepoint/sched/sched_wakeup"
    ++ (0 ∷ codes "maps" ++ (0 ∷ codes "hosa_metrics" ++ (0 ∷ [])))

-- One probe, with a map and the relocation of its first instruction.
abbrev pub sensors_file : Bytes
sensors_file = elf_file 1 (
    section 0 0 0 0 []
    ∷ section 0 3 0 0 sensor_names
    ∷ section 1 1 0 0 map_insns
    ∷ section 31 1 0 0
        (to_little 4 2 ++ (to_little 4 4 ++ (to_little 4 8 ++ (to_little 4 4 ++ replicate 4 0))))
    ∷ section 0 2 1 0 (replicate 24 0 ++ (to_little 4 36 ++ replicate 20 0))
    ∷ section 0 9 4 2 (to_little 8 0 ++ (to_little 4 1 ++ to_little 4 1))
    ∷ [])

abbrev scheduler_names : Bytes
scheduler_names = 0 ∷ codes "struct_ops/init" ++ (0 ∷ codes "struct_ops/exit" ++ (0 ∷ []))

-- Two programs of struct_ops.
abbrev pub scheduler_file : Bytes
scheduler_file = elf_file 1 (
    section 0 0 0 0 []
    ∷ section 0 3 0 0 scheduler_names
    ∷ section 1 1 0 0 exit_insns
    ∷ section 17 1 0 0 exit_insns
    ∷ [])

abbrev pub btf_strings : Bytes
btf_strings = 0 ∷ codes "int" ++ (0 ∷ codes "sched_ext_ops" ++ (0 ∷ []))

abbrev pub btf_types : List BtfType
btf_types =
    record { name_off = 1; kind = int; vlen = 0; size_or_type = 4; extra = replicate 4 0 }
    ∷ record { name_off = 5; kind = struct; vlen = 1; size_or_type = 8; extra = replicate 12 0 }
    ∷ []

abbrev pub btf_file : Bytes
btf_file =
    0x9f ∷ 0xeb ∷ 1 ∷ 0 ∷ to_little 4 24
    ++ (to_little 4 0
        ++ (to_little 4 (length (encode_all btf_types))
            ++ (to_little 4 (length (encode_all btf_types))
                ++ (to_little 4 (length btf_strings) ++ (encode_all btf_types ++ btf_strings)))))
