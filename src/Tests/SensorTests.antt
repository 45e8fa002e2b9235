-- ===== src/Tests/SensorTests.antt =====
-- internal/sensor and internal/telemetry on concrete inputs.
use hosa.Prelude.{
  ℕ, suc, ◌+◌, ◌/◌, ◌%◌, ◌++◌, ◌≤◌, ◌≡◌, refl, none, some, ◌⊎◌, List, [], ◌∷◌, codes, arith, length,
}
use hosa.Prelude.Int.{pos, negsuc}
use hosa.Float.Fixed.{Fixed, nan, fixed, fixed_float}
use hosa.Strings.{split, contains_byte, trim_space, cut, atoi, format_uint}
use hosa.Strings.Decimal.{format_uint-AllDigits}
use hosa.Strings.Parts.{Lacks, Lacks-append, digits-Lacks}
use hosa.Sensor.CpuList.{parse_cpu_list}
use hosa.Prelude.{Bytes}
use hosa.Strings.{has_prefix}
use hosa.Sensor.Discovery.{CpuEntry}
use hosa.Sensor.CacheGroups.{list_of}
use hosa.Sensor.Fragmentation.{BuddyZone, compute_frag_state}
use hosa.Sensor.Fragmentation.Headroom.{
  AllEmptyAbove, HasFree, normal_counts, largest_free_order_lem,
}
use hosa.Telemetry.{Snapshot, WebhookClient, notify}
use hosa.Telemetry.Webhook.{notify_all, notify_all_le}
use hosa.Telemetry.Server.{serve}
use hosa.Telemetry.Server.Exposition.{scraped, families, scraped-serve}
use hosa.Tests.Data.{tenths}

listed : parse_cpu_list (codes "0-3, 8") ≡ some (0 ∷ 1 ∷ 2 ∷ 3 ∷ 8 ∷ [])
unfolding parse_cpu_list split contains_byte trim_space cut atoi
listed = refl

-- Two zones Normal, whose largest free orders are 2 and 1, and one of another name.
abbrev zones : List BuddyZone
zones =
    record {
      node = pos 0;
      zone = codes "DMA";
      counts = 1 ∷ 1 ∷ 1 ∷ 1 ∷ 1 ∷ 0 ∷ 0 ∷ 0 ∷ 0 ∷ 0 ∷ 0 ∷ [];
    }
    ∷ record {
      node = pos 0;
      zone = codes "Normal";
      counts = 9 ∷ 0 ∷ 2 ∷ 0 ∷ 0 ∷ 0 ∷ 0 ∷ 0 ∷ 0 ∷ 0 ∷ 0 ∷ [];
    }
    ∷ record {
      node = pos 1;
      zone = codes "Normal";
      counts = 4 ∷ 2 ∷ 0 ∷ 0 ∷ 0 ∷ 0 ∷ 0 ∷ 0 ∷ 0 ∷ 0 ∷ 0 ∷ [];
    }
    ∷ []

largest_free_order_lem_example :
    let k = (compute_frag_state {F = Fixed} zones).largest_free_order_normal in
    AllEmptyAbove k (normal_counts zones) × ((k ≡ 0) ⊎ HasFree k (normal_counts zones))
largest_free_order_lem_example = largest_free_order_lem Fixed zones

abbrev client : WebhookClient Fixed
client = record { url = codes "http://hook"; threshold = tenths 10; last_level = negsuc 0 }

abbrev rising : ℕ → Snapshot Fixed
rising level = record {
  dm = tenths 60;
  dm_dot = tenths 20;
  level = level;
  h_frag_norm = tenths 0;
  state_vec = [];
  updated_at = none;
}

-- The second escalation to containment is not notified.
abbrev twice : List (Snapshot Fixed)
twice = rising 2 ∷ rising 0 ∷ rising 2 ∷ rising 3 ∷ []

notified_once : notify_all client twice ≡ 2 ∷ 3 ∷ []
unfolding notify_all notify
notified_once = refl

notify_all_le_example : length (notify_all client twice) ≤ 5
notify_all_le_example =
    notify_all_le client twice refl (omega arith, (omega arith, (omega arith, (omega arith, tt))))

abbrev cpu_sharing : Bytes → Bytes → CpuEntry
cpu_sharing name cpus = record {
  name = name;
  core_id = none;
  physical_package_id = none;
  cache = some (
      record {
        name = codes "index3";
        level = some (codes "3");
        size = none;
        shared_cpu_list = some cpus;
      }
      ∷ []);
}

abbrev cpu0 : CpuEntry
cpu0 = cpu_sharing (codes "cpu0") (codes "0-1")

cpu0_list : list_of cpu0 ≡ some (codes "0-1")
unfolding list_of has_prefix atoi trim_space
cpu0_list = refl

-- `%.4f` of a number in units of 1/10000.
abbrev four_digits : ℕ → Bytes
four_digits n = (48 + n / 1000 % 10) ∷ (48 + n / 100 % 10) ∷ (48 + n / 10 % 10) ∷ (48 + n % 10) ∷ []

abbrev fixed_text : Fixed → Bytes
fixed_text nan = codes "NaN"
fixed_text (fixed (pos n)) = format_uint (n / 10000) ++ b'.' ∷ four_digits n
fixed_text (fixed (negsuc n)) = b'-' ∷ (format_uint (suc n / 10000) ++ b'.' ∷ four_digits (suc n))

number_plain : (n : ℕ) → Lacks b'\n' (format_uint (n / 10000) ++ b'.' ∷ four_digits n)
number_plain n =
    Lacks-append b'\n' (format_uint (n / 10000)) (b'.' ∷ four_digits n)
      (digits-Lacks b'\n' (format_uint (n / 10000)) (omega arith)
        (format_uint-AllDigits (n / 10000)))
      (ground arith)

fixed_text_plain : (x : Fixed) → Lacks b'\n' (fixed_text x)
fixed_text_plain nan = ground arith
fixed_text_plain (fixed (pos n)) = number_plain n
fixed_text_plain (fixed (negsuc n)) = (ground arith, number_plain (suc n))

scraped-serve_example :
    scraped (serve fixed_text (codes "/metrics") (rising 2) 0)
    ≡ some (families fixed_text (rising 2))
scraped-serve_example = scraped-serve fixed_text fixed_text_plain (rising 2) 0
