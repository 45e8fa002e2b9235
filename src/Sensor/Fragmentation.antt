-- ===== src/Sensor/Fragmentation.antt =====
-- internal/sensor/fragmentation.go: the entropy of the free pages by order, and the preemptive
-- compaction. The content of /proc/buddyinfo and the success of the write that compacts are
-- arguments.
pub mod Compaction
pub mod Headroom
use hosa.Prelude.{
  ℕ, zero, suc, ◌+◌, ◌*◌, ◌/◌, ◌%◌, ◌^◌, Bool, true, false, ◌&&◌, ◌||◌, Option, none, some, List,
  [], ◌∷◌, ◌++◌, Bytes, codes, bytes_eq, is_empty, ltb, leb, ◌==◌, if◌then◌else◌, length, drop, not,
}
use hosa.Prelude.Int.{ℤ}
use hosa.Float.{Float, ◌<?◌, ◌≤?◌, ◌⊕◌, ◌⊖◌, ◌⊗◌, ◌⊘◌, lit, nought}
use hosa.Strings.{parse_uint, atoi, split, trim_space, cut, index_of, fields}

abbrev pub buddy_max_order : ℕ
buddy_max_order = 11

pub record FragState (F : Type 0) : Type 0 where
  pub h_frag_norm : F
  -- The map, the newest entry first.
  pub zone_entropies : List (Bytes × F)
  pub largest_free_order_normal : ℕ
  pub total_free_pages_mb : F

-- The counts of a zone are eleven.
pub record BuddyZone : Type 0 where
  pub node : ℤ
  pub zone : Bytes
  pub counts : List ℕ

pub record FragConfig (F : Type 0) : Type 0 where
  pub threshold : F
  pub cpu_trough_threshold : F

pub record FragmentationMonitor (F : Type 0) : Type 0 where
  pub cfg : FragConfig F
  pub compactions : ℕ

-- The loop over the eleven fields behind the name of the zone.
unfoldable pub parse_counts : ℕ → List Bytes → Option (List ℕ)
parse_counts zero fs = some []
parse_counts (suc n) [] = none
parse_counts (suc n) (f ∷ fs) = do c ← parse_uint f; cs ← parse_counts n fs; some (c ∷ cs)
  where
    infixl 5 ◌>>=◌
    ◌>>=◌ : {A B : Type 0} → Option A → (A → Option B) → Option B
    none >>= f = none
    some a >>= f = f a

abbrev pub zone_of : Option ℤ → List Bytes → Option BuddyZone
unfolding parse_counts
zone_of none fs = none
zone_of (some node) [] = none
zone_of (some node) (name ∷ fs) = elim (parse_counts buddy_max_order fs) [
  | none ↦ none
  | some counts ↦ some (record { node = node; zone = name; counts = counts })
]

abbrev pub node_of : Option (Bytes × Bytes) → Option ℤ
node_of none = none
node_of (some (digits, rest)) = atoi (trim_space digits)

abbrev pub parse_at : Bytes → Option ℕ → Option ℕ → Option BuddyZone
parse_at line (some node_idx) (some zone_idx) =
    if leb zone_idx node_idx
    then none
    else (let fs = fields (trim_space (drop (zone_idx + 5) line)) in
        if ltb (length fs) (buddy_max_order + 1)
        then none
        else zone_of (node_of (cut b',' (drop (node_idx + 5) line))) fs)
parse_at line _ _ = none

-- An error is `none`.
unfoldable pub parse_buddy_line : Bytes → Option BuddyZone
parse_buddy_line line =
    parse_at line (index_of (codes "Node ") line) (index_of (codes "zone ") line)

abbrev pub cons_zone : Option BuddyZone → List BuddyZone → List BuddyZone
cons_zone none zs = zs
cons_zone (some z) zs = z ∷ zs

-- Empty and malformed lines are skipped.
unfoldable pub parse_zones : List Bytes → List BuddyZone
unfolding parse_buddy_line
parse_zones [] = []
parse_zones (line ∷ lines) =
    let rest = parse_zones lines in
    let l = trim_space line in if is_empty l then rest else cons_zone (parse_buddy_line l) rest

abbrev pub some_zones : List BuddyZone → Option (List BuddyZone)
some_zones [] = none
some_zones (z ∷ zs) = some (z ∷ zs)

unfoldable pub read_buddy_info : Option Bytes → Option (List BuddyZone)
unfolding parse_zones
read_buddy_info none = none
read_buddy_info (some text) = some_zones (parse_zones (split b'\n' text))

-- The pages of the orders from `o` on, added in uint64.
unfoldable pub total_pages : ℕ → List ℕ → ℕ → ℕ
total_pages o [] total = total
total_pages o (c ∷ cs) total = total_pages (suc o) cs ((total + c * 2 ^ o) % 2 ^ 64)

-- The order found above, or this one if its count is not 0.
abbrev pub or_here : Option ℕ → ℕ → ℕ → Option ℕ
or_here (some k) c o = some k
or_here none c o = if ltb 0 c then some o else none

-- The highest order with a free page.
unfoldable pub largest_order : ℕ → List ℕ → Option ℕ
largest_order o [] = none
largest_order o (c ∷ cs) = or_here (largest_order (suc o) cs) c o

abbrev pub raise_order : ℕ → Option ℕ → ℕ
raise_order old none = old
raise_order old (some o) = if ltb old o then o else old

-- The sums of the loop of `computeFragState`.
pub record FragSums (F : Type 0) : Type 0 where
  pub entropies : List (Bytes × F)
  pub free_mb : F
  pub weighted : F
  pub pages : ℕ
  pub largest : ℕ

-- What `Sample` returns, with the monitor; no state is an error.
pub record Sampled (F : Type 0) : Type 0 where
  pub monitor : FragmentationMonitor F
  pub state : Option (FragState F)
  pub triggered : Bool

module _ {F : Type 0} ⦃fl : Float F⦄ where
  unfoldable pub new_fragmentation_monitor : FragConfig F → FragmentationMonitor F
  new_fragmentation_monitor cfg =
      let threshold = if cfg.threshold ≤? nought then lit 78 2 else cfg.threshold in
      record { cfg = record cfg { threshold = threshold }; compactions = 0 }

  abbrev pub h_frag_max : F
  h_frag_max = lit 34594 4

  unfoldable pub entropy_from : ℕ → List ℕ → F → F → F
  entropy_from o [] f_total h = h
  entropy_from o (c ∷ cs) f_total h =
      let p = fl.of_ℕ c ⊗ fl.of_ℕ (2 ^ o) ⊘ f_total in
      entropy_from (suc o) cs f_total (if c == 0 then h else h ⊖ p ⊗ fl.log2 p)

  unfoldable pub zone_entropy : List ℕ → F × ℕ
  unfolding total_pages entropy_from
  zone_entropy counts =
      let total = total_pages 0 counts 0 in
      if total == 0 then (nought, 0) else (entropy_from 0 counts (fl.of_ℕ total) nought, total)

  unfoldable pub add_zone : FragSums F → BuddyZone → FragSums F
  unfolding zone_entropy largest_order
  add_zone s z =
      let (h, total) = zone_entropy z.counts in
      record {
        entropies = (z.zone, h ⊘ h_frag_max) ∷ s.entropies;
        free_mb = s.free_mb ⊕ fl.of_ℕ total ⊗ fl.of_ℕ 4096 ⊘ fl.of_ℕ (2 ^ 20);
        weighted = s.weighted ⊕ h ⊗ fl.of_ℕ total;
        pages = (s.pages + total) % 2 ^ 64;
        largest =
            if bytes_eq z.zone (codes "Normal")
            then raise_order s.largest (largest_order 0 z.counts)
            else s.largest;
      }

  unfoldable pub add_zones : FragSums F → List BuddyZone → FragSums F
  unfolding add_zone
  add_zones s [] = s
  add_zones s (z ∷ zs) = add_zones (add_zone s z) zs

  unfoldable pub compute_frag_state : List BuddyZone → FragState F
  unfolding add_zones
  compute_frag_state zones =
      let s =
        add_zones
          (record { entropies = []; free_mb = nought; weighted = nought; pages = 0; largest = 0 })
          zones in
      record {
        h_frag_norm = if ltb 0 s.pages then s.weighted ⊘ fl.of_ℕ s.pages ⊘ h_frag_max else nought;
        zone_entropies = s.entropies;
        largest_free_order_normal = s.largest;
        total_free_pages_mb = s.free_mb;
      }

  abbrev pub sampled : FragmentationMonitor F → F → Bool → Option (List BuddyZone) → Sampled F
  unfolding compute_frag_state
  sampled fm cpu_queue_rate compacts none = record { monitor = fm; state = none; triggered = false }
  sampled fm cpu_queue_rate compacts (some zones) =
      let state = compute_frag_state zones in
      if (fm.cfg.threshold <? state.h_frag_norm)
        && (cpu_queue_rate ≤? fm.cfg.cpu_trough_threshold)
        && compacts
      then record {
        monitor = record fm { compactions = (fm.compactions + 1) % 2 ^ 64 };
        state = some state;
        triggered = true;
      }
      else record { monitor = fm; state = some state; triggered = false }

  unfoldable pub sample : FragmentationMonitor F → F → Option Bytes → Bool → Sampled F
  unfolding sampled read_buddy_info
  sample fm cpu_queue_rate buddy_info compacts =
      sampled fm cpu_queue_rate compacts (read_buddy_info buddy_info)
