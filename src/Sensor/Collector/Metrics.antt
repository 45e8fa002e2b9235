-- ===== src/Sensor/Collector/Metrics.antt =====
-- internal/sensor/collector.go: the vector that `ReadMetrics` returns.
use hosa.Prelude.{ℕ, zero, suc, ◌≡◌, refl, ap, ◌∙◌, List, [], ◌∷◌, length}
use hosa.Prelude.Int.{ℤ, pos, negsuc}
use hosa.Float.{Float}
use hosa.Sysbpf.Relocate.{to_u32}
use hosa.Sysbpf.Kernel.{Environment, Bpf, Command, map_lookup, lookup_elem}
use hosa.Sensor.Collector.{Collector, num_vars, element, zeros, read_from, read_map, read_metrics}

module _ (F : Type 0) ⦃fl : Float F⦄ (env : Environment) where
  -- What the kernel answers to `n` lookups in a map, from the key `i`, the first after `m` calls.
  abbrev pub answers : ℕ → ℕ → ℕ → ℕ → List F
  answers fd zero i m = []
  answers fd (suc n) i m = element (env.elements m fd i) ∷ answers fd n (suc i) (suc m)

  -- The calls of `n` lookups in a map, from the key `i`, on top of those before.
  abbrev pub lookups : ℕ → ℕ → ℕ → List Command → List Command
  lookups fd zero i before = before
  lookups fd (suc n) i before = lookups fd n (suc i) (map_lookup fd i ∷ before)

  read_from_lem :
      (fd n i : ℕ) (k : Bpf)
      → let (k', vs) = read_from {F = F} env fd n i k in
        (vs ≡ answers fd n i k.calls)
        × (k'.issued ≡ lookups fd n i k.issued)
        × (k'.opened ≡ k.opened)
        × (k'.closed ≡ k.closed)
  unfolding read_from
  read_from_lem fd zero i k = (refl, refl, refl, refl)
  read_from_lem fd (suc n) i k =
      let (e, asked, o, d) = read_from_lem fd n (suc i) (lookup_elem env fd i k).0 in
      (ap (λ vs. element (env.elements k.calls fd i) ∷ vs) e, asked, o, d)

  -- The vector of a collector with a map, or without.
  abbrev pub expected : ℤ → ℕ → List F
  expected (pos zero) m = zeros num_vars
  expected (pos (suc n)) m = answers (to_u32 (pos (suc n))) num_vars 0 m
  expected (negsuc n) m = answers (to_u32 (negsuc n)) num_vars 0 m

  -- The calls of `ReadMetrics`, the newest first, on top of those before.
  abbrev pub asked : ℤ → List Command → List Command
  asked (pos zero) before = before
  asked (pos (suc n)) before = lookups (to_u32 (pos (suc n))) num_vars 0 before
  asked (negsuc n) before = lookups (to_u32 (negsuc n)) num_vars 0 before

  read_map_lem :
      (fd : ℤ) (k : Bpf)
      → let (k', vs) = read_map {F = F} env fd k in
        (vs ≡ expected fd k.calls)
        × (k'.issued ≡ asked fd k.issued)
        × (k'.opened ≡ k.opened)
        × (k'.closed ≡ k.closed)
  read_map_lem (pos zero) k = (refl, refl, refl, refl)
  read_map_lem (pos (suc n)) k = read_from_lem (to_u32 (pos (suc n))) num_vars 0 k
  read_map_lem (negsuc n) k = read_from_lem (to_u32 (negsuc n)) num_vars 0 k

  length-expected : (fd : ℤ) (m : ℕ) → length {A = F} (expected fd m) ≡ num_vars
  length-expected (pos zero) m = refl
  length-expected (pos (suc n)) m = refl
  length-expected (negsuc n) m = refl

  -- The vector always has four entries: zeros, with no call at all, for a collector that has no map;
  -- and else the answers to exactly four lookups in its map, of the keys 0, 1, 2 and 3 in this order,
  -- where one that fails is zero. Reading opens and closes no descriptor.
  pub read_metrics_lem :
      (c : Collector) (k : Bpf)
      → let (k', vs) = read_metrics {F = F} env c k in
        (vs ≡ expected c.map_fd k.calls)
        × (length vs ≡ num_vars)
        × (k'.issued ≡ asked c.map_fd k.issued)
        × (k'.opened ≡ k.opened)
        × (k'.closed ≡ k.closed)
  unfolding read_metrics
  read_metrics_lem c k =
      let (e, issued, o, d) = read_map_lem c.map_fd k in
      (e, ap length e ∙ length-expected c.map_fd k.calls, issued, o, d)
