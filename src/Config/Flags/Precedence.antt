-- ===== src/Config/Flags/Precedence.antt =====
-- The settings that have a flag, before and after the flags of the command line.
use hosa.Prelude.{
  ◌≤◌, ◌∙◌, ap, ℕ, Bool, Bytes, List, [], ◌∷◌, ◌≡◌, refl, arith, ◌==◌, if◌then◌else◌,
}
use hosa.Prelude.Int.{ℤ}
use hosa.Config.{Config}
use hosa.Config.Flags.{
  threshold_vigilance_flag, threshold_containment_flag, threshold_protection_flag, alpha_flag,
  min_samples_flag, hysteresis_flag, normal_interval_ms_flag, vigilance_interval_ms_flag,
  cgroup_path_flag, heartbeat_interval_s_flag, survival_enabled_flag, threshold_survival_flag,
  frag_entropy_threshold_flag, metrics_addr_flag, webhook_url_flag, Flag, apply_flag, apply_flags,
}

-- The value of a setting, of whichever type.
pub data Setting (F : Type 0) : Type 0 where
  float : F → Setting F
  int : ℤ → Setting F
  text : Bytes → Setting F
  switch : Bool → Setting F

module _ {F : Type 0} where
  abbrev pub flag_id : Flag F → ℕ
  flag_id (threshold_vigilance_flag v) = 0
  flag_id (threshold_containment_flag v) = 1
  flag_id (threshold_protection_flag v) = 2
  flag_id (alpha_flag v) = 3
  flag_id (min_samples_flag v) = 4
  flag_id (hysteresis_flag v) = 5
  flag_id (normal_interval_ms_flag v) = 6
  flag_id (vigilance_interval_ms_flag v) = 7
  flag_id (cgroup_path_flag v) = 8
  flag_id (heartbeat_interval_s_flag v) = 9
  flag_id (survival_enabled_flag v) = 10
  flag_id (threshold_survival_flag v) = 11
  flag_id (frag_entropy_threshold_flag v) = 12
  flag_id (metrics_addr_flag v) = 13
  flag_id (webhook_url_flag v) = 14

  abbrev pub flag_value : Flag F → Setting F
  flag_value (threshold_vigilance_flag v) = float v
  flag_value (threshold_containment_flag v) = float v
  flag_value (threshold_protection_flag v) = float v
  flag_value (alpha_flag v) = float v
  flag_value (min_samples_flag v) = int v
  flag_value (hysteresis_flag v) = int v
  flag_value (normal_interval_ms_flag v) = int v
  flag_value (vigilance_interval_ms_flag v) = int v
  flag_value (cgroup_path_flag v) = text v
  flag_value (heartbeat_interval_s_flag v) = int v
  flag_value (survival_enabled_flag v) = switch v
  flag_value (threshold_survival_flag v) = float v
  flag_value (frag_entropy_threshold_flag v) = float v
  flag_value (metrics_addr_flag v) = text v
  flag_value (webhook_url_flag v) = text v

  -- The setting with that number, which a flag of the same number sets; the last for any other.
  abbrev pub setting : ℕ → Config F → Setting F
  setting n c =
      if n == 0
      then float c.detection.threshold_vigilance
      else if n == 1
      then float c.detection.threshold_containment
      else if n == 2
      then float c.detection.threshold_protection
      else if n == 3
      then float c.detection.alpha_ewma
      else if n == 4
      then int c.detection.min_samples
      else if n == 5
      then int c.detection.hysteresis_down
      else if n == 6
      then int c.sampling.normal_interval_ms
      else if n == 7
      then int c.sampling.vigilance_interval_ms
      else if n == 8
      then text c.motor.cgroup_path
      else if n == 9
      then int c.thalamus.heartbeat_interval_s
      else if n == 10
      then switch c.survival.enabled
      else if n == 11
      then float c.survival.threshold_survival
      else if n == 12
      then float c.survival.frag_entropy_threshold
      else if n == 13
      then text c.telemetry.metrics_addr
      else text c.telemetry.webhook_url

  -- The last value that the flags give to a setting, or the value before them.
  abbrev pub last_given : ℕ → Setting F → List (Flag F) → Setting F
  last_given n v [] = v
  last_given n v (f ∷ fs) = last_given n (if n == flag_id f then flag_value f else v) fs

  setting-apply_flag :
      (n : ℕ) (f : Flag F) (c : Config F)
      → n ≤ 14
      → setting n (apply_flag f c) ≡ (if n == flag_id f then flag_value f else setting n c)
  unfolding apply_flag
  setting-apply_flag n f c h = ground arith

  -- Each of the fifteen settings that have a flag is, after the flags, what the last flag for it
  -- gives, and what the file and the defaults gave it where no flag names it.
  pub setting-apply_flags :
      (n : ℕ) (fs : List (Flag F)) (c : Config F)
      → n ≤ 14
      → setting n (apply_flags fs c) ≡ last_given n (setting n c) fs
  unfolding apply_flags
  setting-apply_flags n [] c h = refl
  setting-apply_flags n (f ∷ fs) c h =
      setting-apply_flags n fs (apply_flag f c) h
      ∙ ap (λ v. last_given n v fs) (setting-apply_flag n f c h)
