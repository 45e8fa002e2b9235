-- ===== src/Telemetry/Webhook.antt =====
-- Runs of `Notify` of internal/telemetry/webhook.go.
use hosa.Prelude.{ℕ, ◌-◌, ◌≤◌, ◌≡◌, Option, none, some, List, [], ◌∷◌, arith, length}
use hosa.Prelude.Int.{ℤ, pos, negsuc, ◌<ℤ◌}
use hosa.Float.{Float}
use hosa.Telemetry.{Snapshot, WebhookClient, notify}

-- Every level of the list is above the one before it, and the first above `last`.
abbrev pub Ascends : ℤ → List ℕ → Type 0
Ascends last [] = Unit
Ascends last (l ∷ ls) = (last <ℤ pos l) × Ascends (pos l) ls

-- How many levels a client may still notify.
abbrev room : ℤ → ℕ
room (pos n) = 4 - n
room (negsuc n) = 5

module _ {F : Type 0} ⦃fl : Float F⦄ where
  abbrev pub sent : Option (Snapshot F) → List ℕ → List ℕ
  sent none levels = levels
  sent (some s) levels = s.level ∷ levels

  -- The levels of the notifications that a list of snapshots causes.
  unfoldable pub notify_all : WebhookClient F → List (Snapshot F) → List ℕ
  notify_all w [] = []
  notify_all w (s ∷ ss) = let (w', o) = notify w s in sent o (notify_all w' ss)

  abbrev pub AllBounded : List (Snapshot F) → Type 0
  AllBounded [] = Unit
  AllBounded (s ∷ ss) = (s.level ≤ 4) × AllBounded ss

  Ascends-step :
      (w : WebhookClient F) (s : Snapshot F) (rest : List ℕ)
      → Ascends (notify w s).0.last_level rest
      → Ascends w.last_level (sent (notify w s).1 rest)
  unfolding notify
  Ascends-step w s rest h = ground arith

  -- Over any sequence of snapshots the notified levels strictly ascend, from above the level last
  -- notified: a level that was notified once, or any level below it, is never notified again, also
  -- after the system has recovered.
  pub notify_all-Ascends :
      (w : WebhookClient F) (ss : List (Snapshot F)) → Ascends w.last_level (notify_all w ss)
  unfolding notify_all
  notify_all-Ascends w [] = tt
  notify_all-Ascends w (s ∷ ss) =
      Ascends-step w s (notify_all (notify w s).0 ss) (notify_all-Ascends (notify w s).0 ss)

  room_step :
      (w : WebhookClient F) (s : Snapshot F) (rest : List ℕ)
      → s.level ≤ 4
      → length rest ≤ room (notify w s).0.last_level
      → length (sent (notify w s).1 rest) ≤ room w.last_level
  unfolding notify
  room_step w s rest b h = ground arith

  length-notify_all :
      (w : WebhookClient F) (ss : List (Snapshot F))
      → AllBounded ss
      → length (notify_all w ss) ≤ room w.last_level
  unfolding notify_all
  length-notify_all w [] b = omega arith
  length-notify_all w (s ∷ ss) b =
      room_step w s (notify_all (notify w s).0 ss) b.0 (length-notify_all (notify w s).0 ss b.1)

  -- A client that has notified nothing posts at most five times in the life of the process, however
  -- many escalations it sees, where the levels are the five of the agent.
  pub notify_all_le :
      (w : WebhookClient F) (ss : List (Snapshot F))
      → w.last_level ≡ negsuc 0
      → AllBounded ss
      → length (notify_all w ss) ≤ 5
  notify_all_le w ss e b = ground (arith, length-notify_all w ss b)
