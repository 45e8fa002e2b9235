-- ===== src/Sensor/Collector/Held.antt =====
-- internal/sensor/collector.go: the descriptors that a collector has, and what `Close` does with them.
use hosa.Prelude.{ℕ, zero, suc, ◌<◌, arith, List, [], ◌∷◌, ◌++◌, lt→ltb, subst, sym, if◌then◌else◌}
use hosa.Prelude.Int.{ℤ, pos, negsuc}
use hosa.Sysbpf.Kernel.{Bpf, close}
use hosa.Sysbpf.Kernel.Accounts.{count-append, Holds, Holds-close}
use hosa.Sensor.Collector.{Collector, close_list, positive_fd, close_all}

abbrev AllPositive : List ℕ → Type 0
AllPositive [] = Unit
AllPositive (fd ∷ fds) = (0 < fd) × AllPositive fds

pub AllPositive-append : (xs ys : List ℕ) → AllPositive xs → AllPositive ys → AllPositive (xs ++ ys)
AllPositive-append [] ys h g = g
AllPositive-append (x ∷ xs) ys h g = (h.0, AllPositive-append xs ys h.1 g)

-- The descriptors that a collector has.
abbrev pub held : Collector → List ℕ
held c = c.event_fds ++ (c.prog_fds ++ positive_fd c.map_fd)

-- Since `k0`, exactly the descriptors of the collector were opened and are still open.
pub record IsOwned (k0 : Bpf) (c : Collector) (k : Bpf) : Type 0 where
  pub holds : Holds k0 k (held c)
  pub events_positive : AllPositive c.event_fds
  pub progs_positive : AllPositive c.prog_fds

close_list-Holds :
    (a b : Bpf) (xs ys : List ℕ)
    → AllPositive xs
    → Holds a b (xs ++ ys)
    → Holds a (close_list xs b) ys
unfolding close_list
close_list-Holds a b [] ys p h = h
close_list-Holds a b (x ∷ xs) ys p h =
    subst (λ t. Holds a (close_list xs (if t then close x b else b)) ys) (sym (lt→ltb 0 x p.0))
      (close_list-Holds a (close x b) xs ys p.1 (Holds-close a b x (xs ++ ys) h))

positive_fd-AllPositive : (z : ℤ) → AllPositive (positive_fd z)
positive_fd-AllPositive (pos zero) = tt
positive_fd-AllPositive (pos (suc n)) = (omega arith, tt)
positive_fd-AllPositive (negsuc n) = tt

-- After closing all, nothing of what was opened is open.
pub close_all-Holds :
    (k0 : Bpf) (c : Collector) (k : Bpf) → IsOwned k0 c k → Holds k0 (close_all c k).1 []
unfolding close_all
close_all-Holds k0 c k o =
    let maps = positive_fd c.map_fd in
    let k1 = close_list c.event_fds k in
    let k2 = close_list c.prog_fds k1 in
    let h1 = close_list-Holds k0 k c.event_fds (c.prog_fds ++ maps) o.events_positive o.holds in
    let h2 = close_list-Holds k0 k1 c.prog_fds maps o.progs_positive h1 in
    close_list-Holds k0 k2 maps [] (positive_fd-AllPositive c.map_fd)
      (λ x. omega (arith, h2 x, count-append x maps []))

-- A descriptor more for the collector: the two lists that it may go to.
pub event-Holds :
    (k0 k k' : Bpf) (c : Collector) (fd : ℕ)
    → Holds k0 k (held c)
    → Holds k k' (fd ∷ [])
    → Holds k0 k' (held (record c { event_fds = c.event_fds ++ fd ∷ [] }))
event-Holds k0 k k' c fd h g x = omega (
  arith,
  h x,
  g x,
  count-append x c.event_fds (c.prog_fds ++ positive_fd c.map_fd),
  count-append x (c.event_fds ++ fd ∷ []) (c.prog_fds ++ positive_fd c.map_fd),
  count-append x c.event_fds (fd ∷ []),
)

pub prog-Holds :
    (k0 k k' : Bpf) (c : Collector) (fd : ℕ)
    → Holds k0 k (held c)
    → Holds k k' (fd ∷ [])
    → Holds k0 k' (held (record c { prog_fds = c.prog_fds ++ fd ∷ [] }))
prog-Holds k0 k k' c fd h g x = omega (
  arith,
  h x,
  g x,
  count-append x c.event_fds (c.prog_fds ++ positive_fd c.map_fd),
  count-append x c.event_fds ((c.prog_fds ++ fd ∷ []) ++ positive_fd c.map_fd),
  count-append x c.prog_fds (positive_fd c.map_fd),
  count-append x (c.prog_fds ++ fd ∷ []) (positive_fd c.map_fd),
  count-append x c.prog_fds (fd ∷ []),
)
