-- ===== src/Sensor/Collector/Ownership.antt =====
-- internal/sensor/collector.go: which descriptors are open after `Start`, and after `Close`.
use hosa.Prelude.{ℕ, zero, suc, ◌≡◌, refl, arith, Option, none, some, List, [], ◌∷◌, ◌++◌, Bytes}
use hosa.Prelude.Int.{pos}
use hosa.Outcome.{GoError, Outcome, ok, err, panic}
use hosa.Sysbpf.Kernel.{Environment, Bpf, Called}
use hosa.Sysbpf.Kernel.Accounts.{
  Holds, Holds-refl, ArePositive, Adds, load_prog-Adds, create_map-Adds, attach_tracepoint-Adds,
}
use hosa.Outcome.{no_map, no_probe}
use hosa.Sysbpf.Elf.{MapDef}
use hosa.Sysbpf.Elf.Object.{Buffer, BpfObject}
use hosa.Sensor.Collector.{
  Collector, Probe, Started, started, probes, new_collector, close_all, give_up, keep_event,
  keep_prog, load_relocated, load_section, load_probes, continue, check_list, with_map, start_map,
  start_object, load_object, start,
}
use hosa.Sensor.Collector.Held.{
  AllPositive-append, held, IsOwned, close_all-Holds, event-Holds, prog-Holds,
}

-- What is owned after a part of `Start`; where it returns an error, nothing is.
pub record IsAccounted (k0 : Bpf) (s : Started) : Type 0 where
  pub owned : IsOwned k0 (s.collector) (s.kernel)
  pub released : (e : GoError) → s.result ≡ err e → Holds k0 (s.kernel) []

module _ (k0 : Bpf) where
  later-IsOwned : (c : Collector) (k k' : Bpf) → IsOwned k0 c k → Holds k k' [] → IsOwned k0 c k'
  later-IsOwned c k k' o h = record {
    holds = λ x. omega (arith, o.holds x, h x);
    events_positive = o.events_positive;
    progs_positive = o.progs_positive;
  }

  going-IsAccounted :
      (c : Collector) (k : Bpf) → IsOwned k0 c k → IsAccounted k0 (started c k (ok tt))
  going-IsAccounted c k o = record { owned = o; released = λ e h. cc }

  panic-IsAccounted :
      (c : Collector) (k : Bpf) → IsOwned k0 c k → IsAccounted k0 (started c k panic)
  panic-IsAccounted c k o = record { owned = o; released = λ e h. cc }

  give_up-IsAccounted :
      (e : GoError) (c : Collector) (k : Bpf) → IsOwned k0 c k → IsAccounted k0 (give_up e c k)
  unfolding close_all
  give_up-IsAccounted e c k o =
      let h = close_all-Holds k0 c k o in
      record {
        owned = record { holds = h; events_positive = tt; progs_positive = tt };
        released = λ _ _. h;
      }

  keep_event-IsAccounted :
      (c : Collector) (k : Bpf) (r : Called ℕ)
      → IsOwned k0 c k
      → Adds k r
      → IsAccounted k0 (keep_event c r)
  keep_event-IsAccounted c k (k', ok fd) o a =
      going-IsAccounted (record c { event_fds = c.event_fds ++ fd ∷ [] }) k'
        record {
          holds = event-Holds k0 k k' c fd o.holds a.holds;
          events_positive =
              AllPositive-append c.event_fds (fd ∷ []) o.events_positive (a.positive fd refl, tt);
          progs_positive = o.progs_positive;
        }
  keep_event-IsAccounted c k (k', err e) o a =
      give_up-IsAccounted e c k' (later-IsOwned c k k' o a.holds)
  keep_event-IsAccounted c k (k', panic) o a =
      panic-IsAccounted c k' (later-IsOwned c k k' o a.holds)

  and_then-IsAccounted :
      (r : Outcome (Unit {0})) (s : Started) (f : Collector → Bpf → Started)
      → IsAccounted k0 s
      → ((c : Collector) (k : Bpf) → IsOwned k0 c k → IsAccounted k0 (f c k))
      → IsAccounted k0 (continue r s f)
  and_then-IsAccounted (ok u) s f a g = g s.collector s.kernel a.owned
  and_then-IsAccounted (err e) s f a g = a
  and_then-IsAccounted panic s f a g = a

module _ (env : Environment) (p : ArePositive env) (k0 : Bpf) where
  keep_prog-IsAccounted :
      (q : Probe) (c : Collector) (k : Bpf) (r : Called ℕ)
      → IsOwned k0 c k
      → Adds k r
      → IsAccounted k0 (keep_prog env q c r)
  keep_prog-IsAccounted q c k (k', ok fd) o a =
      keep_event-IsAccounted k0 (record c { prog_fds = c.prog_fds ++ fd ∷ [] }) k' _
        record {
          holds = prog-Holds k0 k k' c fd o.holds a.holds;
          events_positive = o.events_positive;
          progs_positive =
              AllPositive-append c.prog_fds (fd ∷ []) o.progs_positive (a.positive fd refl, tt);
        }
        (attach_tracepoint-Adds env p q.subsystem q.event fd k')
  keep_prog-IsAccounted q c k (k', err e) o a =
      give_up-IsAccounted k0 e c k' (later-IsOwned k0 c k k' o a.holds)
  keep_prog-IsAccounted q c k (k', panic) o a =
      panic-IsAccounted k0 c k' (later-IsOwned k0 c k k' o a.holds)

  load_relocated-IsAccounted :
      (license : Bytes) (q : Probe) (c : Collector) (k : Bpf) (r : Bytes × Outcome (Unit {0}))
      → IsOwned k0 c k
      → IsAccounted k0 (load_relocated env license q c k r)
  load_relocated-IsAccounted license q c k (insns, ok u) o =
      keep_prog-IsAccounted q c k _ o (load_prog-Adds env p _ insns license k)
  load_relocated-IsAccounted license q c k (insns, err e) o = give_up-IsAccounted k0 e c k o
  load_relocated-IsAccounted license q c k (insns, panic) o = panic-IsAccounted k0 c k o

  load_section-IsAccounted :
      (obj : BpfObject) (q : Probe) (c : Collector) (k : Bpf) (b : Option Buffer)
      → IsOwned k0 c k
      → IsAccounted k0 (load_section env obj q c k b)
  load_section-IsAccounted obj q c k none o = going-IsAccounted k0 c k o
  load_section-IsAccounted obj q c k (some b) o = load_relocated-IsAccounted obj.license q c k _ o

  load_probes-IsAccounted :
      (obj : BpfObject) (qs : List Probe) (c : Collector) (k : Bpf)
      → IsOwned k0 c k
      → IsAccounted k0 (load_probes env obj qs c k)
  unfolding load_probes
  load_probes-IsAccounted obj [] c k o = going-IsAccounted k0 c k o
  load_probes-IsAccounted obj (q ∷ qs) c k o =
      and_then-IsAccounted k0 _ _ _ (load_section-IsAccounted obj q c k _ o)
        (load_probes-IsAccounted obj qs)

  check_list-IsAccounted :
      (fds : List ℕ) (c : Collector) (k : Bpf)
      → IsOwned k0 c k
      → IsAccounted k0 (check_list fds c k)
  check_list-IsAccounted [] c k o = give_up-IsAccounted k0 no_probe c k o
  check_list-IsAccounted (fd ∷ fds) c k o = going-IsAccounted k0 c k o

-- A collector that was not started, on the state at the start.
module _ (env : Environment) (p : ArePositive env) (k : Bpf) where
  new-IsOwned : IsOwned k new_collector k
  new-IsOwned = record { holds = Holds-refl k; events_positive = tt; progs_positive = tt }

  err-IsAccounted : (e : GoError) → IsAccounted k (started new_collector k (err e))
  err-IsAccounted e = record { owned = new-IsOwned; released = λ _ _. Holds-refl k }

  with_map-IsAccounted :
      (obj : BpfObject) (r : Called ℕ) → Adds k r → IsAccounted k (with_map env obj new_collector r)
  with_map-IsAccounted obj (k', ok zero) a = absurd (omega (arith, a.positive 0 refl))
  with_map-IsAccounted obj (k', ok (suc fd)) a =
      and_then-IsAccounted k _ _ _
        (load_probes-IsAccounted env p k obj probes (record new_collector { map_fd = pos (suc fd) })
          k' record { holds = a.holds; events_positive = tt; progs_positive = tt })
        (λ c k'' o. check_list-IsAccounted env p k c.event_fds c k'' o)
  with_map-IsAccounted obj (k', err e) a = record {
    owned = record { holds = a.holds; events_positive = tt; progs_positive = tt };
    released = λ _ _. a.holds;
  }
  with_map-IsAccounted obj (k', panic) a = record {
    owned = record { holds = a.holds; events_positive = tt; progs_positive = tt };
    released = λ _ _. a.holds;
  }

  start_map-IsAccounted :
      (obj : BpfObject) (d : Option MapDef) → IsAccounted k (start_map env obj new_collector k d)
  start_map-IsAccounted obj none = err-IsAccounted no_map
  start_map-IsAccounted obj (some d) =
      with_map-IsAccounted obj _
        (create_map-Adds env p d.map_type d.key_size d.value_size d.max_entries k)

  start_object-IsAccounted :
      (r : Outcome BpfObject) → IsAccounted k (start_object env new_collector k r)
  start_object-IsAccounted (ok obj) = start_map-IsAccounted obj _
  start_object-IsAccounted (err e) = err-IsAccounted e
  start_object-IsAccounted panic = panic-IsAccounted k new_collector k new-IsOwned

-- Whatever the object and the answers of the kernel are, `Start` on a new collector leaves open
-- exactly the descriptors that the collector records, and a `Close` behind it closes each of them
-- once: nothing that was opened in between stays open. The descriptors that the kernel returns are
-- positive.
pub start-close_all :
    (env : Environment) (file : Option (Bytes × ℕ)) (k : Bpf)
    → ArePositive env
    → let s = start env file new_collector k in
      Holds k s.kernel (held s.collector) × Holds k (close_all s.collector s.kernel).1 []
unfolding start
start-close_all env file k p =
    let s = start_object env new_collector k (load_object file) in
    let o = (start_object-IsAccounted env p k (load_object file)).owned in
    (o.holds, close_all-Holds k s.collector s.kernel o)

-- Where `Start` on a new collector returns an error, every descriptor that it opened is closed again:
-- the map, the programs that were loaded and the events that were attached before the failure.
pub start_err :
    (env : Environment) (file : Option (Bytes × ℕ)) (k : Bpf) (e : GoError)
    → ArePositive env
    → (start env file new_collector k).result ≡ err e
    → Holds k (start env file new_collector k).kernel []
unfolding start
start_err env file k e p h = (start_object-IsAccounted env p k (load_object file)).released e h
