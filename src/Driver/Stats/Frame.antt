-- ===== src/Driver/Stats/Frame.antt =====
-- handleStats and the parts of the driver that it does not work on.
use nomad_pot_driver.Base.{
  Bool, zero, suc, ◌≡◌, refl, ap, ◌∙◌, inl, inr, true, false, Option, none, some, List, [], ◌∷◌,
  get_elem?, set, Option-cases,
}
use nomad_pot_driver.Outcome.{Outcome-cases}
use nomad_pot_driver.Machine.{Act}
use nomad_pot_driver.Types.{Libs, new_syexec}
use nomad_pot_driver.Machine.{Host, Pot}
use nomad_pot_driver.Machine.Keeps.{Keeps, Keeps-bind, keeps_rules}
use nomad_pot_driver.Pot.Query.{container_stats}
use nomad_pot_driver.Handle.{Handle}
use nomad_pot_driver.Driver.State.{Ref, Driver}
use nomad_pot_driver.Driver.Watch.{Channel}
use nomad_pot_driver.Driver.Stats.{Sample, stopped, timer, Usage, sample, offer, handle_stats}

-- A handle without its `syexec`.
abbrev pub bare : Handle → Handle
bare h = record h { syexec = new_syexec h.task_config }

-- The handles, with the one at a place without its `syexec`.
abbrev pub bare_at : Ref → List Handle → List Handle
bare_at p [] = []
bare_at zero (h ∷ hs) = bare h ∷ hs
bare_at (suc p) (h ∷ hs) = h ∷ bare_at p hs

-- The driver without its log and the `syexec` of one handle.
abbrev pub unmonitored : Ref → Driver → Driver
unmonitored p d = record d { log = []; handles = bare_at p d.handles }

bare_at-set :
    (hs : List Handle) (p : Ref) (h h' : Handle)
    → get_elem? hs p ≡ some h
    → bare h' ≡ bare h
    → bare_at p (set hs p h') ≡ bare_at p hs
bare_at-set [] p h h' known e = refl
bare_at-set (x ∷ hs) zero h h' known e = ap (λ y. y ∷ hs) (e ∙ cc)
bare_at-set (x ∷ hs) (suc p) h h' known e = ap (λ ys. x ∷ ys) (bare_at-set hs p h h' known e)

monitored :
    (d : Driver) (p : Ref) (h : Handle) (r : Pot)
    → get_elem? d.handles p ≡ some h
    → unmonitored p
        (record d { log = r.log; handles = set d.handles p (record h { syexec = r.se }) })
      ≡ unmonitored p d
monitored d p h r known =
    ap (λ hs. record d { log = []; handles = hs }) (bare_at-set d.handles p h _ known refl)

module _ (lib : Libs) (host : Host) where
  sample-unmonitored : (p : Ref) → Keeps (unmonitored p) (sample lib host p)
  unfolding sample
  sample-unmonitored p = record {
    at = λ d. elim (Option-cases (get_elem? d.handles p)) [
      | inl lost ↦ rw lost refl
      | inr (h, known) ↦
          let asked : Pot = record { se = h.syexec; log = d.log } in
          let r : Pot = (container_stats lib host h.task_config asked).1 in
          elim (Outcome-cases (container_stats lib host h.task_config asked).0) [
            | inl (stats, good) ↦ rw (known, good) (monitored d p h r known)
            | inr (inl (e, bad)) ↦ rw (known, bad) (monitored d p h r known)
            | inr (inr (e, bad)) ↦ rw (known, bad) refl
          ]
    ];
  }

  offer-unmonitored :
      (p : Ref) (go : Channel Usage → Act Driver (Channel Usage)) (received : Bool)
      (ch : Channel Usage) (u : Option Usage)
      → ((ch' : Channel Usage) → Keeps (unmonitored p) (go ch'))
      → Keeps (unmonitored p) (offer lib host go received ch u)
  offer-unmonitored p go received ch none k = search keeps_rules
  offer-unmonitored p go true ch (some u) k = k _
  offer-unmonitored p go false ch (some u) k = search keeps_rules

  loop-unmonitored :
      (p : Ref) (ss : List Sample) (ch : Channel Usage)
      → Keeps (unmonitored p) (handle_stats lib host p ss ch)
  unfolding handle_stats
  loop-unmonitored p [] ch = search keeps_rules
  loop-unmonitored p (stopped ∷ ss) ch = search keeps_rules
  loop-unmonitored p (timer received ∷ ss) ch =
      Keeps-bind (sample lib host p) _ (sample-unmonitored p)
        λ u. offer-unmonitored p (handle_stats lib host p ss) received ch u (loop-unmonitored p ss)

  -- handleStats, for as long as it runs and whatever containerStats gives, changes nothing of
  -- the driver but the log and the `syexec` of its own handle: no task, no other handle, and no
  -- state, exit result or flag of a destruction, and no goroutine.
  pub handle_stats-unmonitored :
      (p : Ref) (ss : List Sample) (ch : Channel Usage) (d : Driver)
      → unmonitored p (handle_stats lib host p ss ch d).1 ≡ unmonitored p d
  handle_stats-unmonitored p ss ch d = (loop-unmonitored p ss ch).at d
