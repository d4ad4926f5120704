-- ===== src/Driver/Stats.antt =====
-- TaskStats of driver.go; stats and handleStats of handle.go.
pub mod Frame
pub mod Closes
use nomad_pot_driver.Base.{
  ℕ, ◌+◌, ◌-◌, ◌%◌, ◌^◌, Bool, true, false, Option, none, some, List, [], ◌∷◌, ◌++◌, ℤ, pos, negsuc,
  if◌then◌else◌,
}
use nomad_pot_driver.Text.Split.{Text}
use nomad_pot_driver.Types.{Syexec, PotStats, Libs}
use nomad_pot_driver.Machine.{Host, Act, ◌>>=◌, ◌>>◌, pure, gets}
use nomad_pot_driver.Pot.Query.{container_stats}
use nomad_pot_driver.Handle.{Handle}
use nomad_pot_driver.Driver.State.{
  Ref, stats_loop, Driver, Result, value, error, call, load, store, spawn, find_task,
}
use nomad_pot_driver.Driver.Watch.{Channel}

-- uint64(n)
unfoldable pub uint64 : ℤ → ℕ
uint64 (pos n) = n % 2 ^ 64
uint64 (negsuc n) = 2 ^ 64 - 1 - n % 2 ^ 64

-- drivers.TaskResourceUsage: what handleStats sets of it. The float64 of `percent` is exact for the
-- numbers below 2 ^ 53; `total_ticks` is passed on as it is.
pub record Usage : Type 0 where
  pub percent : ℤ
  pub total_ticks : Text
  pub rss : ℕ
  pub cache : ℕ
  pub swap : ℕ
  pub timestamp : ℕ

abbrev pub usage_of : ℕ → PotStats → Usage
usage_of now stats = record {
  percent = stats.percent;
  total_ticks = stats.total_ticks;
  rss = uint64 stats.rss;
  cache = 0;
  swap = 0;
  timestamp = now;
}

-- What the first select receives: the end of the context, or the timer, and then whether the usage is
-- received, or the context ends first.
pub data Sample : Type 0 where
  stopped : Sample
  timer : Bool → Sample

module _ (lib : Libs) (host : Host) where
  -- A round up to the second select: the usage, or none where containerStats failed. The method works
  -- on the handle's own `syexec`.
  unfoldable pub sample : Ref → Act Driver (Option Usage)
  sample p = do
    now ← gets (λ d. host.now d.log)
    h ← load (some p)
    (r, se) ← call h.syexec (container_stats lib host h.task_config)
    store p (record h { syexec = se })
    pure (elim r [ value stats ↦ some (usage_of now stats) | error e ↦ none ])

  abbrev close : Channel Usage → Act Driver (Channel Usage)
  close ch = pure (record ch { closed = true })

  abbrev pub offer :
      (Channel Usage → Act Driver (Channel Usage))
      → Bool
      → Channel Usage
      → Option Usage
      → Act Driver (Channel Usage)
  offer go received ch none = close ch
  offer go true ch (some u) = go (record ch { sent = ch.sent ++ u ∷ [] })
  offer go false ch (some u) = close ch

  unfoldable pub handle_stats : Ref → List Sample → Channel Usage → Act Driver (Channel Usage)
  unfolding sample
  handle_stats p [] ch = pure ch
  handle_stats p (stopped ∷ ss) ch = close ch
  handle_stats p (timer received ∷ ss) ch = do u ← sample p; offer (handle_stats p ss) received ch u

  unfoldable pub task_stats : Text → Act Driver (Unit {0})
  task_stats id = do p ← find_task id; spawn (stats_loop p)
