-- ===== src/Driver/Stats/Closes.antt =====
-- The end of handleStats.
use nomad_pot_driver.Base.{
  ◌≡◌, refl, ap, subst, ◌∙◌, Bool, true, false, Option, none, some, List, [], ◌∷◌, ◌++◌, arith,
  get_elem?, set, get_elem?-set_known, inl, inr, Option-cases,
}
use nomad_pot_driver.Outcome.{Outcome, ok, Outcome-cases}
use nomad_pot_driver.Types.{NomadConfig, Libs}
use nomad_pot_driver.Machine.{Host, Pot, continue}
use nomad_pot_driver.Pot.Query.{container_stats}
use nomad_pot_driver.Handle.{Handle}
use nomad_pot_driver.Driver.State.{Driver, Ref}
use nomad_pot_driver.Driver.Watch.{Channel}
use nomad_pot_driver.Driver.Wait.Returns.{CanStart, Returns}
use nomad_pot_driver.Driver.Stats.{
  Usage, Sample, stopped, timer, sample, handle_stats, usage_of, offer,
}

-- The events hold one after which the loop does not go on.
abbrev pub has_end : List Sample → Bool
has_end [] = false
has_end (stopped ∷ ss) = true
has_end (timer true ∷ ss) = has_end ss
has_end (timer false ∷ ss) = true

module _ (lib : Libs) (host : Host) (can : CanStart host) where
  stats-Returns : (cfg : NomadConfig) (s : Pot) → Returns (container_stats lib host cfg s).0
  unfolding container_stats
  stats-Returns cfg s =
      let (pid, e) = can.at s.log s.se.argv_stats (lib.task_dir cfg).dir in ground arith

  sample_returns :
      (p : Ref) (d : Driver) (h : Handle)
      → get_elem? d.handles p ≡ some h
      → (u : Option Usage) × (d' : Driver) × (h' : Handle) × (sample lib host p d ≡ (ok u, d'))
        × (get_elem? d'.handles p ≡ some h')
  unfolding sample
  sample_returns p d h known =
      let asked : Pot = record { se = h.syexec; log = d.log } in
      let r = container_stats lib host h.task_config asked in
      let h' : Handle = record h { syexec = r.1.se } in
      let d' : Driver = record d { log = r.1.log; handles = set d.handles p h' } in
      let known' = get_elem?-set_known d.handles p h h' known in
      elim (Outcome-cases r.0) [
        | inl (stats, e) ↦
            (some (usage_of (host.now d.log) stats), d', h', rw (known, e) refl, known')
        | inr (inl (x, e)) ↦ (none, d', h', rw (known, e) refl, known')
        | inr (inr (x, e)) ↦ absurd (subst Returns e (stats-Returns h.task_config asked))
      ]

  -- The round after its sample.
  sampled :
      (p : Ref) (ss : List Sample) (received : Bool) (ch : Channel Usage) (d d' : Driver)
      (u : Option Usage)
      → sample lib host p d ≡ (ok u, d')
      → handle_stats lib host p (timer received ∷ ss) ch d
        ≡ offer lib host (handle_stats lib host p ss) received ch u d'
  unfolding handle_stats
  sampled p ss received ch d d' u e =
      ap
        (λ (r : Outcome (Option Usage) × Driver).
          continue r.0 (λ v. offer lib host (handle_stats lib host p ss) received ch v) r.1)
        e

  -- Where the program `pot` can be started and the handle is there, handleStats comes to its
  -- end and has closed its channel, for any events among which the context is done, at the
  -- first select or at the second, whatever containerStats gave.
  pub handle_stats_closes :
      (p : Ref) (ss : List Sample) (ch : Channel Usage) (d : Driver) (h : Handle)
      → get_elem? d.handles p ≡ some h
      → has_end ss ≡ true
      → (ch' : Channel Usage) × (d' : Driver) × (handle_stats lib host p ss ch d ≡ (ok ch', d'))
        × (ch'.closed ≡ true)
  unfolding handle_stats
  handle_stats_closes p [] ch d h known e = cc
  handle_stats_closes p (stopped ∷ ss) ch d h known e = (_, _, refl, refl)
  handle_stats_closes p (timer false ∷ ss) ch d h known e =
      let (u, d', h', is_u, known') = sample_returns p d h known in
      let run = sampled p ss false ch d d' u is_u in
      elim (Option-cases u) [
        | inl lost ↦ (
          _,
          d',
          run ∙ ap (λ x. offer lib host (handle_stats lib host p ss) false ch x d') lost,
          refl,
        )
        | inr (v, got) ↦ (
          _,
          d',
          run ∙ ap (λ x. offer lib host (handle_stats lib host p ss) false ch x d') got,
          refl,
        )
      ]
  handle_stats_closes p (timer true ∷ ss) ch d h known e =
      let (u, d', h', is_u, known') = sample_returns p d h known in
      let run = sampled p ss true ch d d' u is_u in
      elim (Option-cases u) [
        | inl lost ↦ (
          _,
          d',
          run ∙ ap (λ x. offer lib host (handle_stats lib host p ss) true ch x d') lost,
          refl,
        )
        | inr (v, got) ↦
            let (ch', d'', end, closed) =
              handle_stats_closes p ss (record ch { sent = ch.sent ++ v ∷ [] }) d' h' known' e in
            (
              ch',
              d'',
              run ∙ (ap (λ x. offer lib host (handle_stats lib host p ss) true ch x d') got ∙ end),
              closed,
            )
      ]
