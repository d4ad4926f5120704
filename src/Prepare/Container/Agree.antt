-- ===== src/Prepare/Container/Agree.antt =====
-- The container's name in what prepareContainer and prepareDestroy make for a task.
use nomad_pot_driver.Base.{◌≡◌, refl, sym, subst, some, List, [], ◌∷◌, ◌++◌, append_assoc, ap}
use nomad_pot_driver.Text.Split.{Text, codes, split}
use nomad_pot_driver.Outcome.{Outcome, ok, index, ◌>>=◌, bind_keeps, ok-injective}
use nomad_pot_driver.Types.{NomadConfig, TaskConfig, Syexec, Libs, new_syexec}
use nomad_pot_driver.Prepare.Container.{
  full_command, each, copy_entry, mount_entry, mount_read_only_entry, attribute_entry, filled,
  prepare_named, prepare_container,
}
use nomad_pot_driver.Prepare.Commands.{container_name, prepare_destroy}

-- The argument lists of a `syexec` that name the container.
pub record Addresses (name : Text) (se : Syexec) : Type 0 where
  pub start : se.argv_start ≡ codes "start" ∷ name ∷ []
  pub stats : se.argv_stats ≡ codes "get-rss" ∷ codes "-p" ∷ name ∷ codes "-J" ∷ []
  pub last_run_stats : se.argv_last_run_stats ≡ codes "last-run-stats" ∷ codes "-p" ∷ name ∷ []
  pub destroy : se.argv_destroy ≡ codes "destroy" ∷ codes "-p" ∷ name ∷ []

three-eq-ok {ℓ} :
    {B : Type ℓ} (m n o : Outcome Text) (k : Text → Text → Text → Outcome B) {x : B}
    → (m >>= λ a. n >>= λ b. o >>= λ c. k a b c) ≡ ok x
    → (a b c : Text) × (m ≡ ok a) × (n ≡ ok b) × (o ≡ ok c) × (k a b c ≡ ok x)
three-eq-ok (ok a) (ok b) (ok c) k h = (a, b, c, refl, refl, refl, h)
three-eq-ok _ _ _ k h = cc

module _ (lib : Libs) where
  filled-Addresses :
      (cfg : NomadConfig) (task : TaskConfig) (command base job_alloc : Text)
      (copies mounts mounts_read_only attributes : List Text)
      → Addresses
          (base ++ codes "_" ++ job_alloc)
          (filled lib cfg task command base job_alloc copies mounts mounts_read_only attributes)
  unfolding filled
  filled-Addresses cfg task command base job_alloc copies mounts mounts_read_only attributes =
      record { start = refl; stats = refl; last_run_stats = refl; destroy = refl }

  prepare_named-Addresses :
      (cfg : NomadConfig) (task : TaskConfig) (command base job_alloc : Text) (se : Syexec)
      → prepare_named lib cfg task command base job_alloc ≡ ok se
      → Addresses (base ++ codes "_" ++ job_alloc) se
  unfolding prepare_named
  prepare_named-Addresses cfg task command base job_alloc se =
      let name = base ++ codes "_" ++ job_alloc in
      bind_keeps (each (copy_entry lib name) task.copy) _ λ copies.
        bind_keeps (each (mount_entry lib name) task.mount) _ λ mounts.
          bind_keeps (each (mount_read_only_entry lib name) task.mount_read_only) _ λ read_only.
            bind_keeps (each (attribute_entry lib name) task.attributes) _ λ attributes h.
              subst (Addresses name) (ok-injective h) (
                filled-Addresses cfg task command base job_alloc copies mounts read_only attributes)

  -- If prepareContainer succeeds, the task has a container name, and the commands that start the
  -- container, that read its statistics and that destroy it all give this name.
  pub prepare_container-Addresses :
      (cfg : NomadConfig) (task : TaskConfig) (se : Syexec)
      → prepare_container lib cfg task ≡ ok se
      → (name : Text) × (container_name cfg.id ≡ ok name) × Addresses name se
  unfolding prepare_container container_name
  prepare_container-Addresses cfg task se = bind_keeps (full_command task) _ λ command h.
      let parts = split cfg.id b'/' in
      let (base, job, alloc, is_base, is_job, is_alloc, h') =
        three-eq-ok (index parts 1) (index parts 2) (index parts 0)
          (λ base job alloc. prepare_named lib cfg task command base (job ++ codes "_" ++ alloc))
          h in
      (
        base ++ codes "_" ++ (job ++ codes "_" ++ alloc),
        named_parts (index parts 1) (index parts 2) (index parts 0) is_base is_job is_alloc,
        prepare_named-Addresses cfg task command base (job ++ codes "_" ++ alloc) se h',
      )
    where
      named_parts :
          (m n o : Outcome Text) {a b c : Text}
          → m ≡ ok a
          → n ≡ ok b
          → o ≡ ok c
          → (m >>= λ a. n >>= λ b. o >>= λ c. ok (a ++ codes "_" ++ b ++ codes "_" ++ c))
            ≡ ok (a ++ codes "_" ++ (b ++ codes "_" ++ c))
      named_parts m n o p q r = rw (p, q, r) (ap ok (simp append_assoc))

  -- If prepareContainer succeeds for a task, prepareDestroy succeeds for it, and what StopTask
  -- prepares destroys the container that StartTask prepared.
  pub argv_destroy-prepare_destroy :
      (cfg : NomadConfig) (task stop_task : TaskConfig) (se : Syexec)
      → prepare_container lib cfg task ≡ ok se
      → (se' : Syexec) × (prepare_destroy lib cfg stop_task ≡ ok se')
        × (se'.argv_destroy ≡ se.argv_destroy)
  unfolding prepare_destroy
  argv_destroy-prepare_destroy cfg task stop_task se h =
      let (name, is_name, addresses) = prepare_container-Addresses cfg task se h in
      let se' : Syexec = record (new_syexec cfg) {
        argv_destroy = codes "destroy" ∷ codes "-p" ∷ name ∷ [];
        task_config = some stop_task;
        env = lib.env_list cfg.env;
      } in
      (se', rw is_name refl, sym addresses.destroy)
