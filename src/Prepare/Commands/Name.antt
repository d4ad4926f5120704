-- ===== src/Prepare/Commands/Name.antt =====
-- The name of a task's container.
use nomad_pot_driver.Base.{◌≡◌, ◌∷◌, ◌++◌, append_assoc}
use nomad_pot_driver.Text.Split.{Text, codes, Lacks, split_three}
use nomad_pot_driver.Text.Cut.{append-injective_last}
use nomad_pot_driver.Outcome.{ok}
use nomad_pot_driver.Prepare.Commands.{container_name}

-- The id that Nomad gives a task: the allocation, the task and the job's part, joined by slashes.
abbrev pub task_id : Text → Text → Text → Text
task_id alloc base job = alloc ++ b'/' ∷ (base ++ b'/' ∷ job)

-- The container of the task with the id alloc/base/job, whose parts hold no slash, is called
-- base_job_alloc.
pub container_name_lem :
    (alloc base job : Text)
    → Lacks b'/' alloc
    → Lacks b'/' base
    → Lacks b'/' job
    → container_name (task_id alloc base job) ≡ ok (base ++ codes "_" ++ job ++ codes "_" ++ alloc)
unfolding container_name
container_name_lem alloc base job ha hb hj = rw (split_three b'/' alloc base job ha hb hj)

names_apart :
    (alloc base job alloc' base' job' : Text)
    → Lacks b'_' alloc
    → Lacks b'_' alloc'
    → Lacks b'_' job
    → Lacks b'_' job'
    → base ++ codes "_" ++ job ++ codes "_" ++ alloc
      ≡ base' ++ codes "_" ++ job' ++ codes "_" ++ alloc'
    → (alloc ≡ alloc') × (base ≡ base') × (job ≡ job')
unfolding codes
names_apart alloc base job alloc' base' job' ha ha' hj hj' e =
    let (front, back) =
      append-injective_last b'_' _ alloc _ alloc' ha ha'
        (simp append_assoc (simp append_assoc at e)) in
    let (front', back') = append-injective_last b'_' base job base' job' hj hj' front in
    (back, front', back')

-- Where the allocation's and the job's part of the ids hold no underscore and no part holds a
-- slash, tasks whose containers have one name have one id.
pub container_name_injective :
    (alloc base job alloc' base' job' : Text)
    → Lacks b'/' alloc
    → Lacks b'/' base
    → Lacks b'/' job
    → Lacks b'/' alloc'
    → Lacks b'/' base'
    → Lacks b'/' job'
    → Lacks b'_' alloc
    → Lacks b'_' alloc'
    → Lacks b'_' job
    → Lacks b'_' job'
    → container_name (task_id alloc base job) ≡ container_name (task_id alloc' base' job')
    → task_id alloc base job ≡ task_id alloc' base' job'
container_name_injective alloc base job alloc' base' job' a b c a' b' c' ua ua' uj uj' e =
    let (x, y, z) = names_apart alloc base job alloc' base' job' ua ua' uj uj' (
      cc
        (container_name_lem alloc base job a b c, container_name_lem alloc' base' job' a' b' c')) in
    rw (x, y, z)
