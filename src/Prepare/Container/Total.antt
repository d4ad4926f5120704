-- ===== src/Prepare/Container/Total.antt =====
-- For which tasks prepareContainer succeeds.
use nomad_pot_driver.Base.{
  ℕ, zero, suc, ◌+◌, ◌≤◌, ◌≡◌, ◌≢◌, ◌↔◌, ◌⊎◌, inl, inr, refl, List, [], ◌∷◌, ◌++◌, arith, ◌==◌,
  if◌then◌else◌, All, length,
}
use nomad_pot_driver.Text.Split.{Text, codes, split, split_two, cons_head, text_eq}
use nomad_pot_driver.Outcome.{Outcome, ok, err, panic, args_without_command, index, ◌>>=◌}
use nomad_pot_driver.Types.{NomadConfig, TaskConfig, Syexec, Libs}
use nomad_pot_driver.Prepare.Container.{
  is_empty, add_args, full_command, each, copy_entry, mount_entry, mount_read_only_entry,
  attribute_entry, prepare_named, prepare_container,
}

-- How often a code point occurs.
abbrev pub count : ℕ → Text → ℕ
count sep [] = 0
count sep (c ∷ s) = (if c == sep then 1 else 0) + count sep s

length-cons_head : (c : ℕ) (ps : List Text) → 1 ≤ length ps → length (cons_head c ps) ≡ length ps
length-cons_head c [] h = absurd (omega arith)
length-cons_head c (p ∷ ps) h = refl

length-split : (s : Text) (sep : ℕ) → length (split s sep) ≡ suc (count sep s)
unfolding split
length-split [] sep = refl
length-split (c ∷ s) sep = ground (arith, length-split s sep, length-cons_head c (split s sep))

-- SplitN makes two parts if the separator occurs, and one otherwise.
length-split_two :
    (s : Text) (sep : ℕ) → length (split_two s sep) ≡ (if count sep s == 0 then 1 else 2)
unfolding split_two
length-split_two [] sep = refl
length-split_two (c ∷ s) sep =
    ground (arith, length-split_two s sep, length-cons_head c (split_two s sep))

abbrev IsOk {ℓ} : {A : Type ℓ} → Outcome A → Type 0
IsOk (ok a) = Unit
IsOk _ = ⊥

IsOk-value {ℓ} : {A : Type ℓ} (r : Outcome A) → IsOk r ↔ ((a : A) × (r ≡ ok a))
IsOk-value (ok a) = (λ _. (a, refl), λ _. tt)
IsOk-value (err e) = (λ h. absurd h, λ h. cc)
IsOk-value (panic p) = (λ h. absurd h, λ h. cc)

IsOk-index {ℓ} : {A : Type ℓ} (xs : List A) (i : ℕ) → IsOk (index xs i) ↔ (suc i ≤ length xs)
IsOk-index [] i = (λ h. absurd h, λ h. absurd (omega arith))
IsOk-index (x ∷ xs) zero = (λ _. omega arith, λ _. tt)
IsOk-index (x ∷ xs) (suc i) =
    let rest = IsOk-index xs i in (λ h. omega (arith, rest.0 h), λ h. rest.1 (omega arith))

-- A sequence succeeds if both steps do.
IsOk-bind {ℓ κ} :
    {A : Type ℓ} {B : Type κ} {P Q : Type 0} (m : Outcome A) (f : A → Outcome B)
    → IsOk m ↔ P
    → ((a : A) → IsOk (f a) ↔ Q)
    → IsOk (m >>= f) ↔ (P × Q)
IsOk-bind (ok a) f p q = (λ h. (p.0 tt, (q a).0 h), λ h. (q a).1 h.1)
IsOk-bind (err e) f p q = (λ h. absurd h, λ h. p.1 h.0)
IsOk-bind (panic e) f p q = (λ h. absurd h, λ h. p.1 h.0)

IsOk-map {ℓ κ} :
    {A : Type ℓ} {B : Type κ} {P : Type 0} (m : Outcome A) (g : A → B)
    → IsOk m ↔ P
    → IsOk (m >>= λ a. ok (g a)) ↔ P
IsOk-map (ok a) g p = p
IsOk-map (err e) g p = p
IsOk-map (panic e) g p = p

IsOk-each :
    {P : Text → Type 0} (f : Text → Outcome Text) (xs : List Text)
    → ((x : Text) → IsOk (f x) ↔ P x)
    → IsOk (each f xs) ↔ All P xs
unfolding each
IsOk-each f [] k = (λ _. tt, λ _. tt)
IsOk-each {P} f (x ∷ xs) k =
    IsOk-bind {P = P x} {Q = All P xs} (f x) _ (k x)
      λ command. IsOk-map (each f xs) (λ commands. command ∷ commands) (IsOk-each f xs k)

-- An entry of two parts.
IsOk-two :
    (parts : List Text) (g : Text → Text → Text)
    → IsOk (index parts 0 >>= λ a. index parts 1 >>= λ b. ok (g a b)) ↔ (2 ≤ length parts)
IsOk-two [] g = (λ h. absurd h, λ h. absurd (omega arith))
IsOk-two (a ∷ []) g = (λ h. absurd h, λ h. absurd (omega arith))
IsOk-two (a ∷ b ∷ ps) g = (λ h. omega arith, λ h. tt)

-- The entry holds a colon.
abbrev pub HasColon : Text → Type 0
HasColon entry = 1 ≤ count b':' entry

two_parts : (s : Text) {T : Type 0} → T ↔ (2 ≤ length (split s b':')) → T ↔ HasColon s
two_parts s h =
    let l = length-split s b':' in (λ t. omega (arith, h.0 t, l), λ c. h.1 (omega (arith, c, l)))

two_parts_of_two : (s : Text) {T : Type 0} → T ↔ (2 ≤ length (split_two s b':')) → T ↔ HasColon s
two_parts_of_two s h =
    let l = length-split_two s b':' in
    (λ t. ground (arith, h.0 t, l), λ c. h.1 (ground (arith, c, l)))

-- A task that prepareContainer accepts: its arguments come with a command, its id has three parts,
-- and each entry of a list of pairs holds a colon.
pub record IsReady (cfg : NomadConfig) (task : TaskConfig) : Type 0 where
  pub command : (task.args ≡ []) ⊎ (task.command ≢ [])
  pub id : 2 ≤ count b'/' cfg.id
  pub copy : All HasColon task.copy
  pub mount : All HasColon task.mount
  pub mount_read_only : All HasColon task.mount_read_only
  pub attributes : All HasColon task.attributes

IsOk-command :
    (args : List Text) (command full : Text)
    → IsOk (
        if is_empty args
        then ok command
        else if text_eq command (codes "")
        then err args_without_command
        else ok full)
      ↔ ((args ≡ []) ⊎ (command ≢ []))
unfolding text_eq codes
IsOk-command [] command full = (λ _. inl refl, λ _. tt)
IsOk-command (x ∷ xs) [] full =
    (λ h. absurd h, λ h. elim h [ inl e ↦ cc | inr e ↦ absurd (e refl) ])
IsOk-command (x ∷ xs) (c ∷ command) full = (λ _. inr (λ e. cc), λ _. tt)

IsOk-full_command :
    (task : TaskConfig) → IsOk (full_command task) ↔ ((task.args ≡ []) ⊎ (task.command ≢ []))
unfolding full_command
IsOk-full_command task = IsOk-command task.args task.command (add_args task.command task.args)

module _ (lib : Libs) where
  IsOk-copy_entry : (name entry : Text) → IsOk (copy_entry lib name entry) ↔ HasColon entry
  unfolding copy_entry
  IsOk-copy_entry name entry = two_parts_of_two entry (IsOk-two (split_two entry b':') _)

  IsOk-mount_entry : (name entry : Text) → IsOk (mount_entry lib name entry) ↔ HasColon entry
  unfolding mount_entry
  IsOk-mount_entry name entry = two_parts entry (IsOk-two (split entry b':') _)

  IsOk-mount_read_only_entry :
      (name entry : Text) → IsOk (mount_read_only_entry lib name entry) ↔ HasColon entry
  unfolding mount_read_only_entry
  IsOk-mount_read_only_entry name entry = two_parts entry (IsOk-two (split entry b':') _)

  IsOk-attribute_entry :
      (name entry : Text) → IsOk (attribute_entry lib name entry) ↔ HasColon entry
  unfolding attribute_entry
  IsOk-attribute_entry name entry = two_parts entry (IsOk-two (split entry b':') _)

  abbrev Entries : TaskConfig → Type 0
  Entries task =
      All HasColon task.copy
      × (All HasColon task.mount
          × (All HasColon task.mount_read_only × All HasColon task.attributes))

  IsOk-prepare_named :
      (cfg : NomadConfig) (task : TaskConfig) (command base job_alloc : Text)
      → IsOk (prepare_named lib cfg task command base job_alloc) ↔ Entries task
  unfolding prepare_named
  IsOk-prepare_named cfg task command base job_alloc =
      let name = base ++ codes "_" ++ job_alloc in
      IsOk-bind _ _ (IsOk-each _ task.copy (IsOk-copy_entry name)) λ copies.
        IsOk-bind _ _ (IsOk-each _ task.mount (IsOk-mount_entry name)) λ mounts.
          IsOk-bind _ _ (IsOk-each _ task.mount_read_only (IsOk-mount_read_only_entry name))
            λ read_only.
              IsOk-map (each (attribute_entry lib name) task.attributes) _
                (IsOk-each _ task.attributes (IsOk-attribute_entry name))

  IsOk-prepare_container :
      (cfg : NomadConfig) (task : TaskConfig)
      → IsOk (prepare_container lib cfg task) ↔ (
          ((task.args ≡ []) ⊎ (task.command ≢ []))
          × ((2 ≤ length (split cfg.id b'/'))
              × ((3 ≤ length (split cfg.id b'/'))
                  × ((1 ≤ length (split cfg.id b'/')) × Entries task))))
  unfolding prepare_container
  IsOk-prepare_container cfg task =
      let parts = split cfg.id b'/' in
      IsOk-bind _ _ (IsOk-full_command task) λ command. IsOk-bind _ _ (IsOk-index parts 1) λ base.
        IsOk-bind _ _ (IsOk-index parts 2) λ job.
          IsOk-bind _ _ (IsOk-index parts 0) λ alloc. IsOk-prepare_named cfg task command base _

  -- prepareContainer succeeds for exactly the tasks whose arguments, if any, come with a command,
  -- whose id holds two slashes or more, and whose entries in copy, mount, mount_read_only and
  -- attributes each hold a colon.
  pub prepare_container-IsReady :
      (cfg : NomadConfig) (task : TaskConfig)
      → ((se : Syexec) × (prepare_container lib cfg task ≡ ok se)) ↔ IsReady cfg task
  prepare_container-IsReady cfg task =
      let parts = length-split cfg.id b'/' in
      let value = IsOk-value (prepare_container lib cfg task) in
      let ready = IsOk-prepare_container cfg task in
      (
        λ h.
            let (command, (_, (three, (_, (copy, (mount, (read_only, attributes))))))) =
              ready.0 (value.1 h) in
            record {
              command = command;
              id = omega (arith, three, parts);
              copy = copy;
              mount = mount;
              mount_read_only = read_only;
              attributes = attributes;
            },
        λ r. value.0 (
            ready.1 (
              r.command,
              (
                omega (arith, r.id, parts),
                (
                  omega (arith, r.id, parts),
                  (omega (arith, parts), (r.copy, (r.mount, (r.mount_read_only, r.attributes)))),
                ),
              ),
            )),
      )
