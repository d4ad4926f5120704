-- ===== src/Outcome.antt =====
-- Results of Go code: a value, an `error`, or a panic; and code over a state, which an error or a
-- panic leaves as it was written so far.
use nomad_pot_driver.Base.{ℕ, ◌≡◌, ◌⊎◌, inl, inr, refl, Option, none, some, List, ℤ, get_elem?}
use nomad_pot_driver.Text.Split.{Text}

-- What a message of the driver wraps.
pub data Context : Type 0 where
  creating_stdout creating_stderr decoding_config decoding_state setting_state : Context
  creating_container starting_container destroying_container : Context
  setting_env setting_hosts setting_memory : Context
  preparing_signal signalling preparing_command : Context
  opening_tty setting_tty setting_io starting_command getting_pty resizing_tty : Context
  killing_process finished_with : Context

pub data Error : Type 0 where
  -- prepare.go
  args_without_command signal_not_named empty_exec : Error
  -- pot.go
  exec_error pot_exit_code bad_json : Error
  start_exit_code : ℤ → Error
  output : Text → Error
  -- driver.go
  already_started : Text → Error
  task_not_found running_task not_recoverable nil_handle bad_signal empty_command : Error
  signal_exit_code : ℤ → Error
  -- exec_utils.go and what it reads from and writes to
  not_a_terminal : Error
  -- an error of the operating system or of a library, by its text
  system : Text → Error
  -- fmt.Errorf("…: %v", err), for an error and for nil
  wrapped : Context → Error → Error
  wrapped_nil : Context → Error

abbrev pub wrap : Context → Option Error → Error
wrap c none = wrapped_nil c
wrap c (some e) = wrapped c e

pub data Panic : Type 0 where
  index_out_of_range nil_dereference : Panic

pub data Outcome {ℓ} (A : Type ℓ) : Type ℓ where
  panic : Panic → Outcome A
  err : Error → Outcome A
  ok : A → Outcome A

infixl 5 ◌>>=◌
abbrev pub ◌>>=◌ {κ ℓ} : {V : Type κ} {A : Type ℓ} → Outcome A → (A → Outcome V) → Outcome V
panic why >>= next = panic why
err why >>= next = err why
ok got >>= next = next got

abbrev found {ℓ} : {A : Type ℓ} → Option A → Outcome A
found none = panic index_out_of_range
found (some a) = ok a

-- `xs[i]`
abbrev pub index {ℓ} : {A : Type ℓ} → List A → ℕ → Outcome A
index xs i = found (get_elem? xs i)

-- What follows from the last step of a successful sequence follows from the sequence.
pub bind_keeps {κ ι ℓ} :
    {V : Type κ} {Goal : Type ι} {A : Type ℓ} (first : Outcome A) (next : A → Outcome V) {v : V}
    → ((got : A) → next got ≡ ok v → Goal)
    → (first >>= next) ≡ ok v
    → Goal
bind_keeps (panic why) next last whole = cc
bind_keeps (err why) next last whole = cc
bind_keeps (ok got) next last whole = last got whole

pub ok-injective {ℓ} : {A : Type ℓ} {a b : A} → ok a ≡ ok b → a ≡ b
ok-injective h = cc

pub Outcome-cases {ℓ} :
    {A : Type ℓ} (r : Outcome A)
    → ((a : A) × (r ≡ ok a)) ⊎ ((e : Error) × (r ≡ err e)) ⊎ ((p : Panic) × (r ≡ panic p))
Outcome-cases (ok a) = inl (a, refl)
Outcome-cases (err e) = inr (inl (e, refl))
Outcome-cases (panic p) = inr (inr (p, refl))
