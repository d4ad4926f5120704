-- ===== src/Driver/System/Later.antt =====
-- What holds between a state of the driver and every later one.
use nomad_pot_driver.Base.{
  ℕ, zero, suc, ◌≡◌, refl, ap, ◌∙◌, inl, inr, Bool, true, false, some, List, [], ◌∷◌, ◌++◌, length,
  get_elem?, set, arith, if◌then◌else◌, Bool-cases, get_elem?-append_end,
}
use nomad_pot_driver.Text.Split.{Text, text_eq, text_eq_iff}
use nomad_pot_driver.Outcome.{Outcome, ok, err, panic, Error}
use nomad_pot_driver.Machine.{Act, ◌>>=◌, pure, raise, lift, gets, continue}
use nomad_pot_driver.Machine.Keeps.{Keeps}
use nomad_pot_driver.Store.{get, put, delete, get-put, get-delete}
use nomad_pot_driver.Handle.{Handle}
use nomad_pot_driver.Driver.State.{Driver}
use nomad_pot_driver.Driver.Start.Frame.{blank}

-- The store gives each id a handle that exists and whose configuration has this id.
pub record IsValid (d : Driver) : Type 0 where
  pub at :
      (id : Text) (p : ℕ)
      → get d.tasks id ≡ some p
      → (h : Handle) × (get_elem? d.handles p ≡ some h) × (h.task_config.id ≡ id)

-- A handle's configuration is never changed, and its container, once destroyed, stays so.
pub record Kept (h h' : Handle) : Type 0 where
  pub config : h'.task_config ≡ h.task_config
  pub destroyed : h.called_destroy ≡ true → h'.called_destroy ≡ true

abbrev pub KeptAt : List Handle → Handle → ℕ → Type 0
KeptAt hs h p = (h' : Handle) × (get_elem? hs p ≡ some h') × Kept h h'

pub record Later (d d' : Driver) : Type 0 where
  pub handle : (p : ℕ) (h : Handle) → get_elem? d.handles p ≡ some h → KeptAt d'.handles h p
  pub valid : IsValid d → IsValid d'

Kept-refl : (h : Handle) → Kept h h
Kept-refl h = record { config = refl; destroyed = λ e. e }

pub Later-refl : (d : Driver) → Later d d
Later-refl d = record { handle = λ p h e. (h, e, Kept-refl h); valid = λ v. v }

pub Later-trans : {d d' d'' : Driver} → Later d d' → Later d' d'' → Later d d''
Later-trans l m = record {
  handle = λ p h e.
      let (h', e', k) = l.handle p h e in
      let (h'', e'', k') = m.handle p h' e' in
      (
        h'',
        e'',
        record { config = k'.config ∙ k.config; destroyed = λ c. k'.destroyed (k.destroyed c) },
      );
  valid = λ v. m.valid (l.valid v);
}

-- The store is as it was.
Later-same :
    {d d' : Driver}
    → d'.tasks ≡ d.tasks
    → ((p : ℕ) (h : Handle) → get_elem? d.handles p ≡ some h → KeptAt d'.handles h p)
    → Later d d'
Later-same {d} {d'} same handle = record {
  handle = handle;
  valid = λ v. record {
    at = λ id p e.
        let (h, e', i) = v.at id p (rw (← same) e) in
        let (h', e'', k) = handle p h e' in (h', e'', ap (λ c. c.id) k.config ∙ i);
  };
}

pub Later-frame : {d d' : Driver} → d'.tasks ≡ d.tasks → d'.handles ≡ d.handles → Later d d'
Later-frame {d} {d'} tasks handles = Later-same tasks λ p h e. (h, rw handles e, Kept-refl h)

set-KeptAt :
    (hs : List Handle) (p : ℕ) (h h' : Handle)
    → get_elem? hs p ≡ some h
    → Kept h h'
    → (q : ℕ) (g : Handle) → get_elem? hs q ≡ some g
    → KeptAt (set hs p h') g q
set-KeptAt [] p h h' e k q g e' = cc
set-KeptAt (x ∷ hs) zero h h' e k zero g e' =
    (h', refl, record { config = k.config ∙ cc; destroyed = λ c. k.destroyed cc })
set-KeptAt (x ∷ hs) zero h h' e k (suc q) g e' = (g, e', Kept-refl g)
set-KeptAt (x ∷ hs) (suc p) h h' e k zero g e' = (g, e', Kept-refl g)
set-KeptAt (x ∷ hs) (suc p) h h' e k (suc q) g e' = set-KeptAt hs p h h' e k q g e'

pub Later-store :
    (d : Driver) (p : ℕ) (h h' : Handle)
    → get_elem? d.handles p ≡ some h
    → h'.task_config ≡ h.task_config
    → (h.called_destroy ≡ true → h'.called_destroy ≡ true)
    → Later d (record d { handles = set d.handles p h' })
Later-store d p h h' e c f =
    Later-same refl (set-KeptAt d.handles p h h' e (record { config = c; destroyed = f }))

append-KeptAt :
    (hs : List Handle) (h : Handle) (q : ℕ) (g : Handle)
    → get_elem? hs q ≡ some g
    → KeptAt (hs ++ h ∷ []) g q
append-KeptAt [] h q g e = cc
append-KeptAt (x ∷ hs) h zero g e = (g, e, Kept-refl g)
append-KeptAt (x ∷ hs) h (suc q) g e = append-KeptAt hs h q g e

-- A new handle enters the store under its own id.
pub Later-add :
    (d d' : Driver) (h : Handle)
    → d'.tasks ≡ put d.tasks h.task_config.id (length d.handles)
    → d'.handles ≡ d.handles ++ h ∷ []
    → Later d d'
Later-add d d' h tasks handles = record {
  handle = λ p g e. rw handles (append-KeptAt d.handles h p g e);
  valid = λ v. record {
    at = λ id p e. elim (Bool-cases (text_eq h.task_config.id id)) [
      | inl same ↦ (
        h,
        ground (
          arith,
          tasks,
          handles,
          get-put d.tasks h.task_config.id id (length d.handles),
          get_elem?-append_end d.handles h,
        ),
        (text_eq_iff h.task_config.id id).0 same,
      )
      | inr other ↦
          let old : get d.tasks id ≡ some p =
            ground (arith, tasks, get-put d.tasks h.task_config.id id (length d.handles)) in
          let (g, e', i) = v.at id p old in
          let (g', e'', k) = append-KeptAt d.handles h p g e' in
          (g', rw handles e'', ap (λ c. c.id) k.config ∙ i)
    ];
  };
}

pub Later-delete : (d : Driver) (k : Text) → Later d (record d { tasks = delete d.tasks k })
Later-delete d k = record {
  handle = λ p h e. (h, e, Kept-refl h);
  valid = λ v. record { at = λ id p e. v.at id p (ground (arith, get-delete d.tasks k id)) };
}

-- Code that only moves on.
pub record Moves {ℓ} {A : Type ℓ} (m : Act Driver A) : Type ℓ where
  pub at : (d : Driver) → Later d (m d).1

module _ {ℓ} {A : Type ℓ} where
  pub Moves-pure : (a : A) → Moves (pure {S = Driver} a)
  Moves-pure a = record { at = λ d. Later-refl d }

  pub Moves-raise : (e : Error) → Moves (raise {S = Driver} {A = A} e)
  Moves-raise e = record { at = λ d. Later-refl d }

  pub Moves-lift : (r : Outcome A) → Moves (lift {S = Driver} r)
  Moves-lift r = record { at = λ d. Later-refl d }

  pub Moves-gets : (f : Driver → A) → Moves (gets f)
  Moves-gets f = record { at = λ d. Later-refl d }

  pub Moves-if : (b : Bool) (m n : Act Driver A) → Moves m → Moves n → Moves (if b then m else n)
  Moves-if true m n km kn = km
  Moves-if false m n km kn = kn

  pub Moves-Keeps : (m : Act Driver A) → Keeps blank m → Moves m
  Moves-Keeps m k = record {
    at = λ d.
        Later-frame (ap (λ (x : Driver). x.tasks) (k.at d))
          (ap (λ (x : Driver). x.handles) (k.at d));
  }

module _ {ℓ κ} {A : Type ℓ} {B : Type κ} where
  continue-Later :
      (r : Outcome A) (f : A → Act Driver B)
      → ((a : A) → Moves (f a))
      → (d : Driver) → Later d (continue r f d).1
  continue-Later (ok a) f k d = (k a).at d
  continue-Later (err e) f k d = Later-refl d
  continue-Later (panic p) f k d = Later-refl d

  pub Moves-bind :
      (m : Act Driver A) (f : A → Act Driver B)
      → Moves m
      → ((a : A) → Moves (f a))
      → Moves (m >>= f)
  Moves-bind m f km kf = record {
    at = λ d. Later-trans (km.at d) (continue-Later (m d).0 f kf (m d).1);
  }

pub ruleset moves_rules = (Moves-pure, Moves-raise, Moves-lift, Moves-gets, Moves-if, Moves-bind)
