-- ===== src/Machine/Keeps.antt =====
-- What code leaves as it was, one rule for each way to build code.
use nomad_pot_driver.Base.{◌≡◌, ◌⊎◌, inl, inr, refl, ◌∙◌, Bool, true, false, if◌then◌else◌}
use nomad_pot_driver.Outcome.{Outcome, ok, err, panic, Error}
use nomad_pot_driver.Types.{Syexec}
use nomad_pot_driver.Machine.{Pot, with_se, Act, ◌>>=◌, pure, raise, lift, gets, continue}

-- `m` leaves a part of the state as it was, whatever its result.
pub record Keeps {ℓ κ ι} {S : Type ℓ} {V : Type κ} {A : Type ι} (view : S → V) (m : Act S A)
    : Type (ℓ ⊔ κ) where
  pub at : (s : S) → view (m s).1 ≡ view s

module _ {ℓ κ ι} {S : Type ℓ} {V : Type κ} {A : Type ι} {view : S → V} where
  pub Keeps-pure : (a : A) → Keeps view (pure {S = S} a)
  Keeps-pure a = record { at = λ s. refl }

  pub Keeps-raise : (e : Error) → Keeps view (raise {S = S} {A = A} e)
  Keeps-raise e = record { at = λ s. refl }

  pub Keeps-lift : (r : Outcome A) → Keeps view (lift {S = S} r)
  Keeps-lift r = record { at = λ s. refl }

  pub Keeps-gets : (f : S → A) → Keeps view (gets f)
  Keeps-gets f = record { at = λ s. refl }

  pub Keeps-if :
      (b : Bool) (m n : Act S A) → Keeps view m → Keeps view n → Keeps view (if b then m else n)
  Keeps-if true m n km kn = km
  Keeps-if false m n km kn = kn

pub Keeps-with_se {ℓ κ} :
    {V : Type ℓ} {A : Type κ} {view : Pot → V} (f : Syexec → Act Pot A)
    → ((se : Syexec) → Keeps view (f se))
    → Keeps view (with_se f)
Keeps-with_se f k = record { at = λ s. (k s.se).at s }

module _ {ℓ κ ι ν} {S : Type ℓ} {V : Type κ} {A : Type ι} {B : Type ν} {view : S → V} where
  continue-view :
      (r : Outcome A) (f : A → Act S B)
      → ((a : A) → Keeps view (f a))
      → (s : S) → view (continue r f s).1 ≡ view s
  continue-view (ok a) f k s = (k a).at s
  continue-view (err e) f k s = refl
  continue-view (panic p) f k s = refl

  pub Keeps-bind :
      (m : Act S A) (f : A → Act S B)
      → Keeps view m
      → ((a : A) → Keeps view (f a))
      → Keeps view (m >>= f)
  Keeps-bind m f km kf = record { at = λ s. continue-view (m s).0 f kf (m s).1 ∙ km.at s }

pub ruleset keeps_rules =
    (Keeps-pure, Keeps-raise, Keeps-lift, Keeps-gets, Keeps-if, Keeps-bind, Keeps-with_se)

abbrev pub Fails {ℓ} : {A : Type ℓ} → Outcome A → Type 0
Fails (ok a) = ⊥
Fails _ = Unit

-- `m` comes, with a view kept, to a state from which its result is as `Q` says, or fails with the
-- view kept.
pub record Reaches {ℓ κ ι ν} {S : Type ℓ} {V : Type κ} {A : Type ι} (view : S → V)
    (Q : S → Outcome A × S → Type ν) (m : Act S A) : Type (ℓ ⊔ κ ⊔ ν) where
  pub at :
      (s : S)
      → ((t : S) × (view t ≡ view s) × Q t (m s)) ⊎ (Fails (m s).0 × (view (m s).1 ≡ view s))

module _ {ℓ κ ι ν μ} {S : Type ℓ} {V : Type κ} {A : Type ι} {B : Type ν} {view : S → V}
    {Q : S → Outcome B × S → Type μ} where
  reach :
      (r : Outcome A) (f : A → Act S B)
      → ((a : A) → Reaches view Q (f a))
      → (s t : S) → view t ≡ view s
      → ((u : S) × (view u ≡ view s) × Q u (continue r f t))
        ⊎ (Fails (continue r f t).0 × (view (continue r f t).1 ≡ view s))
  reach (ok a) f k s t h = elim ((k a).at t) [
    | inl (u, h', q) ↦ inl (u, h' ∙ h, q)
    | inr (failed, h') ↦ inr (failed, h' ∙ h)
  ]
  reach (err e) f k s t h = inr (tt, h)
  reach (panic p) f k s t h = inr (tt, h)

  pub Reaches-bind :
      (m : Act S A) (f : A → Act S B)
      → Keeps view m
      → ((a : A) → Reaches view Q (f a))
      → Reaches view Q (m >>= f)
  Reaches-bind m f km kf = record { at = λ s. reach (m s).0 f kf s (m s).1 (km.at s) }
