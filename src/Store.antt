-- ===== src/Store.antt =====
-- state.go: the task store. The order of a Go map's entries is never read here.
use nomad_pot_driver.Base.{◌≡◌, refl, Option, none, some, List, [], ◌∷◌, arith, if◌then◌else◌}
use nomad_pot_driver.Text.Split.{Text, text_eq, text_eq_iff, text_eq_refl}

abbrev pub Store {ℓ} : Type ℓ → Type ℓ
Store V = List (Text × V)

module _ {ℓ} {V : Type ℓ} where
  -- newTaskStore
  abbrev pub new_store : Store V
  new_store = []

  unfoldable pub get : Store V → Text → Option V
  get [] id = none
  get ((i, v) ∷ s) id = if text_eq i id then some v else get s id

  unfoldable pub put : Store V → Text → V → Store V
  put [] id v = (id, v) ∷ []
  put ((i, w) ∷ s) id v = if text_eq i id then (id, v) ∷ s else (i, w) ∷ put s id v

  unfoldable pub delete : Store V → Text → Store V
  delete [] id = []
  delete ((i, w) ∷ s) id = let rest = delete s id in if text_eq i id then rest else (i, w) ∷ rest

  -- After a Set, Get of the same id gives the new value, and of any other id what it gave before.
  pub get-put :
      (s : Store V) (k j : Text) (v : V)
      → get (put s k v) j ≡ (if text_eq k j then some v else get s j)
  unfolding get put
  get-put [] k j v = refl
  get-put ((i, w) ∷ s) k j v =
      ground (arith, text_eq_iff k j, text_eq_iff i k, text_eq_iff i j, get-put s k j v)

  -- After a Delete, Get of the id finds nothing, and Get of any other id gives what it gave before.
  pub get-delete :
      (s : Store V) (k j : Text) → get (delete s k) j ≡ (if text_eq k j then none else get s j)
  unfolding get delete
  get-delete [] k j = ground arith
  get-delete ((i, w) ∷ s) k j =
      ground (arith, text_eq_iff k j, text_eq_iff i k, text_eq_iff i j, get-delete s k j)

  pub get-put_self : (s : Store V) (k : Text) (v : V) → get (put s k v) k ≡ some v
  get-put_self s k v = rw (get-put s k k v, text_eq_refl k)
