-- ===== src/Prelude/Dict.antt =====
-- `Map` and `Set` in insertion order: an association list, and a list. Proofs elsewhere go by the
-- laws; tests unfold the operations.
use mathlib.Core.Path.{◌≡◌, refl}
use mathlib.Core.Bool.{Bool, true, false, ◌||◌, not, ◌&&◌}
use mathlib.Core.Option.{Option, none, some}
use mathlib.Core.List.{List, [], ◌∷◌, ◌++◌}
use native.Mathlib.Omega.{arith}
use obsidian_air_sync.Prelude.Equality.{Eq, ◌==◌, contains, if◌then◌else◌}

abbrev pub Dict {ℓ κ} : Type ℓ → Type κ → Type (ℓ ⊔ κ)
Dict K V = List (K × V)

module _ {ℓ κ} {K : Type ℓ} {V : Type κ} ⦃e : Eq K⦄ where
  -- `m.get(k)`
  unfoldable pub get : K → Dict K V → Option V
  get k [] = none
  get k ((j, v) ∷ d) = if k == j then some v else get k d

  -- `m.has(k)`
  unfoldable pub has : K → Dict K V → Bool
  has k [] = false
  has k ((j, v) ∷ d) = k == j || has k d

  -- `m.set(k, v)`: the entry of `k` keeps its place.
  unfoldable pub set : K → V → Dict K V → Dict K V
  set k v [] = (k, v) ∷ []
  set k v ((j, w) ∷ d) = if k == j then (k, v) ∷ d else (j, w) ∷ set k v d

  -- `m.delete(k)`
  unfoldable pub delete : K → Dict K V → Dict K V
  delete k [] = []
  delete k ((j, w) ∷ d) = let rest = delete k d in if k == j then rest else (j, w) ∷ rest

  pub get-set :
      (j k : K) (v : V) (d : Dict K V) → get j (set k v d) ≡ (if j == k then some v else get j d)
  unfolding get set
  get-set j k v [] = refl
  get-set j k v (_ ∷ d) = ground (arith, get-set j k v d)

  pub get-delete :
      (j k : K) (d : Dict K V) → get j (delete k d) ≡ (if j == k then none else get j d)
  unfolding get delete
  get-delete j k [] = ground arith
  get-delete j k (_ ∷ d) = ground (arith, get-delete j k d)

  pub has-get : (k : K) (d : Dict K V) → has k d ≡ (elim (get k d) [ none ↦ false | some v ↦ true ])
  unfolding has get
  has-get k [] = refl
  has-get k (_ ∷ d) = ground (arith, has-get k d)

module _ {ℓ} {A : Type ℓ} ⦃e : Eq A⦄ where
  -- `s.add(a)`
  unfoldable pub add : A → List A → List A
  add a [] = a ∷ []
  add a (x ∷ xs) = if a == x then x ∷ xs else x ∷ add a xs

  -- `s.delete(a)`
  unfoldable pub remove : A → List A → List A
  remove a [] = []
  remove a (x ∷ xs) = let rest = remove a xs in if a == x then rest else x ∷ rest

  pub contains-add : (a b : A) (xs : List A) → contains (add a xs) b ≡ (b == a || contains xs b)
  unfolding add
  contains-add a b [] = refl
  contains-add a b (x ∷ xs) = ground (arith, contains-add a b xs)

  pub contains-remove :
      (a b : A) (xs : List A) → contains (remove a xs) b ≡ (not (b == a) && contains xs b)
  unfolding remove
  contains-remove a b [] = ground arith
  contains-remove a b (x ∷ xs) = ground (arith, contains-remove a b xs)

  pub contains-append :
      (b : A) (xs ys : List A) → contains (xs ++ ys) b ≡ (contains xs b || contains ys b)
  contains-append b [] ys = refl
  contains-append b (x ∷ xs) ys = ground (arith, contains-append b xs ys)
