-- ===== src/Base/HashMap.antt =====
-- `HashMap<K, V>` as an association list. The order of the list stands for the unspecified
-- iteration order; `Distinct` says that a key occurs once, as in every real table.
use dcontext.Base.Logic.{PartialEq, ◌==◌, if◌then◌else◌}
use dcontext.Base.Results.{or_else}
use mathlib.Core.Path.{◌≡◌, refl}
use mathlib.Core.Bool.{Bool, true, false}
use mathlib.Core.Option.{Option, none, some}
use mathlib.Core.List.{List, [], ◌∷◌}
use native.Mathlib.Omega.{arith}

abbrev pub HashMap {ℓ κ} : Type ℓ → Type κ → Type (ℓ ⊔ κ)
HashMap K V = List (K × V)

module _ {ℓ κ} {K : Type ℓ} {V : Type κ} where
  abbrev pub is_empty : HashMap K V → Bool
  is_empty [] = true
  is_empty (e ∷ m) = false

  -- `into_iter().filter(…).collect()`.
  unfoldable pub filter : (K → V → Bool) → HashMap K V → HashMap K V
  filter p [] = []
  filter p ((k, v) ∷ m) = let rest = filter p m in if p k v then (k, v) ∷ rest else rest

module _ {ℓ κ} {K : Type ℓ} {V : Type κ} ⦃e : PartialEq K⦄ where
  unfoldable pub get : K → HashMap K V → Option V
  get k [] = none
  get k ((j, v) ∷ m) = if j == k then some v else get k m

  unfoldable pub insert : K → V → HashMap K V → HashMap K V
  insert k v [] = (k, v) ∷ []
  insert k v ((j, w) ∷ m) = if j == k then (j, v) ∷ m else (j, w) ∷ insert k v m

  -- `entry(k).or_insert_with(|| v)`.
  unfoldable pub or_insert : K → V → HashMap K V → HashMap K V
  or_insert k v [] = (k, v) ∷ []
  or_insert k v ((j, w) ∷ m) = if j == k then (j, w) ∷ m else (j, w) ∷ or_insert k v m

  -- `for (k, v) in source { target.insert(k, v) }`, which is also `extend`.
  unfoldable pub extend : HashMap K V → HashMap K V → HashMap K V
  extend target [] = target
  extend target ((k, v) ∷ source) = extend (insert k v target) source

  -- `for (k, v) in source { target.entry(k).or_insert_with(|| v) }`.
  unfoldable pub extend_missing : HashMap K V → HashMap K V → HashMap K V
  extend_missing target [] = target
  extend_missing target ((k, v) ∷ source) = extend_missing (or_insert k v target) source

  abbrev pub Distinct : HashMap K V → Type κ
  Distinct [] = Unit
  Distinct ((k, v) ∷ m) = (get k m ≡ none) × Distinct m

  pub get-insert :
      (j k : K) (v : V) (m : HashMap K V)
      → get j (insert k v m) ≡ (if k == j then some v else get j m)
  unfolding get insert
  get-insert j k v [] = refl
  get-insert j k v ((i, w) ∷ m) =
      ground (arith, e.same_iff k j, e.same_iff i k, e.same_iff i j, get-insert j k v m)

  pub get-or_insert :
      (j k : K) (v : V) (m : HashMap K V)
      → get j (or_insert k v m) ≡ or_else (get j m) (if k == j then some v else none)
  unfolding get or_insert
  get-or_insert j k v [] = refl
  get-or_insert j k v ((i, w) ∷ m) =
      ground (arith, e.same_iff k j, e.same_iff i k, e.same_iff i j, get-or_insert j k v m)

  pub get-extend_missing :
      (j : K) (target source : HashMap K V)
      → get j (extend_missing target source) ≡ or_else (get j target) (get j source)
  unfolding get extend_missing
  get-extend_missing j target [] = ground arith
  get-extend_missing j target ((k, v) ∷ source) =
      ground (arith, get-extend_missing j (or_insert k v target) source, get-or_insert j k v target)

  -- The last write wins, so a map read out in any order is found again.
  pub get-extend :
      (j : K) (target source : HashMap K V)
      → Distinct source
      → get j (extend target source) ≡ or_else (get j source) (get j target)
  unfolding get extend
  get-extend j target [] d = refl
  get-extend j target ((k, v) ∷ source) d =
      ground
        (arith, get-extend j (insert k v target) source, get-insert j k v target, e.same_iff k j)

  pub get-filter :
      (p : K → V → Bool) (j : K) (m : HashMap K V)
      → Distinct m
      → get j (filter p m)
        ≡ elim (get j m) [ none ↦ none | some v ↦ if p j v then some v else none ]
  unfolding get filter
  get-filter p j [] d = refl
  get-filter p j ((k, v) ∷ m) d = ground (arith, get-filter p j m, e.same_iff k j)

  pub insert-Distinct : (k : K) (v : V) (m : HashMap K V) → Distinct m → Distinct (insert k v m)
  unfolding get insert
  insert-Distinct k v [] d = (refl, tt)
  insert-Distinct k v ((i, w) ∷ m) d =
      ground (arith, e.same_iff i k, e.same_iff k i, get-insert i k v m, insert-Distinct k v m)

  pub extend-Distinct :
      (target source : HashMap K V) → Distinct target → Distinct (extend target source)
  unfolding extend
  extend-Distinct target [] d = d
  extend-Distinct target ((k, v) ∷ source) d =
      extend-Distinct (insert k v target) source (insert-Distinct k v target d)

  pub filter-Distinct : (p : K → V → Bool) (m : HashMap K V) → Distinct m → Distinct (filter p m)
  unfolding get filter
  filter-Distinct p [] d = tt
  filter-Distinct p ((k, v) ∷ m) d = ground (arith, filter-Distinct p m, get-filter p k m)

  or_insert-Distinct : (k : K) (v : V) (m : HashMap K V) → Distinct m → Distinct (or_insert k v m)
  unfolding get or_insert
  or_insert-Distinct k v [] d = (refl, tt)
  or_insert-Distinct k v ((i, w) ∷ m) d =
      ground
        (arith, e.same_iff i k, e.same_iff k i, get-or_insert i k v m, or_insert-Distinct k v m)

  pub extend_missing-Distinct :
      (target source : HashMap K V) → Distinct target → Distinct (extend_missing target source)
  unfolding extend_missing
  extend_missing-Distinct target [] d = d
  extend_missing-Distinct target ((k, v) ∷ source) d =
      extend_missing-Distinct (or_insert k v target) source (or_insert-Distinct k v target d)

  -- A table rebuilt entry by entry, as `collect` does.
  pub get-extend_nil :
      (j : K) (source : HashMap K V) → Distinct source → get j (extend [] source) ≡ get j source
  unfolding get
  get-extend_nil j source d = ground (arith, get-extend j [] source d)
