-- ===== src/Common/Map.antt =====
-- `BTreeMap` and `BTreeSet`: the entries in the order of their keys.
pub mod Sorted
pub mod Joined
pub mod Strict
use ahead.Common.{
  Ordering, ◌≡◌, refl, Bool, List, [], ◌∷◌, Option, none, some, arith, is_some, if◌then◌else◌,
}
use ahead.Common.Order.{Ord, same, same_iff}

module _ {ℓ} {K : Type 0} ⦃o : Ord K⦄ {V : Type ℓ} where
  unfoldable pub lookup : K → List (K × V) → Option V
  lookup k [] = none
  lookup k ((j, v) ∷ m) = if same k j then some v else lookup k m

  unfoldable pub insert : K → V → List (K × V) → List (K × V)
  insert k v [] = (k, v) ∷ []
  insert k v ((j, w) ∷ m) = elim (o.cmp k j) [
    | Ordering.lt ↦ (k, v) ∷ (j, w) ∷ m
    | Ordering.eq ↦ (k, v) ∷ m
    | Ordering.gt ↦ (j, w) ∷ insert k v m
  ]

  unfoldable pub remove : K → List (K × V) → List (K × V)
  remove k [] = []
  remove k ((j, w) ∷ m) = if same k j then m else (j, w) ∷ remove k m

  abbrev pub contains_key : K → List (K × V) → Bool
  contains_key k m = is_some (lookup k m)

  abbrev pub keys : List (K × V) → List K
  keys [] = []
  keys ((k, v) ∷ m) = k ∷ keys m

  abbrev pub values : List (K × V) → List V
  values [] = []
  values ((k, v) ∷ m) = v ∷ values m

  pub lookup-insert :
      (j k : K) (v : V) (m : List (K × V))
      → lookup j (insert k v m) ≡ (if same j k then some v else lookup j m)
  unfolding lookup insert
  lookup-insert j k v [] = refl
  lookup-insert j k v ((i, w) ∷ m) = ground (
    arith,
    lookup-insert j k v m,
    same_iff j k,
    same_iff j i,
    o.cmp_eq k i,
    o.cmp_refl j,
    o.cmp_swap k i,
  )
