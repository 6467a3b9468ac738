-- ===== src/Common/Sort.antt =====
-- `sort_by`: a stable sort, by insertion.
pub mod Sorted
use ahead.Common.{Ordering, List, [], ◌∷◌}

module _ {ℓ} {A : Type ℓ} (cmp : A → A → Ordering) where
  unfoldable pub sort_insert : A → List A → List A
  sort_insert a [] = a ∷ []
  sort_insert a (x ∷ xs) = elim (cmp a x) [ Ordering.gt ↦ x ∷ sort_insert a xs | _ ↦ a ∷ x ∷ xs ]

  unfoldable pub sort_by : List A → List A
  sort_by [] = []
  sort_by (x ∷ xs) = sort_insert x (sort_by xs)
