-- ===== src/Common/Sort/Sorted.antt =====
-- `sort_by` puts a list in order, and leaves one that is.
use ahead.Common.{Ordering, ◌≡◌, ◌≢◌, refl, ap, ◌∙◌, List, [], ◌∷◌, All, All-map, arith}
use ahead.Common.Order.{swap}
use ahead.Common.Sort.{sort_insert, sort_by}

module _ {A : Type 0} (cmp : A → A → Ordering) where
  abbrev pub Le : A → A → Type 0
  Le a b = cmp a b ≢ Ordering.gt

  -- Each element is at most every one after it.
  abbrev pub IsOrdered : List A → Type 0
  IsOrdered [] = Unit
  IsOrdered (x ∷ xs) = All (Le x) xs × IsOrdered xs

  sort_insert-first : (a : A) (xs : List A) → All (Le a) xs → sort_insert cmp a xs ≡ a ∷ xs
  unfolding sort_insert
  sort_insert-first a [] b = refl
  sort_insert-first a (x ∷ xs) b = go (cmp a x) refl
    where
      go : (c : Ordering) → cmp a x ≡ c → sort_insert cmp a (x ∷ xs) ≡ a ∷ x ∷ xs
      go Ordering.lt e = rw (e, sort_insert) refl
      go Ordering.eq e = rw (e, sort_insert) refl
      go Ordering.gt e = absurd (b.0 e)

  pub sort_by-same : (xs : List A) → IsOrdered xs → sort_by cmp xs ≡ xs
  unfolding sort_by
  sort_by-same [] s = refl
  sort_by-same (x ∷ xs) s =
      ap (sort_insert cmp x) (sort_by-same xs s.1) ∙ sort_insert-first x xs s.0

  sort_insert-All :
      (P : A → Type 0) (a : A) (xs : List A) → P a → All P xs → All P (sort_insert cmp a xs)
  unfolding sort_insert
  sort_insert-All P a [] p h = (p, tt)
  sort_insert-All P a (x ∷ xs) p h = go (sort_insert-All P a xs p h.1) (cmp a x) refl
    where
      go :
          All P (sort_insert cmp a xs)
          → (c : Ordering) → cmp a x ≡ c
          → All P (sort_insert cmp a (x ∷ xs))
      go ih Ordering.lt e = rw (e, sort_insert) (p, h)
      go ih Ordering.eq e = rw (e, sort_insert) (p, h)
      go ih Ordering.gt e = rw (e, sort_insert) (h.0, ih)

  module _ (swapped : (a b : A) → cmp b a ≡ swap (cmp a b))
      (trans : (a b c : A) → Le a b → Le b c → Le a c) where
    sort_insert-IsOrdered : (a : A) (xs : List A) → IsOrdered xs → IsOrdered (sort_insert cmp a xs)
    unfolding sort_insert
    sort_insert-IsOrdered a [] s = (tt, tt)
    sort_insert-IsOrdered a (x ∷ xs) s = go (sort_insert-IsOrdered a xs s.1) (cmp a x) refl
      where
        all_later : Le a x → All (Le a) (x ∷ xs)
        all_later h = (h, All-map (Le x) (Le a) (λ y k. trans a x y h k) xs s.0)

        go :
            IsOrdered (sort_insert cmp a xs)
            → (c : Ordering) → cmp a x ≡ c
            → IsOrdered (sort_insert cmp a (x ∷ xs))
        go ih Ordering.lt e =
            rw (e, sort_insert) (all_later (λ h. absurd (ground (arith, e, h))), s)
        go ih Ordering.eq e =
            rw (e, sort_insert) (all_later (λ h. absurd (ground (arith, e, h))), s)
        go ih Ordering.gt e =
            rw (e, sort_insert)
              (
                sort_insert-All (Le x) a xs (λ h. absurd (ground (arith, e, h, swapped a x))) s.0,
                ih,
              )

    pub sort_by-IsOrdered : (xs : List A) → IsOrdered (sort_by cmp xs)
    unfolding sort_by
    sort_by-IsOrdered [] = tt
    sort_by-IsOrdered (x ∷ xs) = sort_insert-IsOrdered x (sort_by cmp xs) (sort_by-IsOrdered xs)
