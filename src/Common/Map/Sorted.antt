-- ===== src/Common/Map/Sorted.antt =====
-- The entries of a `BTreeMap` stand in the order of their keys, and inserting keeps them so.
use ahead.Common.{Ordering, ◌≡◌, refl, List, [], ◌∷◌, none, arith, All}
use ahead.Common.Order.{Ord}
use ahead.Common.Map.{lookup, insert}

module _ {ℓ} {K : Type 0} ⦃o : Ord K⦄ {V : Type ℓ} where
  abbrev pub Below : K → List (K × V) → Type 0
  Below k m = All (λ e. o.cmp k e.0 ≡ Ordering.lt) m

  abbrev pub IsSorted : List (K × V) → Type 0
  IsSorted [] = Unit
  IsSorted ((k, v) ∷ m) = Below k m × IsSorted m

  Below-trans : (j k : K) (m : List (K × V)) → o.cmp j k ≡ Ordering.lt → Below k m → Below j m
  Below-trans j k [] h b = tt
  Below-trans j k ((i, v) ∷ m) h b = (o.cmp_trans j k i h b.0, Below-trans j k m h b.1)

  Below-insert :
      (j k : K) (v : V) (m : List (K × V))
      → o.cmp j k ≡ Ordering.lt
      → Below j m
      → Below j (insert k v m)
  unfolding insert
  Below-insert j k v [] h b = (h, tt)
  Below-insert j k v ((i, w) ∷ m) h b = go (Below-insert j k v m h b.1) (o.cmp k i) refl
    where
      go :
          Below j (insert k v m)
          → (c : Ordering) → o.cmp k i ≡ c
          → Below j (insert k v ((i, w) ∷ m))
      go ih Ordering.lt e = rw (e, insert) (h, b)
      go ih Ordering.eq e = rw (e, insert) (h, b.1)
      go ih Ordering.gt e = rw (e, insert) (b.0, ih)

  pub insert-IsSorted : (k : K) (v : V) (m : List (K × V)) → IsSorted m → IsSorted (insert k v m)
  unfolding insert
  insert-IsSorted k v [] s = (tt, tt)
  insert-IsSorted k v ((i, w) ∷ m) s = go (insert-IsSorted k v m s.1) (o.cmp k i) refl
    where
      go :
          IsSorted (insert k v m)
          → (c : Ordering) → o.cmp k i ≡ c
          → IsSorted (insert k v ((i, w) ∷ m))
      go ih Ordering.lt e = rw (e, insert) ((e, Below-trans k i m e s.0), s)
      go ih Ordering.eq e = let same_key = o.cmp_eq k i e in rw (e, insert) ((rw same_key s.0), s.1)
      go ih Ordering.gt e = rw (e, insert) (Below-insert i k v m (rw (o.cmp_swap k i, e)) s.0, ih)

  -- A key below every entry is not there.
  pub lookup-Below : (k : K) (m : List (K × V)) → Below k m → lookup k m ≡ none
  unfolding lookup
  lookup-Below k [] b = refl
  lookup-Below k ((j, v) ∷ m) b = ground (arith, b.0, lookup-Below k m b.1)
