-- ===== src/Common/Map/Strict.antt =====
-- Texts in strict order, as the keys of a map stand.
use ahead.Common.{
  All, All-Holds, inl, inr, sym, ap, ◌∙◌, Ordering, ◌≡◌, ◌↔◌, refl, List, [], ◌∷◌, arith, Holds,
}
use ahead.Common.Text.{Text}
use ahead.Common.Map.{keys}
use ahead.Common.Map.Sorted.{IsSorted, Below}
use ahead.Common.Order.{text_ord, lex, lex_refl}

-- Each text stands before all those after it.
abbrev pub Strict : List Text → Type 0
Strict [] = Unit
Strict (x ∷ xs) = All (λ y. lex x y ≡ Ordering.lt) xs × Strict xs

pub keys-Strict : {V : Type 0} (m : List (Text × V)) → IsSorted m → Strict (keys m)
keys-Strict [] s = tt
keys-Strict {V} ((k, v) ∷ m) (b, s) = (go m b, keys-Strict m s)
  where
    go : (m : List (Text × V)) → Below k m → All (λ y. lex k y ≡ Ordering.lt) (keys m)
    go [] b = tt
    go ((j, w) ∷ m) b = (b.0, go m b.1)

head_first :
    (x y : Text) (xs ys : List Text)
    → Strict (x ∷ xs)
    → Strict (y ∷ ys)
    → Holds x (y ∷ ys)
    → Holds y (x ∷ xs)
    → x ≡ y
head_first x y xs ys s t (inl e) n = e
head_first x y xs ys s t (inr m) (inl e) = sym e
head_first x y xs ys s t (inr m) (inr n) = absurd (
    ground (
      arith,
      All-Holds (λ z. lex y z ≡ Ordering.lt) x ys t.0 m,
      All-Holds (λ z. lex x z ≡ Ordering.lt) y xs s.0 n,
      text_ord.cmp_swap x y,
    ))

later_in :
    (x c : Text) (xs ys : List Text) → Strict (x ∷ xs) → Holds c xs → Holds c (x ∷ ys) → Holds c ys
later_in x c xs ys s m (inr n) = n
later_in x c xs ys s m (inl e) =
    let before = All-Holds (λ z. lex x z ≡ Ordering.lt) c xs s.0 m in
    absurd (ground (arith, rw e at before, lex_refl x))

-- Texts in strict order are given by their elements.
pub Strict-unique :
    (xs ys : List Text) → Strict xs → Strict ys → ((c : Text) → Holds c xs ↔ Holds c ys) → xs ≡ ys
Strict-unique [] [] s t h = refl
Strict-unique [] (y ∷ ys) s t h = absurd ((h y).1 (inl refl))
Strict-unique (x ∷ xs) [] s t h = absurd ((h x).0 (inl refl))
Strict-unique (x ∷ xs) (y ∷ ys) s t h =
    let e : x ≡ y = head_first x y xs ys s t ((h x).0 (inl refl)) ((h y).1 (inl refl)) in
    ap (λ z. z ∷ xs) e
    ∙ ap (◌∷◌ y) (
        Strict-unique xs ys s.1 t.1 λ c. (
          λ m. later_in x c xs ys s m (rw e ((h c).0 (inr m))),
          λ n. later_in y c ys xs t n (rw (← e) ((h c).1 (inr n))),
        ))
