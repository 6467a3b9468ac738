-- ===== src/Common/Order.antt =====
-- `Ord` of the source's keys: a comparison and the laws that sorted containers rest on.
use ahead.Common.{ℕ, compare, Ordering, ◌≡◌, refl, ◌↔◌, Bool, true, false, List, [], ◌∷◌, arith}

abbrev pub swap : Ordering → Ordering
swap Ordering.lt = Ordering.gt
swap Ordering.eq = Ordering.eq
swap Ordering.gt = Ordering.lt

pub record Ord (K : Type 0) : Type 0 where
  pub cmp : K → K → Ordering
  pub cmp_eq : (a b : K) → cmp a b ≡ Ordering.eq → a ≡ b
  pub cmp_refl : (a : K) → cmp a a ≡ Ordering.eq
  pub cmp_swap : (a b : K) → cmp b a ≡ swap (cmp a b)
  pub cmp_trans :
      (a b c : K) → cmp a b ≡ Ordering.lt → cmp b c ≡ Ordering.lt → cmp a c ≡ Ordering.lt

module _ {K : Type 0} ⦃o : Ord K⦄ where
  -- `==`, read off the comparison.
  abbrev pub same : K → K → Bool
  same a b = elim (o.cmp a b) [ Ordering.eq ↦ true | _ ↦ false ]

  pub same_refl : (a : K) → same a a ≡ true
  same_refl a = ground (arith, o.cmp_refl a)

  pub same→eq : (a b : K) → same a b ≡ true → a ≡ b
  same→eq a b h = ground (arith, o.cmp_eq a b)

  pub same_iff : (a b : K) → (same a b ≡ true) ↔ (a ≡ b)
  same_iff a b = (same→eq a b, λ e. rw e (same_refl b))

pub nat-swap : (a b : ℕ) → compare b a ≡ swap (compare a b)
nat-swap a b = ground arith

pub nat_trans :
    (a b c : ℕ) → compare a b ≡ Ordering.lt → compare b c ≡ Ordering.lt → compare a c ≡ Ordering.lt
nat_trans a b c h k = ground arith

pub nat-eq : (a b : ℕ) → compare a b ≡ Ordering.eq → a ≡ b
nat-eq a b h = ground arith

pub nat_refl : (a : ℕ) → compare a a ≡ Ordering.eq
nat_refl a = ground arith

instance abbrev pub nat_ord : Ord ℕ
nat_ord = record {
  cmp = compare;
  cmp_eq = nat-eq;
  cmp_refl = nat_refl;
  cmp_swap = nat-swap;
  cmp_trans = nat_trans;
}

-- Lists in the order of their first difference.
unfoldable pub lex : List ℕ → List ℕ → Ordering
lex [] [] = Ordering.eq
lex [] (y ∷ ys) = Ordering.lt
lex (x ∷ xs) [] = Ordering.gt
lex (x ∷ xs) (y ∷ ys) = elim (compare x y) [
  | Ordering.eq ↦ lex xs ys
  | Ordering.lt ↦ Ordering.lt
  | Ordering.gt ↦ Ordering.gt
]

pub lex-eq : (a b : List ℕ) → lex a b ≡ Ordering.eq → a ≡ b
unfolding lex
lex-eq [] [] h = refl
lex-eq [] (y ∷ ys) h = cc
lex-eq (x ∷ xs) [] h = cc
lex-eq (x ∷ xs) (y ∷ ys) h = ground (arith, lex-eq xs ys)

pub lex_refl : (a : List ℕ) → lex a a ≡ Ordering.eq
unfolding lex
lex_refl [] = refl
lex_refl (x ∷ xs) = ground (arith, lex_refl xs)

pub lex-swap : (a b : List ℕ) → lex b a ≡ swap (lex a b)
unfolding lex
lex-swap [] [] = refl
lex-swap [] (y ∷ ys) = refl
lex-swap (x ∷ xs) [] = refl
lex-swap (x ∷ xs) (y ∷ ys) = ground (arith, lex-swap xs ys)

pub lex_trans :
    (a b c : List ℕ) → lex a b ≡ Ordering.lt → lex b c ≡ Ordering.lt → lex a c ≡ Ordering.lt
unfolding lex
lex_trans [] [] c h k = cc
lex_trans [] (y ∷ ys) [] h k = cc
lex_trans [] (y ∷ ys) (z ∷ zs) h k = refl
lex_trans (x ∷ xs) [] c h k = cc
lex_trans (x ∷ xs) (y ∷ ys) [] h k = cc
lex_trans (x ∷ xs) (y ∷ ys) (z ∷ zs) h k = ground (arith, lex_trans xs ys zs)

instance abbrev pub text_ord : Ord (List ℕ)
text_ord = record {
  cmp = lex;
  cmp_eq = lex-eq;
  cmp_refl = lex_refl;
  cmp_swap = lex-swap;
  cmp_trans = lex_trans;
}
