-- ===== src/Common/Lists.antt =====
-- Lists over the native numbers, under the library's names, and predicates on their elements.
use Prim.Native.Nat.{ℕ, suc, ◌+◌, ◌≤◌}
use mathlib.Core.Path.{◌≡◌}
use mathlib.Core.Logic.{◌⊎◌, inl, inr}
use mathlib.Core.Bool.{Bool, true, false, ◌&&◌, ◌||◌}
use mathlib.Core.List.{List, [], ◌∷◌, ◌++◌}
use native.Mathlib.Omega.{arith}
use ahead.Common.Tests.{if◌then◌else◌}

module _ {ℓ} {A : Type ℓ} where
  abbrev pub length : List A → ℕ
  length [] = 0
  length (x ∷ xs) = suc (length xs)

  -- `Iterator::any`, `Iterator::all` and `Iterator::filter` on a Boolean test.
  abbrev pub any : (A → Bool) → List A → Bool
  any p [] = false
  any p (x ∷ xs) = p x || any p xs

  abbrev pub all : (A → Bool) → List A → Bool
  all p [] = true
  all p (x ∷ xs) = p x && all p xs

  abbrev pub keep : (A → Bool) → List A → List A
  keep p [] = []
  keep p (x ∷ xs) = if p x then x ∷ keep p xs else keep p xs

  -- A property of every element, and of some element, by recursion on the list.
  abbrev pub All {κ} : (A → Type κ) → List A → Type κ
  All P [] = Unit
  All P (x ∷ xs) = P x × All P xs

  pub length-append : (xs ys : List A) → length (xs ++ ys) ≡ length xs + length ys
  length-append [] ys = omega arith
  length-append (x ∷ xs) ys = omega (arith, length-append xs ys)

  pub length-keep_le : (p : A → Bool) (xs : List A) → length (keep p xs) ≤ length xs
  length-keep_le p [] = omega arith
  length-keep_le p (x ∷ xs) = ground (arith, length-keep_le p xs)

  pub All-append {κ} : (P : A → Type κ) (xs ys : List A) → All P xs → All P ys → All P (xs ++ ys)
  All-append P [] ys hx hy = hy
  All-append P (x ∷ xs) ys hx hy = (hx.0, All-append P xs ys hx.1 hy)

  pub All-map {κ κ'} :
      (P : A → Type κ) (Q : A → Type κ')
      → ((a : A) → P a → Q a)
      → (xs : List A) → All P xs
      → All Q xs
  All-map P Q f [] h = tt
  All-map P Q f (x ∷ xs) h = (f x h.0, All-map P Q f xs h.1)

module _ {A : Type 0} where
  -- `a` is an element.
  abbrev pub Holds : A → List A → Type 0
  Holds a [] = ⊥
  Holds a (x ∷ xs) = (a ≡ x) ⊎ Holds a xs

  pub All-Holds {κ} : (P : A → Type κ) (a : A) (xs : List A) → All P xs → Holds a xs → P a
  All-Holds P a [] h m = absurd m
  All-Holds P a (x ∷ xs) h (inl e) = rw e h.0
  All-Holds P a (x ∷ xs) h (inr m) = All-Holds P a xs h.1 m
