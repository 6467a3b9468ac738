-- ===== src/Common/Map/Joined.antt =====
-- Building a map up in the order of its keys: an entry beyond all others goes to the end.
use ahead.Common.{Ordering, ◌≡◌, refl, ap, List, [], ◌∷◌, ◌++◌, arith, All, All-append}
use ahead.Common.Text.{Text}
use ahead.Common.Map.{insert}
use ahead.Common.Map.Sorted.{IsSorted, Below}
use ahead.Common.Order.{text_ord, lex}

-- Every key stands before `k`.
abbrev pub Above : {V : Type 0} → Text → List (Text × V) → Type 0
Above k m = All (λ e. lex e.0 k ≡ Ordering.lt) m

-- The keys of `m` stand in order, and after those of `acc`.
abbrev pub Joined : {V W : Type 0} → List (Text × V) → List (Text × W) → Type 0
Joined acc m = All (λ e. Above e.0 acc) m × IsSorted m

-- A key beyond all others goes to the end.
pub insert_last :
    {V : Type 0} (k : Text) (v : V) (m : List (Text × V))
    → Above k m
    → insert k v m ≡ m ++ ((k, v) ∷ [])
unfolding insert
insert_last k v [] a = refl
insert_last k v ((j, w) ∷ m) a = ground (arith, insert_last k v m a.1, text_ord.cmp_swap j k, a.0)

pub Joined-nil : (V : Type 0) {W : Type 0} (m : List (Text × W)) → IsSorted m → Joined {V = V} [] m
Joined-nil V {W} m s = (go m, s)
  where
    go : (m : List (Text × W)) → All (λ e. Above {V = V} e.0 []) m
    go [] = tt
    go (e ∷ m) = (tt, go m)

pub Joined-step :
    {V W : Type 0} (acc : List (Text × V)) (k : Text) (v : V) (w : W) (m : List (Text × W))
    → Joined acc ((k, w) ∷ m)
    → Joined (acc ++ ((k, v) ∷ [])) m
Joined-step {W = W} acc k v w m (a, (b, s)) = (go m a.1 b, s)
  where
    go :
        (m : List (Text × W))
        → All (λ e. Above e.0 acc) m
        → Below k m
        → All (λ e. Above e.0 (acc ++ ((k, v) ∷ []))) m
    go [] a b = tt
    go (e ∷ m) a b =
        (All-append (λ f. lex f.0 e.0 ≡ Ordering.lt) acc ((k, v) ∷ []) a.0 (b.0, tt), go m a.1 b.1)

pub append_one :
    {A : Type 0} (acc : List A) (e : A) (m : List A) → (acc ++ (e ∷ [])) ++ m ≡ acc ++ (e ∷ m)
append_one [] e m = refl
append_one (f ∷ acc) e m = ap (◌∷◌ f) (append_one acc e m)

pub append_none : {A : Type 0} (acc : List A) → acc ++ [] ≡ acc
append_none [] = refl
append_none (e ∷ acc) = ap (◌∷◌ e) (append_none acc)
