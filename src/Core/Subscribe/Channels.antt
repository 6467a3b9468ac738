-- ===== src/Core/Subscribe/Channels.antt =====
-- Channel normalization and acknowledgement of crates/core/src/protocol.rs.
use ahead.Common.{
  All, All-Holds, Bool-cases, inl, inr, sym, ◌∙◌, ℕ, Ordering, ◌≡◌, ◌↔◌, refl, true, false, List,
  [], ◌∷◌, ok, arith, ◌⊎◌, Holds,
}
use ahead.Common.Text.{Text, utf16_cmp, encode_utf16}
use ahead.Common.Map.{insert, keys}
use ahead.Common.Sort.{sort_by, sort_insert}
use ahead.Common.Map.Strict.{Strict, keys-Strict, Strict-unique}
use ahead.Common.Sort.Sorted.{Le, IsOrdered, sort_by-IsOrdered, sort_by-same}
use ahead.Common.Map.Sorted.{IsSorted, insert-IsSorted}
use ahead.Common.Order.{
  same_refl, same_iff, text_ord, lex, lex_refl, lex-swap, lex_trans, lex-eq, swap,
}
use ahead.Core.Subscribe.{normalize_channels, confirms, collect_set, same_texts}

pub same_texts_refl : (xs : List Text) → same_texts xs xs ≡ true
unfolding same_texts
same_texts_refl [] = refl
same_texts_refl (x ∷ xs) = ground (arith, same_refl x, same_texts_refl xs)

pub same_texts→eq : (xs ys : List Text) → same_texts xs ys ≡ true → xs ≡ ys
unfolding same_texts
same_texts→eq [] [] h = refl
same_texts→eq [] (y ∷ ys) h = cc
same_texts→eq (x ∷ xs) [] h = cc
same_texts→eq (x ∷ xs) (y ∷ ys) h = ground (arith, same_iff x y, same_texts→eq xs ys)

Holds-sort_insert :
    (cmp : Text → Text → Ordering) (a x : Text) (ys : List Text)
    → Holds a (x ∷ ys)
    → Holds a (sort_insert cmp x ys)
unfolding sort_insert
Holds-sort_insert cmp a x [] h = h
Holds-sort_insert cmp a x (y ∷ ys) h = ground (arith, Holds-sort_insert cmp a x ys)

Holds-sort_by :
    (cmp : Text → Text → Ordering) (a : Text) (xs : List Text)
    → Holds a xs
    → Holds a (sort_by cmp xs)
unfolding sort_by
Holds-sort_by cmp a [] h = h
Holds-sort_by cmp a (x ∷ xs) h =
    ground (arith, Holds-sort_insert cmp a x (sort_by cmp xs), Holds-sort_by cmp a xs)

Holds-insert :
    (a k : Text) (m : List (Text × Unit {0}))
    → (a ≡ k) ⊎ Holds a (keys m)
    → Holds a (keys (insert k tt m))
unfolding insert
Holds-insert a k [] h = h
Holds-insert a k ((j, w) ∷ m) h = ground (arith, Holds-insert a k m, text_ord.cmp_eq k j)

Holds-collect_set : (a : Text) (cs : List Text) → Holds a cs → Holds a (keys (collect_set cs))
unfolding collect_set
Holds-collect_set a [] h = h
Holds-collect_set a (c ∷ cs) h =
    ground (arith, Holds-insert a c (collect_set cs), Holds-collect_set a cs)

-- Two channels that the two orders put differently.
abbrev pub Crossed : Text → Text → Type 0
Crossed a b = (lex a b ≡ Ordering.lt) × (utf16_cmp a b ≡ Ordering.gt)

insert-Holds :
    (a k : Text) (m : List (Text × Unit {0}))
    → Holds a (keys (insert k tt m))
    → (a ≡ k) ⊎ Holds a (keys m)
unfolding insert
insert-Holds a k [] h = h
insert-Holds a k ((j, w) ∷ m) h = ground (arith, insert-Holds a k m, text_ord.cmp_eq k j)

collect_set-Holds : (a : Text) (cs : List Text) → Holds a (keys (collect_set cs)) → Holds a cs
unfolding collect_set
collect_set-Holds a [] h = h
collect_set-Holds a (c ∷ cs) h = elim (insert-Holds a c (collect_set cs) h) [
  | inl e ↦ inl e
  | inr m ↦ inr (collect_set-Holds a cs m)
]

collect_set-IsSorted : (cs : List Text) → IsSorted (collect_set cs)
unfolding collect_set
collect_set-IsSorted [] = tt
collect_set-IsSorted (c ∷ cs) = insert-IsSorted c tt (collect_set cs) (collect_set-IsSorted cs)

collect_set-Strict : (cs : List Text) → Strict (keys (collect_set cs))
collect_set-Strict cs = keys-Strict (collect_set cs) (collect_set-IsSorted cs)

utf16_swap : (a b : Text) → utf16_cmp b a ≡ swap (utf16_cmp a b)
utf16_swap a b = lex-swap (encode_utf16 a) (encode_utf16 b)

lex-Le : (a b c : List ℕ) → Le lex a b → Le lex b c → Le lex a c
lex-Le a b c h k = ground (arith, lex_trans a b c, lex-eq a b, lex-eq b c)

utf16-IsOrdered : (xs : List Text) → IsOrdered utf16_cmp (sort_by utf16_cmp xs)
utf16-IsOrdered =
    sort_by-IsOrdered utf16_cmp utf16_swap
      λ a b c. lex-Le (encode_utf16 a) (encode_utf16 b) (encode_utf16 c)

normalized :
    (cs channels : List Text)
    → normalize_channels cs ≡ ok channels
    → channels ≡ sort_by utf16_cmp (keys (collect_set cs))
unfolding normalize_channels
normalized cs channels h = ground arith

Crossed-apart :
    (a b : Text) (xs : List Text)
    → Crossed a b
    → Strict xs
    → IsOrdered utf16_cmp xs
    → Holds a xs
    → Holds b xs
    → ⊥
Crossed-apart a b [] c s o m n = m
Crossed-apart a b (x ∷ xs) c s o (inl e) (inl f) =
    let same_text : a ≡ b = e ∙ sym f in absurd (ground (arith, rw same_text at c.0, lex_refl b))
Crossed-apart a b (x ∷ xs) c s o (inl e) (inr n) =
    All-Holds (Le utf16_cmp x) b xs o.0 n (rw (← e) c.1)
Crossed-apart a b (x ∷ xs) c s o (inr m) (inl f) =
    let before = All-Holds (λ z. lex x z ≡ Ordering.lt) a xs s.0 m in
    absurd (ground (arith, rw (← f) at before, c.0, text_ord.cmp_swap a b))
Crossed-apart a b (x ∷ xs) c s o (inr m) (inr n) = Crossed-apart a b xs c s.1 o.1 m n

-- A request for channels of which some two stand differently in the order of the code points and in that of the
-- UTF-16 units is confirmed by no acknowledgement, whose cursors stand in the map's order.
pub Crossed-not_confirmed :
    (a b : Text) (cs channels : List Text) (cursors models : List (Text × ℕ))
    → normalize_channels cs ≡ ok channels
    → Holds a cs
    → Holds b cs
    → Crossed a b
    → IsSorted cursors
    → confirms (record { cursors = cursors }) (record { channels = channels; models = models })
      ≡ false
unfolding confirms
Crossed-not_confirmed a b cs channels cursors models h m n crossed sorted =
    elim (Bool-cases (same_texts (keys cursors) channels)) [
      | inr e ↦ e
      | inl e ↦
          let all_equal : keys cursors ≡ sort_by utf16_cmp (keys (collect_set cs)) =
            same_texts→eq (keys cursors) channels e ∙ normalized cs channels h in
          absurd (
            Crossed-apart a b (keys cursors) crossed (keys-Strict cursors sorted)
              (rw all_equal (utf16-IsOrdered (keys (collect_set cs))))
              (rw all_equal
                (Holds-sort_by utf16_cmp a (keys (collect_set cs)) (Holds-collect_set a cs m)))
              (rw all_equal
                (Holds-sort_by utf16_cmp b (keys (collect_set cs)) (Holds-collect_set b cs n))))
    ]

-- The two orders put the channels in the same way.
abbrev pub Agree : List Text → Type 0
Agree cs = (a b : Text) → Holds a cs → Holds b cs → lex a b ≡ utf16_cmp a b

agreed :
    (cs xs : List Text)
    → Agree cs
    → ((c : Text) → Holds c xs → Holds c cs)
    → Strict xs
    → IsOrdered utf16_cmp xs
agreed cs [] g inside s = tt
agreed cs (x ∷ xs) g inside s = (
  go (inside x (inl refl)) xs (λ c m. inside c (inr m)) s.0,
  agreed cs xs g (λ c m. inside c (inr m)) s.1,
)
  where
    go :
        Holds x cs
        → (ys : List Text) → ((c : Text) → Holds c ys → Holds c cs)
        → All (λ y. lex x y ≡ Ordering.lt) ys
        → All (Le utf16_cmp x) ys
    go here [] inside b = tt
    go here (y ∷ ys) inside b = (
      λ h. absurd (ground (arith, b.0, h, g x y here (inside y (inl refl)))),
      go here ys (λ c m. inside c (inr m)) b.1,
    )

-- Where the two orders agree on the channels that are asked for, an acknowledgement, whose cursors stand in the
-- map's order, confirms the normalized request exactly when its channels are those, in whatever order and however
-- often they were asked for.
pub confirms_iff :
    (cs channels : List Text) (cursors models : List (Text × ℕ))
    → normalize_channels cs ≡ ok channels
    → Agree cs
    → IsSorted cursors
    → (confirms (record { cursors = cursors }) (record { channels = channels; models = models })
        ≡ true)
      ↔ ((c : Text) → Holds c (keys cursors) ↔ Holds c cs)
unfolding confirms
confirms_iff cs channels cursors models h agree sorted =
    let set = keys (collect_set cs) in
    let in_order : sort_by utf16_cmp set ≡ set =
      sort_by-same utf16_cmp set
        (agreed cs set agree (λ c m. collect_set-Holds c cs m) (collect_set-Strict cs)) in
    let all_equal : channels ≡ set = normalized cs channels h ∙ in_order in
    (
      λ e c.
          let f : keys cursors ≡ set = same_texts→eq (keys cursors) channels e ∙ all_equal in
          (λ m. collect_set-Holds c cs (rw (← f) m), λ m. rw f (Holds-collect_set c cs m)),
      λ g.
          let f : keys cursors ≡ channels =
            Strict-unique (keys cursors) set (keys-Strict cursors sorted) (collect_set-Strict cs)
              (λ c.
                (λ m. Holds-collect_set c cs ((g c).0 m), λ m. (g c).1 (collect_set-Holds c cs m)))
            ∙ sym all_equal in
          rw f (same_texts_refl channels),
    )
