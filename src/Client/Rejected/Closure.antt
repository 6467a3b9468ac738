-- ===== src/Client/Rejected/Closure.antt =====
-- Which mutations `mark_rejected` of crates/client/src/push.rs drops: its loop ends with the rejected
-- ones and all whose lifecycle depends on them, however far.
use ahead.Common.{
  ℕ, zero, suc, ◌≤◌, ◌<◌, ◌≡◌, ◌↔◌, refl, ap, Bool, true, false, not, List, [], ◌∷◌, if◌then◌else◌,
  any, arith, inl, inr, ◌⊎◌, Bool-cases, length, Holds, keep, length-keep_le,
}
use ahead.Common.Text.{Text}
use ahead.Common.Map.{insert, contains_key, lookup-insert}
use ahead.Common.Order.{nat_ord, same, same_iff}
use ahead.Core.Record.{Rejection}
use ahead.Client.Queue.{Queued}
use ahead.Client.Rejected.{
  by_ordinal, is_orphan, orphans, reject_all, cascade, closure, dependency_rejected,
}

-- An ordinal that a rejection reaches: rejected itself, or that of a queued mutation whose lifecycle
-- depends on one that a rejection reaches.
pub data Reached (queue : List Queued) (rejected : List (ℕ × Text)) : ℕ → Type 0 where
  named : {k : ℕ} → contains_key k rejected ≡ true → Reached queue rejected k
  depends :
      (q : Queued) (d : ℕ)
      → Holds q queue
      → Holds d q.mutation.lifecycle_dependencies
      → Reached queue rejected d
      → Reached queue rejected q.ordinal

contains-reject_all :
    (ks : List ℕ) (m : List (ℕ × Text)) (k : ℕ)
    → contains_key k (reject_all ks m) ≡ true
    → (contains_key k m ≡ true) ⊎ Holds k ks
unfolding reject_all
contains-reject_all [] m k h = inl h
contains-reject_all (j ∷ ks) m k h =
    go (contains-reject_all ks (insert j dependency_rejected m) k h)
  where
    go :
        (contains_key k (insert j dependency_rejected m) ≡ true) ⊎ Holds k ks
        → (contains_key k m ≡ true) ⊎ Holds k (j ∷ ks)
    go (inr p) = inr (inr p)
    go (inl c) = elim (Bool-cases (same k j)) [
      | inl e ↦ inr (inl (ground (arith, e, same_iff k j)))
      | inr e ↦ inl (ground (arith, c, e, lookup-insert k j dependency_rejected m))
    ]

keeps-reject_all :
    (ks : List ℕ) (m : List (ℕ × Text)) (k : ℕ)
    → (contains_key k m ≡ true) ⊎ Holds k ks
    → contains_key k (reject_all ks m) ≡ true
unfolding reject_all
keeps-reject_all [] m k (inl h) = h
keeps-reject_all [] m k (inr h) = absurd h
keeps-reject_all (j ∷ ks) m k (inl h) =
    keeps-reject_all ks (insert j dependency_rejected m) k
      (inl (ground (arith, h, lookup-insert k j dependency_rejected m, same_iff k j)))
keeps-reject_all (j ∷ ks) m k (inr (inl e)) =
    keeps-reject_all ks (insert j dependency_rejected m) k
      (inl (ground (arith, e, lookup-insert k j dependency_rejected m, same_iff k j)))
keeps-reject_all (j ∷ ks) m k (inr (inr h)) =
    keeps-reject_all ks (insert j dependency_rejected m) k (inr h)

any_contained :
    (rejected : List (ℕ × Text)) (ds : List ℕ)
    → any (λ d. contains_key d rejected) ds ≡ true
    → (d : ℕ) × Holds d ds × (contains_key d rejected ≡ true)
any_contained rejected [] h = absurd (ground arith)
any_contained rejected (d ∷ ds) h = elim (Bool-cases (contains_key d rejected)) [
  | inl c ↦ (d, inl refl, c)
  | inr c ↦ (let (e, m, f) = any_contained rejected ds (ground (arith, h, c)) in (e, inr m, f))
]

contained_any :
    (rejected : List (ℕ × Text)) (ds : List ℕ) (d : ℕ)
    → Holds d ds
    → contains_key d rejected ≡ true
    → any (λ e. contains_key e rejected) ds ≡ true
contained_any rejected [] d m h = absurd m
contained_any rejected (e ∷ ds) d (inl p) h = ground (arith, h, p)
contained_any rejected (e ∷ ds) d (inr m) h = ground (arith, contained_any rejected ds d m h)

orphans-Holds :
    (rejected : List (ℕ × Text)) (queue : List Queued) (k : ℕ)
    → Holds k (orphans rejected queue)
    → (q : Queued) × Holds q queue × (k ≡ q.ordinal) × (is_orphan rejected q ≡ true)
unfolding orphans
orphans-Holds rejected [] k m = absurd m
orphans-Holds rejected (q ∷ qs) k m = go (orphans-Holds rejected qs k) (is_orphan rejected q) refl m
  where
    go :
        (Holds k (orphans rejected qs)
          → (p : Queued) × Holds p qs × (k ≡ p.ordinal) × (is_orphan rejected p ≡ true))
        → (b : Bool) → is_orphan rejected q ≡ b
        → Holds k (if b then q.ordinal ∷ orphans rejected qs else orphans rejected qs)
        → (p : Queued) × Holds p (q ∷ qs) × (k ≡ p.ordinal) × (is_orphan rejected p ≡ true)
    go ih true e (inl f) = (q, inl refl, f, e)
    go ih true e (inr f) = let (p, g, h, i) = ih f in (p, inr g, h, i)
    go ih false e f = let (p, g, h, i) = ih f in (p, inr g, h, i)

Holds-orphans :
    (rejected : List (ℕ × Text)) (queue : List Queued) (q : Queued)
    → Holds q queue
    → is_orphan rejected q ≡ true
    → Holds q.ordinal (orphans rejected queue)
unfolding orphans
Holds-orphans rejected [] q m h = absurd m
Holds-orphans rejected (p ∷ qs) q m h =
    go (Holds-orphans rejected qs q) m (is_orphan rejected p) refl
  where
    go :
        (Holds q qs → is_orphan rejected q ≡ true → Holds q.ordinal (orphans rejected qs))
        → (q ≡ p) ⊎ Holds q qs
        → (b : Bool) → is_orphan rejected p ≡ b
        → Holds q.ordinal (if b then p.ordinal ∷ orphans rejected qs else orphans rejected qs)
    go ih (inl e) true f = inl (ap (λ r. r.ordinal) e)
    go ih (inl e) false f = absurd (ground (arith, ap (is_orphan rejected) e, f, h))
    go ih (inr g) true f = inr (ih g h)
    go ih (inr g) false f = ih g h

-- How many queued mutations are not rejected yet.
abbrev waiting : List (ℕ × Text) → List Queued → ℕ
waiting rejected queue = length (keep (λ q. not (contains_key q.ordinal rejected)) queue)

waiting_le :
    (r r' : List (ℕ × Text)) (queue : List Queued)
    → ((k : ℕ) → contains_key k r ≡ true → contains_key k r' ≡ true)
    → waiting r' queue ≤ waiting r queue
waiting_le r r' [] sub = omega arith
waiting_le r r' (q ∷ qs) sub = ground (arith, waiting_le r r' qs sub, sub q.ordinal)

waiting_lt :
    (r r' : List (ℕ × Text)) (queue : List Queued) (q : Queued)
    → ((k : ℕ) → contains_key k r ≡ true → contains_key k r' ≡ true)
    → Holds q queue
    → contains_key q.ordinal r ≡ false
    → contains_key q.ordinal r' ≡ true
    → waiting r' queue < waiting r queue
waiting_lt r r' [] q sub m h h' = absurd m
waiting_lt r r' (p ∷ qs) q sub (inl e) h h' = ground (
  arith,
  waiting_le r r' qs sub,
  ap (λ x. contains_key x.ordinal r) e,
  ap (λ x. contains_key x.ordinal r') e,
  h,
  h',
)
waiting_lt r r' (p ∷ qs) q sub (inr m) h h' =
    ground (arith, waiting_lt r r' qs q sub m h h', sub p.ordinal)

orphan_waits :
    (rejected : List (ℕ × Text)) (q : Queued)
    → is_orphan rejected q ≡ true
    → contains_key q.ordinal rejected ≡ false
unfolding is_orphan
orphan_waits rejected q h = ground arith

-- One turn of the loop leaves fewer mutations that are not rejected.
turn :
    (rejected : List (ℕ × Text)) (queue : List Queued) (k : ℕ) (ks : List ℕ)
    → orphans rejected queue ≡ k ∷ ks
    → waiting (reject_all (k ∷ ks) rejected) queue < waiting rejected queue
turn rejected queue k ks e =
    let (q, m, f, o) = orphans-Holds rejected queue k (rw e (inl refl)) in
    waiting_lt rejected (reject_all (k ∷ ks) rejected) queue q
      (λ j c. keeps-reject_all (k ∷ ks) rejected j (inl c)) m (orphan_waits rejected q o)
      (rw (← f) (keeps-reject_all (k ∷ ks) rejected k (inr (inl refl))))

-- The length of the queue is fuel enough: the loop ends with no orphan left.
cascade_closed :
    (n : ℕ) (queue : List Queued) (rejected : List (ℕ × Text))
    → waiting rejected queue ≤ n
    → orphans (cascade n queue rejected) queue ≡ []
unfolding cascade
cascade_closed zero queue rejected le = go (orphans rejected queue) refl
  where
    go : (o : List ℕ) → orphans rejected queue ≡ o → orphans rejected queue ≡ []
    go [] e = e
    go (k ∷ ks) e = absurd (omega (arith, turn rejected queue k ks e, le))
cascade_closed (suc n) queue rejected le =
    go (λ r. cascade_closed n queue r) (orphans rejected queue) refl
  where
    go :
        ((r : List (ℕ × Text)) → waiting r queue ≤ n → orphans (cascade n queue r) queue ≡ [])
        → (o : List ℕ) → orphans rejected queue ≡ o
        → orphans
            (elim o [ [] ↦ rejected | k ∷ ks ↦ cascade n queue (reject_all (k ∷ ks) rejected) ])
            queue
          ≡ []
    go ih [] e = e
    go ih (k ∷ ks) e =
        ih (reject_all (k ∷ ks) rejected) (omega (arith, turn rejected queue k ks e, le))

cascade_keeps :
    (n : ℕ) (queue : List Queued) (rejected : List (ℕ × Text)) (k : ℕ)
    → contains_key k rejected ≡ true
    → contains_key k (cascade n queue rejected) ≡ true
unfolding cascade
cascade_keeps zero queue rejected k h = h
cascade_keeps (suc n) queue rejected k h =
    go (λ r. cascade_keeps n queue r k) (orphans rejected queue)
  where
    go :
        ((r : List (ℕ × Text))
          → contains_key k r ≡ true
          → contains_key k (cascade n queue r) ≡ true)
        → (o : List ℕ)
        → contains_key k
            (elim o [ [] ↦ rejected | j ∷ ks ↦ cascade n queue (reject_all (j ∷ ks) rejected) ])
          ≡ true
    go ih [] = h
    go ih (j ∷ ks) =
        ih (reject_all (j ∷ ks) rejected) (keeps-reject_all (j ∷ ks) rejected k (inl h))

orphan-Reached :
    (queue : List Queued) (given : List (ℕ × Text)) (rejected : List (ℕ × Text)) (q : Queued)
    → ((k : ℕ) → contains_key k rejected ≡ true → Reached queue given k)
    → Holds q queue
    → is_orphan rejected q ≡ true
    → Reached queue given q.ordinal
unfolding is_orphan
orphan-Reached queue given rejected q sound m h =
    let (d, i, c) = any_contained rejected q.mutation.lifecycle_dependencies (ground arith) in
    depends q d m i (sound d c)

cascade-Reached :
    (n : ℕ) (queue : List Queued) (given rejected : List (ℕ × Text))
    → ((k : ℕ) → contains_key k rejected ≡ true → Reached queue given k)
    → (k : ℕ) → contains_key k (cascade n queue rejected) ≡ true
    → Reached queue given k
unfolding cascade
cascade-Reached zero queue given rejected sound k h = sound k h
cascade-Reached (suc n) queue given rejected sound k h =
    go (λ r. cascade-Reached n queue given r) (orphans rejected queue) refl h
  where
    go :
        ((r : List (ℕ × Text))
          → ((j : ℕ) → contains_key j r ≡ true → Reached queue given j)
          → (j : ℕ) → contains_key j (cascade n queue r) ≡ true
          → Reached queue given j)
        → (o : List ℕ) → orphans rejected queue ≡ o
        → contains_key k
            (elim o [ [] ↦ rejected | i ∷ ks ↦ cascade n queue (reject_all (i ∷ ks) rejected) ])
          ≡ true
        → Reached queue given k
    go ih [] e h = sound k h
    go ih (i ∷ ks) e h = ih (reject_all (i ∷ ks) rejected) sounder k h
      where
        sounder :
            (j : ℕ) → contains_key j (reject_all (i ∷ ks) rejected) ≡ true → Reached queue given j
        sounder j c = elim (contains-reject_all (i ∷ ks) rejected j c) [
          | inl c' ↦ sound j c'
          | inr m ↦
              (let (q, m', f, o) = orphans-Holds rejected queue j (rw e m) in
                rw f (orphan-Reached queue given rejected q sound m' o))
        ]

reached_orphan :
    (rejected : List (ℕ × Text)) (q : Queued) (d : ℕ)
    → Holds d q.mutation.lifecycle_dependencies
    → contains_key q.ordinal rejected ≡ false
    → contains_key d rejected ≡ true
    → is_orphan rejected q ≡ true
unfolding is_orphan
reached_orphan rejected q d i e c =
    ground (arith, e, contained_any rejected q.mutation.lifecycle_dependencies d i c)

Reached-cascade :
    (queue : List Queued) (given : List (ℕ × Text)) (k : ℕ)
    → Reached queue given k
    → contains_key k (cascade (length queue) queue given) ≡ true
Reached-cascade queue given k (named h) = cascade_keeps (length queue) queue given k h
Reached-cascade queue given _ (depends q d m i r) =
    go (contains_key q.ordinal final) refl (Reached-cascade queue given d r)
  where
    final : List (ℕ × Text)
    final = cascade (length queue) queue given

    go :
        (b : Bool)
        → contains_key q.ordinal final ≡ b
        → contains_key d final ≡ true
        → contains_key q.ordinal final ≡ true
    go true e c = e
    go false e c =
        let none_left = cascade_closed (length queue) queue given (length-keep_le _ queue) in
        absurd (rw none_left at (Holds-orphans final queue q m (reached_orphan final q d i e c)))

-- The loop of `mark_rejected`, run for as many turns as the queue is long, ends with exactly the
-- ordinals that the rejections reach: the rejected ones, and those of the mutations whose lifecycle
-- depends on a reached one.
pub closure_iff :
    (queue : List Queued) (rejections : List Rejection) (k : ℕ)
    → (contains_key k (closure queue rejections) ≡ true)
      ↔ Reached queue (by_ordinal rejections []) k
closure_iff queue rejections k = (
  cascade-Reached (length queue) queue (by_ordinal rejections []) (by_ordinal rejections [])
      (λ j c. named c) k,
  Reached-cascade queue (by_ordinal rejections []) k,
)
