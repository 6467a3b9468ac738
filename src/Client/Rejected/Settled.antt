-- ===== src/Client/Rejected/Settled.antt =====
-- What `mark_rejected` of crates/client/src/push.rs leaves in the queue and in the rejections.
use ahead.Common.{
  ℕ, ◌≡◌, refl, ap, ◌∙◌, Bool, true, false, not, List, [], ◌∷◌, map, Option, none, some, Result, ok,
  >>=-eq-ok, ◌==◌, if◌then◌else◌, any, arith, inl, inr, ◌⊎◌, Bool-cases, Holds, keep,
}
use ahead.Common.Text.{Text}
use ahead.Common.Map.{insert, lookup, contains_key, lookup-insert, keys}
use ahead.Common.Order.{nat_ord, same_iff}
use ahead.Core.Json.{Value}
use ahead.Core.Record.{Rejection}
use ahead.Client.Queue.{Queued, Outbox, Refusal, delete_mutations, release, has_ordinal, without}
use ahead.Client.Rejected.{
  by_ordinal, closure, mark_rejected, record_rejected, touch, all_ops, refusal,
}
use ahead.Client.Rejected.Closure.{Reached, closure_iff}

keys-contains : (m : List (ℕ × Text)) (k : ℕ) → any (λ n. n == k) (keys m) ≡ contains_key k m
unfolding lookup
keys-contains [] k = refl
keys-contains ((j, v) ∷ m) k = ground (arith, keys-contains m k, same_iff k j)

module _ {A : Type 0} where
  pub Holds-keep :
      (p : A → Bool) (a : A) (xs : List A) → Holds a xs → p a ≡ true → Holds a (keep p xs)
  Holds-keep p a [] m h = absurd m
  Holds-keep p a (x ∷ xs) (inl e) h = rw (rw e at h) (inl e)
  Holds-keep p a (x ∷ xs) (inr m) h = go (Holds-keep p a xs m h) (p x)
    where
      go : Holds a (keep p xs) → (b : Bool) → Holds a (if b then x ∷ keep p xs else keep p xs)
      go ih true = inr ih
      go ih false = ih

  pub keep-Holds :
      (p : A → Bool) (a : A) (xs : List A) → Holds a (keep p xs) → Holds a xs × (p a ≡ true)
  keep-Holds p a [] m = absurd m
  keep-Holds p a (x ∷ xs) m = go (keep-Holds p a xs) (p x) refl m
    where
      go :
          (Holds a (keep p xs) → Holds a xs × (p a ≡ true))
          → (b : Bool) → p x ≡ b
          → Holds a (if b then x ∷ keep p xs else keep p xs)
          → Holds a (x ∷ xs) × (p a ≡ true)
      go ih true e (inl f) = (inl f, rw f e)
      go ih true e (inr m) = let (n, h) = ih m in (inr n, h)
      go ih false e m = let (n, h) = ih m in (inr n, h)

  keep_all : (p : A → Bool) (xs : List A) → ((a : A) → Holds a xs → p a ≡ true) → keep p xs ≡ xs
  keep_all p [] h = refl
  keep_all p (x ∷ xs) h = rw (h x (inl refl)) (ap (◌∷◌ x) (keep_all p xs (λ a m. h a (inr m))))

  map-Holds :
      {B : Type 0} (f : A → B) (b : B) (xs : List A)
      → Holds b (map f xs)
      → (a : A) × Holds a xs × (b ≡ f a)
  map-Holds f b [] m = absurd m
  map-Holds f b (x ∷ xs) (inl e) = (x, inl refl, e)
  map-Holds f b (x ∷ xs) (inr m) = let (a, n, e) = map-Holds f b xs m in (a, inr n, e)

  Holds-map : {B : Type 0} (f : A → B) (a : A) (xs : List A) → Holds a xs → Holds (f a) (map f xs)
  Holds-map f a [] m = absurd m
  Holds-map f a (x ∷ xs) (inl e) = inl (ap f e)
  Holds-map f a (x ∷ xs) (inr m) = inr (Holds-map f a xs m)

module _ {K : Type 0} (record_key : Text → Value → Result (Text × K)) where
  record_rejected-keeps :
      (rejected : List (ℕ × Text)) (qs : List Queued) (affected : List (Text × K))
      (kept : List (ℕ × Refusal)) {affected' : List (Text × K)} {kept' : List (ℕ × Refusal)} (k : ℕ)
      → record_rejected record_key rejected qs affected kept ≡ ok (affected', kept')
      → (contains_key k kept ≡ true)
        ⊎ ((q : Queued) × Holds q qs × (k ≡ q.ordinal) × (contains_key k rejected ≡ true))
      → contains_key k kept' ≡ true
  unfolding record_rejected
  record_rejected-keeps rejected [] affected kept {kept' = kept'} k h (inl c) =
      let same_kept : kept ≡ kept' = cc h in rw (← same_kept) c
  record_rejected-keeps rejected [] affected kept k h (inr (q, m, e, c)) = absurd m
  record_rejected-keeps rejected (q ∷ qs) affected kept {affected' = affected'} {kept' = kept'} k h
        c =
      go (λ a n. record_rejected-keeps rejected qs a n {affected' = affected'} {kept' = kept'} k)
        (lookup q.ordinal rejected) refl c
    where
      Later : List (ℕ × Refusal) → Type 0
      Later n =
          (contains_key k n ≡ true)
          ⊎ ((p : Queued) × Holds p qs × (k ≡ p.ordinal) × (contains_key k rejected ≡ true))

      go :
          ((a : List (Text × K)) (n : List (ℕ × Refusal))
            → record_rejected record_key rejected qs a n ≡ ok (affected', kept')
            → Later n
            → contains_key k kept' ≡ true)
          → (r : Option Text) → lookup q.ordinal rejected ≡ r
          → (contains_key k kept ≡ true)
            ⊎ ((p : Queued) × Holds p (q ∷ qs) × (k ≡ p.ordinal) × (contains_key k rejected ≡ true))
          → contains_key k kept' ≡ true
      go ih none e (inl c) = ih affected kept (rw (e, record_rejected) at h) (inl c)
      go ih none e (inr (p, inl f, g, c)) = absurd (ground (arith, e, c, g ∙ ap (λ x. x.ordinal) f))
      go ih none e (inr (p, inr m, g, c)) =
          ih affected kept (rw (e, record_rejected) at h) (inr (p, m, g, c))
      go ih (some code) e c =
          let (a, f, h1) =
            >>=-eq-ok (touch record_key (all_ops q.mutation) affected)
              (λ a.
                record_rejected record_key rejected qs a (insert q.ordinal (refusal q code) kept))
              (rw (e, record_rejected) at h) in
          ih a (insert q.ordinal (refusal q code) kept) h1 (later c)
        where
          later :
              (contains_key k kept ≡ true)
                ⊎ ((p : Queued) × Holds p (q ∷ qs)
                    × (k ≡ p.ordinal)
                    × (contains_key k rejected ≡ true))
              → Later (insert q.ordinal (refusal q code) kept)
          later (inl c) = inl (ground (arith, c, lookup-insert k q.ordinal (refusal q code) kept))
          later (inr (p, inl f, g, c)) = inl (
              ground (
                arith,
                g ∙ ap (λ x. x.ordinal) f,
                lookup-insert k q.ordinal (refusal q code) kept,
                same_iff k q.ordinal,
              ))
          later (inr (p, inr m, g, c)) = inr (p, m, g, c)

-- What rejections leave: of the queued mutations exactly those that no rejection reaches, with their
-- lifecycle dependencies whole, and a durable record of each one that is gone.
pub record Settled (s s' : Outbox) (rejections : List Rejection) : Type 0 where
  pub gone :
      (q : Queued) → Holds q s'.queue → ¬ Reached s.queue (by_ordinal rejections []) q.ordinal
  pub kept :
      (q : Queued)
      → Holds q s.queue
      → ¬ Reached s.queue (by_ordinal rejections []) q.ordinal
      → (q' : Queued) × Holds q' s'.queue
        × (q'.ordinal ≡ q.ordinal)
        × (q'.push ≡ q.push)
        × (q'.mutation.operations ≡ q.mutation.operations)
        × (q'.mutation.lifecycle_dependencies ≡ q.mutation.lifecycle_dependencies)
  pub noted :
      (q : Queued)
      → Holds q s.queue
      → Reached s.queue (by_ordinal rejections []) q.ordinal
      → contains_key q.ordinal s'.rejections ≡ true

module _ (queue : List Queued) (rejections : List Rejection) where
  abbrev dropped : List (ℕ × Text)
  dropped = closure queue rejections

  deleted-gone :
      (q : Queued)
      → Holds q (delete_mutations (keys dropped) queue)
      → ¬ Reached queue (by_ordinal rejections []) q.ordinal
  unfolding delete_mutations
  deleted-gone q m r =
      let (p, n, e) =
        map-Holds (release (keys dropped)) q (keep (λ x. not (has_ordinal (keys dropped) x)) queue)
          m in
      let (i, f) = keep-Holds (λ x. not (has_ordinal (keys dropped) x)) p queue n in
      let c = (closure_iff queue rejections q.ordinal).1 r in
      absurd (ground (arith, f, c, keys-contains dropped p.ordinal, ap (λ x. x.ordinal) e))

  deleted-kept :
      (q : Queued)
      → Holds q queue
      → ¬ Reached queue (by_ordinal rejections []) q.ordinal
      → Holds (release (keys dropped) q) (delete_mutations (keys dropped) queue)
        × (without (keys dropped) q.mutation.lifecycle_dependencies
            ≡ q.mutation.lifecycle_dependencies)
  unfolding delete_mutations
  deleted-kept q m free = (
    Holds-map (release (keys dropped)) q (keep (λ x. not (has_ordinal (keys dropped) x)) queue) (
        Holds-keep (λ x. not (has_ordinal (keys dropped) x)) q queue m
          (ground (arith, keys-contains dropped q.ordinal, not_dropped q.ordinal free))),
    keep_all (λ d. not (any (λ n. n == d) (keys dropped))) q.mutation.lifecycle_dependencies
        (λ d i.
          ground (
            arith,
            keys-contains dropped d,
            not_dropped d (λ r. free (Reached.depends q d m i r)),
          )),
  )
    where
      not_dropped :
          (k : ℕ) → ¬ Reached queue (by_ordinal rejections []) k → contains_key k dropped ≡ false
      not_dropped k unreached = elim (Bool-cases (contains_key k dropped)) [
        | inl c ↦ absurd (unreached ((closure_iff queue rejections k).0 c))
        | inr c ↦ c
      ]

first_of :
    {A B : Type 0} {a a' : A} {b b' : B}
    → ◌≡◌ {A = Result (A × B)} (ok (a, b)) (ok (a', b'))
    → a ≡ a'
first_of h = cc

-- Where rejections are marked without an error, the queue keeps exactly the mutations that they do not
-- reach, each with its lifecycle dependencies whole, and every one that they reach has a record among
-- the rejections.
pub mark_rejected-Settled :
    {K : Type 0} (record_key : Text → Value → Result (Text × K)) (s s' : Outbox)
    (rejections : List Rejection) (affected : List (Text × K))
    → mark_rejected record_key s rejections ≡ ok (s', affected)
    → Settled s s' rejections
unfolding mark_rejected
mark_rejected-Settled record_key s s' rejections affected h =
    let rejected = closure s.queue rejections in
    let ((touched, notes), e, h1) =
      >>=-eq-ok (record_rejected record_key rejected s.queue [] s.rejections) _ h in
    let left : Outbox = record s {
      queue = delete_mutations (keys rejected) s.queue;
      rejections = notes;
    } in
    let same_state : left ≡ s' = first_of h1 in
    rw (← same_state) (record {
      gone = deleted-gone s.queue rejections;
      kept = λ q m free.
          let (inside, whole) = deleted-kept s.queue rejections q m free in
          (release (keys rejected) q, inside, refl, refl, refl, whole);
      noted = λ q m r.
          record_rejected-keeps record_key rejected s.queue [] s.rejections q.ordinal e
            (inr (q, m, refl, (closure_iff s.queue rejections q.ordinal).1 r));
    })
