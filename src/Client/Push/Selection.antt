-- ===== src/Client/Push/Selection.antt =====
-- Which mutations `freeze` of crates/client/src/push.rs puts into a batch.
use ahead.Common.{
  ℕ, ◌≤◌, ◌<◌, ◌≡◌, refl, Bool, true, false, not, ◌&&◌, ◌||◌, List, [], ◌∷◌, ◌++◌, none, Result, ok,
  err, >>=-eq-ok, leb, ◌==◌, if◌then◌else◌, any, arith, inl, inr, ◌⊎◌, Bool-cases, length,
  length-append, All, All-map, Holds,
}
use ahead.Common.Text.{Text}
use ahead.Common.Map.{insert, lookup, contains_key, lookup-insert}
use ahead.Common.Order.{nat_ord, text_ord, same, same_iff}
use ahead.Core.Json.{Value, Serde, canonical_json}
use ahead.Core.Counter.{push_mutations}
use ahead.Client.Queue.{Queued, Outbox, prerequisite_keys, add_keys}
use ahead.Client.Push.{
  is_unsent, unsent_set, is_blocked, fits, takes, select, request_json, byte_length,
}

-- Some mutation of the queue with this ordinal is not sent.
abbrev pub Unsent : ℕ → List Queued → Type 0
Unsent d [] = ⊥
Unsent d (q ∷ qs) = ((q.ordinal ≡ d) × (q.push ≡ none)) ⊎ Unsent d qs

-- What a mutation must satisfy to be sent after the mutations `before` of its batch: it is in the queue
-- and not sent, waits for no prerequisite, depends in its lifecycle on sent mutations only, and in its
-- sequence on mutations that are sent or stand before it.
pub record Sendable (queue : List Queued) (before : List ℕ) (q : Queued) : Type 0 where
  pub queued : Holds q queue
  pub unsent : q.push ≡ none
  pub ready : q.mutation.prerequisites ≡ []
  pub lifecycle : All (λ d. ¬ Unsent d queue) q.mutation.lifecycle_dependencies
  pub sequence : All (λ d. (¬ Unsent d queue) ⊎ Holds d before) q.mutation.sequence_dependencies

-- Every mutation of a batch is sendable after those that stand before it.
abbrev pub Chain : List Queued → List ℕ → List Queued → Type 0
Chain queue before [] = Unit
Chain queue before (q ∷ qs) = Sendable queue before q × Chain queue (q.ordinal ∷ before) qs

abbrev pub after : List ℕ → List Queued → List ℕ
after before [] = before
after before (q ∷ qs) = after (q.ordinal ∷ before) qs

Chain-append :
    (queue : List Queued) (before : List ℕ) (qs : List Queued) (q : Queued)
    → Chain queue before qs
    → Sendable queue (after before qs) q
    → Chain queue before (qs ++ (q ∷ []))
Chain-append queue before [] q c s = (s, tt)
Chain-append queue before (p ∷ qs) q c s = (c.0, Chain-append queue (p.ordinal ∷ before) qs q c.1 s)

after-append :
    (before : List ℕ) (qs : List Queued) (q : Queued)
    → after before (qs ++ (q ∷ [])) ≡ q.ordinal ∷ after before qs
after-append before [] q = refl
after-append before (p ∷ qs) q = after-append (p.ordinal ∷ before) qs q

unsent_set-Unsent :
    (d : ℕ) (queue : List Queued) → Unsent d queue → contains_key d (unsent_set queue) ≡ true
unfolding unsent_set
unsent_set-Unsent d [] u = absurd u
unsent_set-Unsent d (q ∷ qs) (inl (e, f)) =
    ground (arith, e, f, lookup-insert d q.ordinal (tt {0}) (unsent_set qs), same_iff d q.ordinal)
unsent_set-Unsent d (q ∷ qs) (inr u) =
    ground (arith, unsent_set-Unsent d qs u, lookup-insert d q.ordinal (tt {0}) (unsent_set qs))

add_keys-first :
    (ks : List Text) (set : List (Text × Unit {0})) (k : Text)
    → Holds k ks
    → contains_key k (add_keys ks set) ≡ true
unfolding add_keys
add_keys-first [] set k m = absurd m
add_keys-first (j ∷ ks) set k (inl e) =
    ground (arith, e, lookup-insert k j (tt {0}) (add_keys ks set), same_iff k j)
add_keys-first (j ∷ ks) set k (inr m) =
    ground (arith, add_keys-first ks set k m, lookup-insert k j (tt {0}) (add_keys ks set))

add_keys-rest :
    (ks : List Text) (set : List (Text × Unit {0})) (k : Text)
    → contains_key k set ≡ true
    → contains_key k (add_keys ks set) ≡ true
unfolding add_keys
add_keys-rest [] set k h = h
add_keys-rest (j ∷ ks) set k h =
    ground (arith, add_keys-rest ks set k h, lookup-insert k j (tt {0}) (add_keys ks set))

prerequisite_keys-own :
    (queue : List Queued) (q : Queued) (k : Text)
    → Holds q queue
    → Holds k q.mutation.prerequisites
    → contains_key k (prerequisite_keys queue) ≡ true
unfolding prerequisite_keys
prerequisite_keys-own [] q k m h = absurd m
prerequisite_keys-own (p ∷ qs) q k (inl e) h =
    add_keys-first p.mutation.prerequisites (prerequisite_keys qs) k (rw e at h)
prerequisite_keys-own (p ∷ qs) q k (inr m) h =
    add_keys-rest p.mutation.prerequisites (prerequisite_keys qs) k
      (prerequisite_keys-own qs q k m h)

-- The chosen set of the loop holds only mutations that stand in the batch.
abbrev pub ChosenBefore : List (ℕ × Unit {0}) → List ℕ → Type 0
ChosenBefore chosen before = (d : ℕ) → contains_key d chosen ≡ true → Holds d before

module _ (s : Outbox) (chosen : List (ℕ × Unit {0})) (before : List ℕ)
    (inside : ChosenBefore chosen before) where
  lifecycle_sent :
      (ds : List ℕ)
      → any (λ d. contains_key d (unsent_set s.queue)) ds ≡ false
      → All (λ d. ¬ Unsent d s.queue) ds
  lifecycle_sent [] h = tt
  lifecycle_sent (d ∷ ds) h = (
    λ u. absurd (ground (arith, unsent_set-Unsent d s.queue u)),
    lifecycle_sent ds (ground arith),
  )

  sequence_sent :
      (ds : List ℕ)
      → any (λ d. contains_key d (unsent_set s.queue) && not (contains_key d chosen)) ds ≡ false
      → All (λ d. (¬ Unsent d s.queue) ⊎ Holds d before) ds
  sequence_sent [] h = tt
  sequence_sent (d ∷ ds) h = (
    elim (Bool-cases (contains_key d chosen)) [
      | inl c ↦ inr (inside d c)
      | inr c ↦ inl (λ u. absurd (ground (arith, c, unsent_set-Unsent d s.queue u)))
    ],
    sequence_sent ds (ground arith),
  )

  ready_free :
      (q : Queued) (ks : List Text)
      → ((k : Text) → Holds k ks → contains_key k (prerequisite_keys s.queue) ≡ true)
      → any (λ k. contains_key k (prerequisite_keys s.queue)) ks ≡ false
      → ks ≡ []
  ready_free q [] own h = refl
  ready_free q (k ∷ ks) own h = absurd (ground (arith, own k (inl refl)))

  free-Sendable :
      (q : Queued)
      → Holds q s.queue
      → is_unsent q ≡ true
      → is_blocked (prerequisite_keys s.queue) (unsent_set s.queue) chosen q.mutation ≡ false
      → Sendable s.queue before q
  unfolding is_blocked
  free-Sendable q m unsent free = record {
    queued = m;
    unsent = ground (arith, unsent);
    ready =
        ready_free q q.mutation.prerequisites (λ k. prerequisite_keys-own s.queue q k m)
          (ground (arith, free));
    lifecycle = lifecycle_sent q.mutation.lifecycle_dependencies (ground (arith, free));
    sequence = sequence_sent q.mutation.sequence_dependencies (ground (arith, free));
  }

chosen_inside :
    (chosen : List (ℕ × Unit {0})) (before : List ℕ) (n : ℕ)
    → ChosenBefore chosen before
    → ChosenBefore (insert n tt chosen) (n ∷ before)
chosen_inside chosen before n inside d c = elim (Bool-cases (same d n)) [
  | inl e ↦ inl (ground (arith, e, same_iff d n))
  | inr e ↦ inr (inside d (ground (arith, c, e, lookup-insert d n (tt {0}) chosen)))
]

module _ (serde : Serde) (s : Outbox) (models : Value) (max_bytes : ℕ) where
  -- A batch of several mutations is within the limit.
  abbrev pub Small : List Queued → Type 0
  Small batch =
      (length batch ≤ 1)
      ⊎ ((t : Text) × (canonical_json serde (request_json s s.next_push models batch) ≡ ok t)
          × (byte_length t ≤ max_bytes))

  -- What a selected batch is: each mutation sendable after those before it, at most 20 of them, and
  -- within the limit of bytes unless it is a single one.
  pub record IsBatch (batch : List Queued) : Type 0 where
    pub chain : Chain s.queue [] batch
    pub few : length batch ≤ push_mutations
    pub small : Small batch

  takes-free :
      (batch : List Queued) (chosen : List (ℕ × Unit {0})) (q : Queued)
      → takes serde s models max_bytes batch chosen q ≡ ok true
      → (is_unsent q ≡ true)
        × (is_blocked (prerequisite_keys s.queue) (unsent_set s.queue) chosen q.mutation ≡ false)
        × (fits serde s models max_bytes batch q ≡ ok true)
  unfolding takes
  takes-free batch chosen q h =
      go (is_unsent q)
        (is_blocked (prerequisite_keys s.queue) (unsent_set s.queue) chosen q.mutation) h
    where
      go :
          (unsent blocked : Bool)
          → (if not unsent || blocked then ok false else fits serde s models max_bytes batch q)
            ≡ ok true
          → (unsent ≡ true) × (blocked ≡ false) × (fits serde s models max_bytes batch q ≡ ok true)
      go true true h = absurd (ground arith)
      go true false h = (refl, refl, h)
      go false blocked h = absurd (ground arith)

  fits-Small :
      (batch : List Queued) (q : Queued)
      → fits serde s models max_bytes batch q ≡ ok true
      → Small (batch ++ (q ∷ []))
  unfolding fits
  fits-Small [] q h = inl (omega arith)
  fits-Small (p ∷ ps) q h =
      let (t, e, h') =
        >>=-eq-ok (canonical_json serde (request_json s s.next_push models ((p ∷ ps) ++ (q ∷ []))))
          (λ t. ok (leb (byte_length t) max_bytes)) h in
      inr (t, e, ground (arith, h'))

  select-IsBatch :
      (qs batch : List Queued) (chosen : List (ℕ × Unit {0})) {result : List Queued}
      → All (λ q. Holds q s.queue) qs
      → ChosenBefore chosen (after [] batch)
      → IsBatch batch
      → length batch < push_mutations
      → select serde s models max_bytes qs batch chosen ≡ ok result
      → IsBatch result
  unfolding select
  select-IsBatch [] batch chosen {result = result} m inside b few h =
      let e : batch ≡ result = cc h in rw (← e) b
  select-IsBatch (q ∷ qs) batch chosen {result = result} m inside b few h =
      go (λ batch' chosen'. select-IsBatch qs batch' chosen' {result = result} m.1)
        (takes serde s models max_bytes batch chosen q) refl
    where
      longer : takes serde s models max_bytes batch chosen q ≡ ok true → IsBatch (batch ++ (q ∷ []))
      longer e =
          let (unsent, free, fit) = takes-free batch chosen q e in
          record {
            chain =
                Chain-append s.queue [] batch q b.chain
                  (free-Sendable s chosen (after [] batch) inside q m.0 unsent free);
            few = ground (arith, few, length-append batch (q ∷ []));
            small = fits-Small batch q fit;
          }

      go :
          ((batch' : List Queued) (chosen' : List (ℕ × Unit {0}))
            → ChosenBefore chosen' (after [] batch')
            → IsBatch batch'
            → length batch' < push_mutations
            → select serde s models max_bytes qs batch' chosen' ≡ ok result
            → IsBatch result)
          → (r : Result Bool) → takes serde s models max_bytes batch chosen q ≡ r
          → IsBatch result
      go ih (err d) e = cc (rw (e, select) at h)
      go ih (ok false) e = ih batch chosen inside b few (rw (e, select) at h)
      go ih (ok true) e =
          full (length (batch ++ (q ∷ [])) == push_mutations) refl (rw (e, select) at h)
        where
          full :
              (f : Bool)
              → (length (batch ++ (q ∷ [])) == push_mutations) ≡ f
              → ◌≡◌ {A = Result (List Queued)}
                  (elim f [
                    | true ↦ ok (batch ++ (q ∷ []))
                    | false ↦
                        select serde s models max_bytes qs
                          (batch ++ (q ∷ []))
                          (insert q.ordinal tt chosen)
                  ])
                  (ok result)
              → IsBatch result
          full true f h =
              let same_batch : batch ++ (q ∷ []) ≡ result = cc h in rw (← same_batch) (longer e)
          full false f h =
              ih (batch ++ (q ∷ [])) (insert q.ordinal tt chosen)
                (rw (after-append [] batch q)
                  (chosen_inside chosen (after [] batch) q.ordinal inside))
                (longer e) (ground (arith, few, f, length-append batch (q ∷ []))) h

none_chosen : ChosenBefore [] []
unfolding lookup
none_chosen d c = absurd (ground arith)

members_queued : (qs : List Queued) → All (λ q. Holds q qs) qs
members_queued [] = tt
members_queued (q ∷ qs) = (
  inl refl,
  All-map (λ p. Holds p qs) (λ p. Holds p (q ∷ qs)) (λ p m. inr m) qs (members_queued qs),
)

-- Whatever the queue, the batch that `freeze` selects from it holds at most 20 mutations, keeps within
-- the limit of bytes unless it is a single mutation, and each of its mutations is unsent, waits for no
-- prerequisite, depends in its lifecycle on sent mutations only, and in its sequence on mutations that
-- are sent or stand before it in the batch.
pub select_lem :
    (serde : Serde) (s : Outbox) (models : Value) (max_bytes : ℕ) {batch : List Queued}
    → select serde s models max_bytes s.queue [] [] ≡ ok batch
    → IsBatch serde s models max_bytes batch
select_lem serde s models max_bytes h =
    select-IsBatch serde s models max_bytes s.queue [] [] (members_queued s.queue) none_chosen
      (record { chain = tt; few = omega arith; small = inl (omega arith) }) (omega arith) h

pub Chain-queued :
    (queue : List Queued) (before : List ℕ) (batch : List Queued)
    → Chain queue before batch
    → (q : Queued) → Holds q batch
    → Holds q queue
Chain-queued queue before [] c q m = absurd m
Chain-queued queue before (p ∷ ps) c q (inl e) = rw e c.0.queued
Chain-queued queue before (p ∷ ps) c q (inr m) = Chain-queued queue (p.ordinal ∷ before) ps c.1 q m
