-- ===== src/Server/Push/Rejections.antt =====
-- Which mutations of a batch `process_push` of crates/server/src/lib.rs rejects.
use ahead.Common.{ℕ, ◌≡◌, refl, ◌∙◌, ap, ◌⊎◌, inl, inr, List, [], ◌∷◌, ◌++◌, ok}
use ahead.Common.Text.{Text}
use ahead.Core.Json.{Value, Serde}
use ahead.Core.Push.{PushRequest, RawMutation}
use ahead.Core.Record.{Rejection, PushReceipt}
use ahead.Core.Encode.{encode_receipt}
use ahead.Core.Schema.{Scalars, RecordKey}
use ahead.Server.Config.{done, Config, Mutation, under, internal_code}
use ahead.Server.Host.{Host, lift, call_typed, savepoint, handle, release, rollback, save_receipt}
use ahead.Server.Host.Returns.{
  Given, Given-done, Given-then, Given-map, Given-any, go_on-done, lift-done, under-done, give-done,
}
use ahead.Server.Readback.{Verdict, records, refusal}
use ahead.Server.Push.Turn.{one_mutation-cases}
use ahead.Server.Push.{
  Settled, reject, with_rejection, keep_results, settle_handled, conclude, run_mutation,
  one_mutation, run_batch, empty_batch, receipt_of, accept_batch,
}

-- The ordinals that are rejected, in the order of the mutations: one for each mutation at most.
abbrev pub Picked : List Rejection → List RawMutation → Type 0
Picked [] ms = Unit
Picked (r ∷ rs) [] = ⊥
Picked (r ∷ rs) (m ∷ ms) = ((r.ordinal ≡ m.ordinal) × Picked rs ms) ⊎ Picked (r ∷ rs) ms

Picked-skip :
    (rs : List Rejection) (m : RawMutation) (ms : List RawMutation)
    → Picked rs ms
    → Picked rs (m ∷ ms)
Picked-skip [] m ms p = tt
Picked-skip (r ∷ rs) m ms p = inr p

append_all : {A : Type 0} (xs ys zs : List A) → (xs ++ ys) ++ zs ≡ xs ++ (ys ++ zs)
append_all [] ys zs = refl
append_all (x ∷ xs) ys zs = ap (◌∷◌ x) (append_all xs ys zs)

append_nil : {A : Type 0} (xs : List A) → xs ≡ xs ++ []
append_nil [] = refl
append_nil (x ∷ xs) = ap (◌∷◌ x) (append_nil xs)

-- The rejections of a batch after some mutations.
abbrev Grown : List RawMutation → Settled → Settled → Type 0
Grown ms b b' = (rs : List Rejection) × (b'.rejections ≡ b.rejections ++ rs) × Picked rs ms

Grown-none : (m : RawMutation) (b b' : Settled) → b'.rejections ≡ b.rejections → Grown (m ∷ []) b b'
Grown-none m b b' e = ([], e ∙ append_nil b.rejections, tt)

Grown-one :
    (m : RawMutation) (code : Text) (b : Settled) → Grown (m ∷ []) b (with_rejection m code b)
Grown-one m code b = (reject m.ordinal code ∷ [], refl, inl (refl, tt))

Picked-append :
    (rs qs : List Rejection) (m : RawMutation) (ms : List RawMutation)
    → Picked rs (m ∷ [])
    → Picked qs ms
    → Picked (rs ++ qs) (m ∷ ms)
Picked-append [] qs m ms p q = Picked-skip qs m ms q
Picked-append (r ∷ []) qs m ms (inl (e, p)) q = inl (e, q)
Picked-append (r ∷ []) qs m ms (inr p) q = absurd p
Picked-append (r ∷ r' ∷ rs) qs m ms (inl (e, p)) q = absurd p
Picked-append (r ∷ r' ∷ rs) qs m ms (inr p) q = absurd p

Grown-then :
    (m : RawMutation) (ms : List RawMutation) (a b c : Settled)
    → Grown (m ∷ []) a b
    → Grown ms b c
    → Grown (m ∷ ms) a c
Grown-then m ms a b c (rs, e, p) (qs, e', q) = (
  rs ++ qs,
  e' ∙ ap (λ xs. xs ++ qs) e ∙ append_all a.rejections rs qs,
  Picked-append rs qs m ms p q,
)

module _ (serde : Serde) (scalars : Scalars) (config : Config) {S : Type 0} (host : Host S) where
  conclude-Grown :
      (m : RawMutation) (v : Verdict) (b : Settled) (s : S)
      → Given (Grown (m ∷ []) b) (conclude serde scalars config host m v b s)
  unfolding conclude
  conclude-Grown m (refusal code) b s =
      Given-any (Grown (m ∷ []) b) (call_typed host (rollback m.ordinal) s) _
        λ u t. Grown-one m code b
  conclude-Grown m (records rs) b s =
      Given-any (Grown (m ∷ []) b) (lift (keep_results serde scalars config rs b.results) s) _
        λ results t. Grown-none m b (record b { results = results }) refl

  run_mutation-Grown :
      (declared : List (Text × ℕ)) (owner : Text) (m : RawMutation) (d : Mutation) (args : Value)
      (targets : List RecordKey) (b : Settled) (s : S)
      → Given
          (Grown (m ∷ []) b)
          (run_mutation serde scalars config host declared owner m d args targets b s)
  unfolding run_mutation
  run_mutation-Grown declared owner m d args targets b s =
      let P = Grown (m ∷ []) b in
      Given-any P (call_typed host (savepoint m.ordinal) s) _ λ u s1.
        Given-any P (call_typed host (handle d.name d.version args owner m.ordinal) s1) _
          λ settlement s2.
            Given-any P
              (settle_handled serde scalars config host declared owner targets settlement s2) _
              λ v s3.
                Given-then P P (conclude serde scalars config host m v b s3) _
                  (conclude-Grown m v b s3)
                  λ next g s4. Given-any P (call_typed host (release m.ordinal) s4) _ λ w s5. g

  one_mutation-Grown :
      (declared : List (Text × ℕ)) (owner : Text) (m : RawMutation) (b : Settled) (s : S)
      → Given (Grown (m ∷ []) b) (one_mutation serde scalars config host declared owner m b s)
  one_mutation-Grown declared owner m b =
      one_mutation-cases serde scalars config host declared owner m b
        (λ f. (s : S) → Given (Grown (m ∷ []) b) (f s)) (λ c s. Grown-one m c b)
        λ d args targets. run_mutation-Grown declared owner m d args targets b

  run_batch-Grown :
      (declared : List (Text × ℕ)) (owner : Text) (ms : List RawMutation) (b : Settled) (s : S)
      → Given (Grown ms b) (run_batch serde scalars config host declared owner ms b s)
  unfolding run_batch
  run_batch-Grown declared owner [] b s = ([], append_nil b.rejections, tt)
  run_batch-Grown declared owner (m ∷ ms) b s =
      Given-then (Grown (m ∷ []) b) (Grown (m ∷ ms) b)
        (one_mutation serde scalars config host declared owner m b s) _
        (one_mutation-Grown declared owner m b s)
        λ next g t.
          Given-map (Grown ms next) (Grown (m ∷ ms) b)
            (run_batch serde scalars config host declared owner ms next t)
            (λ last h. Grown-then m ms b next last g h) (run_batch-Grown declared owner ms next t)

  -- The receipt of an accepted batch is the encoding of a batch whose rejections are of its mutations, in
  -- their order, at most one for each.
  pub accept_batch-Picked :
      (owner : Text) (request : PushRequest) (s s' : S) (text : Text)
      → accept_batch serde scalars config host owner request s ≡ (s', done text)
      → (receipt : PushReceipt) × (encode_receipt serde receipt ≡ ok text)
        × (receipt.client_id ≡ request.client_id)
        × (receipt.batch_sequence ≡ request.batch_sequence)
        × Picked receipt.rejections request.mutations
  unfolding accept_batch
  accept_batch-Picked owner request s s' text h =
      let (s1, b, e1, h1) =
        go_on-done
          (run_batch serde scalars config host request.models owner request.mutations empty_batch s)
          _ s' text h in
      let (s2, t, e2, h2) =
        go_on-done (lift (under internal_code (encode_receipt serde (receipt_of request b))) s1) _
          s' text h1 in
      let (s3, u, e3, h3) =
        go_on-done
          (call_typed host (save_receipt owner request.client_id request.batch_sequence t) s2) _ s'
          text h2 in
      let (rs, e, p) =
        Given-done (Grown request.mutations empty_batch) _ s1 b
          (run_batch-Grown request.models owner request.mutations empty_batch s) e1 in
      let encoded = under-done internal_code _ t (
        lift-done (under internal_code (encode_receipt serde (receipt_of request b))) s1 s2 t e2) in
      let same_text = give-done t s3 s' text h3 in
      (receipt_of request b, encoded ∙ ap ok same_text, refl, refl, rw e p)
