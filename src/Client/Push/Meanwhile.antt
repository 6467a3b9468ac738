-- ===== src/Client/Push/Meanwhile.antt =====
-- What crates/client/src/queue.rs may do to the queue while a push is in flight.
use ahead.Common.{
  ℕ, ◌≡◌, refl, sym, ap, ◌∙◌, keep, Bool, true, false, List, [], ◌∷◌, map, none, ok, if◌then◌else◌,
  arith,
}
use ahead.Common.Text.{Text}
use ahead.Common.Order.{nat_ord}
use ahead.Client.Queue.{
  Mutation, insert_mutation, new_row, place, resolve_prerequisite, without_key, Queued, Outbox,
  pushes,
}
use ahead.Client.Push.{act_value, in_push}

-- What happens to a queue between two freezes: mutations are enqueued, and prerequisites are resolved.
pub data Meanwhile : Outbox → Outbox → Type 0 where
  here : {s : Outbox} → Meanwhile s s
  enqueued :
      {s t : Outbox} (ordinal : ℕ) (m : Mutation) (queue : List Queued)
      → insert_mutation ordinal m t.queue ≡ ok queue
      → Meanwhile s t
      → Meanwhile s (record t { queue = queue })
  resolved :
      {s t : Outbox} (k : Text)
      → Meanwhile s t
      → Meanwhile s (record t { queue = resolve_prerequisite k t.queue })

-- The same is sent for every push.
pub record Sends (s t : Outbox) : Type 0 where
  pub client : t.client_id ≡ s.client_id
  pub declared : t.push_models ≡ s.push_models
  pub pushed : pushes t.queue ≡ pushes s.queue
  pub acts :
      (push : ℕ)
      → map act_value (keep (in_push push) t.queue) ≡ map act_value (keep (in_push push) s.queue)

placed-pushes :
    (new : Queued) (qs : List Queued) → new.push ≡ none → pushes (place new qs) ≡ pushes qs
unfolding pushes place
placed-pushes new [] unsent = simp unsent refl
placed-pushes new (q ∷ qs) unsent = ground (arith, unsent, placed-pushes new qs unsent)

placed-acts :
    (push : ℕ) (new : Queued) (qs : List Queued)
    → new.push ≡ none
    → keep (in_push push) (place new qs) ≡ keep (in_push push) qs
unfolding place
placed-acts push new [] unsent = ground (arith, unsent)
placed-acts push new (q ∷ qs) unsent = ground (arith, unsent, placed-acts push new qs unsent)

-- A mutation that is inserted is placed in the queue.
inserted :
    (ordinal : ℕ) (m : Mutation) (qs queue : List Queued)
    → insert_mutation ordinal m qs ≡ ok queue
    → place (new_row ordinal m) qs ≡ queue
unfolding insert_mutation
inserted ordinal m qs queue h = ground arith

resolved-pushes : (k : Text) (qs : List Queued) → pushes (resolve_prerequisite k qs) ≡ pushes qs
unfolding pushes resolve_prerequisite
resolved-pushes k [] = refl
resolved-pushes k (q ∷ qs) = ground (arith, resolved-pushes k qs)

resolved-acts :
    (push : ℕ) (k : Text) (qs : List Queued)
    → map act_value (keep (in_push push) (resolve_prerequisite k qs))
      ≡ map act_value (keep (in_push push) qs)
unfolding resolve_prerequisite
resolved-acts push k [] = refl
resolved-acts push k (q ∷ qs) =
    go (in_push push q) (keep (in_push push) (resolve_prerequisite k qs)) (keep (in_push push) qs)
      (resolved-acts push k qs)
  where
    go :
        (b : Bool) (xs ys : List Queued)
        → map act_value xs ≡ map act_value ys
        → map act_value (
            if b
            then record q {
              mutation = record (q.mutation) {
                prerequisites = without_key k q.mutation.prerequisites;
              };
            }
              ∷ xs
            else xs)
          ≡ map act_value (if b then q ∷ ys else ys)
    go true xs ys e = ap (◌∷◌ (act_value q)) e
    go false xs ys e = e

pub Meanwhile-Sends : (s t : Outbox) → Meanwhile s t → Sends s t
Meanwhile-Sends s _ here = record {
  client = refl;
  declared = refl;
  pushed = refl;
  acts = λ p. refl;
}
Meanwhile-Sends s _ (enqueued {t = t} ordinal m queue h before) =
    let sends = Meanwhile-Sends s t before in
    let placed = inserted ordinal m t.queue queue h in
    record {
      client = sends.client;
      declared = sends.declared;
      pushed =
          ap pushes (sym placed) ∙ placed-pushes (new_row ordinal m) t.queue refl ∙ sends.pushed;
      acts = λ p.
          ap (map act_value)
            (ap (keep (in_push p)) (sym placed) ∙ placed-acts p (new_row ordinal m) t.queue refl)
          ∙ sends.acts p;
    }
Meanwhile-Sends s _ (resolved {t = t} k before) =
    let sends = Meanwhile-Sends s t before in
    record {
      client = sends.client;
      declared = sends.declared;
      pushed = resolved-pushes k t.queue ∙ sends.pushed;
      acts = λ p. resolved-acts p k t.queue ∙ sends.acts p;
    }
