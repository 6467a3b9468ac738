-- ===== src/Client/Push/Retry.antt =====
-- A frozen batch of crates/client/src/push.rs is sent again as it was.
use ahead.Common.{
  ℕ, ◌≡◌, refl, ap, ◌∙◌, Bool, true, false, ◌||◌, List, [], ◌∷◌, map, Option, none, some, Result,
  ok, ◌>>=◌, >>=-eq-ok, ◌==◌, if◌then◌else◌, any, Ordering, arith, inl, inr, ◌≢◌, Holds,
}
use ahead.Common.Text.{Text}
use ahead.Common.Map.{insert}
use ahead.Common.Order.{nat_ord}
use ahead.Core.Json.{Value, Serde}
use ahead.Client.Queue.{Queued, Outbox, allocate_push, assign_push, pushes, in_flight, has_ordinal}
use ahead.Client.Push.Selection.{select_lem, Chain-queued}
use ahead.Client.Push.{
  assigned, freeze, freeze_open, freeze_selected, select, encode_push, models_value,
}
use ahead.Client.Push.Meanwhile.{Meanwhile, Meanwhile-Sends}

-- What a batch's assignment leaves in flight: nothing where no mutation was in it, else that push.
abbrev pub sole : ℕ → Bool → List (ℕ × Unit {0})
sole push hit = if hit then (push, tt) ∷ [] else []

insert-not_nil : (k : ℕ) (m : List (ℕ × Unit {0})) → insert k tt m ≢ []
unfolding insert
insert-not_nil k [] h = ground arith
insert-not_nil k ((j, u) ∷ m) h = go (nat_ord.cmp k j) refl
  where
    go : (r : Ordering) → nat_ord.cmp k j ≡ r → ⊥
    go Ordering.lt e = absurd (ground (arith, rw (e, insert) at h))
    go Ordering.eq e = absurd (ground (arith, rw (e, insert) at h))
    go Ordering.gt e = absurd (ground (arith, rw (e, insert) at h))

insert_same : (push : ℕ) → insert push (tt {0}) ((push, tt) ∷ []) ≡ (push, tt) ∷ []
unfolding insert
insert_same push = rw (nat_ord.cmp_refl push, insert) refl

no_push :
    (q : Queued) (qs : List Queued) → pushes (q ∷ qs) ≡ [] → (q.push ≡ none) × (pushes qs ≡ [])
unfolding pushes
no_push q qs h = go q.push refl
  where
    go : (r : Option ℕ) → q.push ≡ r → (q.push ≡ none) × (pushes qs ≡ [])
    go none e = (e, simp (e, pushes) at h)
    go (some p) e = absurd (insert-not_nil p (pushes qs) (simp (e, pushes) at h))

alone : (push : ℕ) → insert push (tt {0}) [] ≡ (push, tt) ∷ []
unfolding insert
alone push = refl

pushes-first :
    (push : ℕ) (q : Queued) (rest : List Queued) (hit : Bool)
    → q.push ≡ none
    → pushes ((if hit then record q { push = some push } else q) ∷ rest)
      ≡ (if hit then insert push tt (pushes rest) else pushes rest)
unfolding pushes
pushes-first push q rest true unsent = refl
pushes-first push q rest false unsent = simp (unsent, pushes) refl

-- In a queue without a push, an assignment leaves the new push alone in flight.
pushes-assign :
    (ordinals : List ℕ) (push : ℕ) (queue : List Queued)
    → pushes queue ≡ []
    → pushes (assign_push ordinals push queue) ≡ sole push (any (has_ordinal ordinals) queue)
unfolding pushes assign_push
pushes-assign ordinals push [] h = refl
pushes-assign ordinals push (q ∷ qs) h =
    let (unsent, rest) = no_push q qs h in
    pushes-first push q (assign_push ordinals push qs) (has_ordinal ordinals q) unsent
    ∙ go (has_ordinal ordinals q) (any (has_ordinal ordinals) qs)
        (pushes-assign ordinals push qs rest)
  where
    go :
        (b c : Bool) {m : List (ℕ × Unit {0})}
        → m ≡ sole push c
        → (if b then insert push tt m else m) ≡ sole push (b || c)
    go true true e = rw e (insert_same push)
    go true false e = rw e (alone push)
    go false c e = e

hit_queued :
    (q : Queued) (ordinals : List ℕ) (queue : List Queued)
    → Holds q queue
    → any (has_ordinal (q.ordinal ∷ ordinals)) queue ≡ true
hit_queued q ordinals [] m = absurd m
hit_queued q ordinals (p ∷ ps) (inl e) = rw (← e) (ground arith)
hit_queued q ordinals (p ∷ ps) (inr m) = ground (arith, hit_queued q ordinals ps m)

none_in_flight : (queue : List Queued) → in_flight queue ≡ ok none → pushes queue ≡ []
unfolding in_flight
none_in_flight queue h = go (pushes queue) refl
  where
    go : (m : List (ℕ × Unit {0})) → pushes queue ≡ m → pushes queue ≡ []
    go [] e = e
    go (p ∷ []) e = cc (rw (e, in_flight) at h)
    go (p ∷ q ∷ qs) e = cc (rw (e, in_flight) at h)

pub assigned-in_flight :
    (queue : List Queued) (push : ℕ) (q : Queued) (ordinals : List ℕ)
    → in_flight queue ≡ ok none
    → Holds q queue
    → in_flight (assign_push (q.ordinal ∷ ordinals) push queue) ≡ ok (some push)
unfolding in_flight
assigned-in_flight queue push q ordinals h m =
    let e : pushes (assign_push (q.ordinal ∷ ordinals) push queue) ≡ (push, tt) ∷ [] =
      pushes-assign (q.ordinal ∷ ordinals) push queue (none_in_flight queue h)
      ∙ ap (sole push) (hit_queued q ordinals queue m) in
    rw (e, in_flight) refl

allocated :
    (s s1 : Outbox) (push : ℕ)
    → allocate_push s ≡ ok (s1, push)
    → (s1.queue ≡ s.queue) × (push ≡ s.next_push)
unfolding allocate_push
allocated s s1 push h = (ground arith, ground arith)

unframed :
    {s s' : Outbox} {b bytes : Text}
    → ◌≡◌ {A = Result (Outbox × Option Text)} (ok (s, some b)) (ok (s', some bytes))
    → (s ≡ s') × (b ≡ bytes)
unframed h = (cc, cc)

module _ (serde : Serde) where
  encoded_again :
      (s : Outbox) (declared : List (Text × ℕ)) (max_bytes push : ℕ) (bytes : Text)
      → max_bytes ≢ 0
      → in_flight s.queue ≡ ok (some push)
      → encode_push serde s push ≡ ok bytes
      → freeze serde s declared max_bytes ≡ ok (s, some bytes)
  unfolding freeze
  encoded_again s declared max_bytes push bytes positive e f =
      let open_limit : (max_bytes == 0) ≡ false = ground (arith, positive) in
      rw (open_limit, freeze) (rw (e, freeze) (rw (f, freeze) refl))

  -- What freezing a selected batch leaves in flight.
  pub freeze_selected-in_flight :
      (s s' : Outbox) (models : Value) (batch : List Queued) (bytes : Text)
      → in_flight s.queue ≡ ok none
      → ((q : Queued) → Holds q batch → Holds q s.queue)
      → freeze_selected serde s models batch ≡ ok (s', some bytes)
      → (in_flight s'.queue ≡ ok (some s.next_push)) × (encode_push serde s' s.next_push ≡ ok bytes)
  freeze_selected-in_flight s s' models [] bytes idle inside h = absurd (ground arith)
  freeze_selected-in_flight s s' models (q ∷ qs) bytes idle inside h =
      let ((s1, push), e, h1) = >>=-eq-ok (allocate_push s) _ h in
      let (b, f, h2) =
        >>=-eq-ok (encode_push serde (assigned serde s1 models push (q ∷ qs)) push)
          (λ b. ok (assigned serde s1 models push (q ∷ qs), some b)) h1 in
      let (same_queue, same_push) = allocated s s1 push e in
      let (same_state, same_bytes) = unframed h2 in
      let flying : in_flight (assigned serde s1 models push (q ∷ qs)).queue ≡ ok (some push) =
        rw same_queue (
          assigned-in_flight s.queue push q (map (λ p. p.ordinal) qs) idle (inside q (inl refl))) in
      (
        rw (← same_state) (rw (← same_push) flying),
        rw (← same_state) (rw (← same_push) (rw (← same_bytes) f)),
      )

  -- A batch that was frozen: what is in flight, and what its rows encode to.
  record Frozen (s' : Outbox) (bytes : Text) : Type 0 where
    push : ℕ
    flying : in_flight s'.queue ≡ ok (some push)
    encoded : encode_push serde s' push ≡ ok bytes

  freeze_open-Frozen :
      (s s' : Outbox) (declared : List (Text × ℕ)) (max_bytes : ℕ) (bytes : Text) (r : Option ℕ)
      → in_flight s.queue ≡ ok r
      → freeze_open serde s declared max_bytes r ≡ ok (s', some bytes)
      → Frozen s' bytes
  freeze_open-Frozen s s' declared max_bytes bytes (some push) e h =
      let (b, f, h1) = >>=-eq-ok (encode_push serde s push) (λ b. ok (s, some b)) h in
      let (same_state, same_bytes) = unframed h1 in
      record {
        push = push;
        flying = rw (← same_state) e;
        encoded = rw (← same_state) (rw (← same_bytes) f);
      }
  freeze_open-Frozen s s' declared max_bytes bytes none e h =
      let models = models_value declared in
      let (batch, f, h1) =
        >>=-eq-ok (select serde s models max_bytes s.queue [] []) (freeze_selected serde s models)
          h in
      let chosen = select_lem serde s models max_bytes f in
      let (flying, encoded) =
        freeze_selected-in_flight s s' models batch bytes e
          (Chain-queued s.queue [] batch chosen.chain) h1 in
      record { push = s.next_push; flying = flying; encoded = encoded }

  freeze-Frozen :
      (s s' : Outbox) (declared : List (Text × ℕ)) (max_bytes : ℕ) (bytes : Text)
      → freeze serde s declared max_bytes ≡ ok (s', some bytes)
      → Frozen s' bytes
  unfolding freeze
  freeze-Frozen s s' declared max_bytes bytes h = go (max_bytes == 0) h
    where
      go :
          (closed : Bool)
          → ◌≡◌ {A = Result (Outbox × Option Text)}
              (if closed
                then ok (s, none)
                else in_flight s.queue >>= freeze_open serde s declared max_bytes)
              (ok (s', some bytes))
          → Frozen s' bytes
      go true h = absurd (ground arith)
      go false h =
          let (r, e, h1) =
            >>=-eq-ok (in_flight s.queue) (freeze_open serde s declared max_bytes) h in
          freeze_open-Frozen s s' declared max_bytes bytes r e h1

  -- Where `freeze` gave bytes to send, freezing again gives the same bytes and changes nothing, whatever
  -- mutations were enqueued and prerequisites resolved meanwhile, whatever models are declared by then, and
  -- whatever the limit is, if it is not zero.
  pub freeze_again :
      (s s' t : Outbox) (declared later : List (Text × ℕ)) (max_bytes limit : ℕ) (bytes : Text)
      → freeze serde s declared max_bytes ≡ ok (s', some bytes)
      → Meanwhile s' t
      → limit ≢ 0
      → freeze serde t later limit ≡ ok (t, some bytes)
  unfolding in_flight encode_push
  freeze_again s s' t declared later max_bytes limit bytes h path positive =
      let frozen = freeze-Frozen s s' declared max_bytes bytes h in
      let sends = Meanwhile-Sends s' t path in
      let flying : in_flight t.queue ≡ ok (some frozen.push) =
        rw (in_flight, sends.pushed) frozen.flying in
      encoded_again t later limit frozen.push bytes positive flying
        (rw (sends.client, sends.declared, sends.acts frozen.push) frozen.encoded)
