-- ===== src/Client/Rebase/Replay.antt =====
-- What `rebuild` of crates/client/src/mutate.rs shows of a record.
use ahead.Common.{
  Error, ℕ, ◌≡◌, refl, ◌∙◌, ◌⊎◌, inl, inr, Bool, true, false, List, [], ◌∷◌, Option, none, some,
  Result, ok, err, >>=-eq-ok, if◌then◌else◌,
}
use ahead.Core.Json.{Value}
use ahead.Core.Schema.{RecordKey}
use ahead.Client.Queue.{Operation}
use ahead.Client.Authority.{Tables, apply_to_row}
use ahead.Client.Rebase.{Queue, replay, shown, no_ops, mark_diverged, show_row, rebuild}

ok_parts :
    {A B : Type 0} (a a' : A) (b b' : B)
    → ◌≡◌ {A = Result (A × B)} (ok (a, b)) (ok (a', b'))
    → (a ≡ a') × (b ≡ b')
ok_parts a a' b b' h = (cc, cc)

-- A visible row is read back as its columns hold it, and before rows and marks leave it.
pub record Visible {R : Type 0} (tables : Tables R) (queue : Queue R) : Type 0 where
  pub stored : RecordKey → Option Value → Option Value
  pub main_read :
      (key : RecordKey) (v : Option Value) (r r' : R)
      → tables.main_set key v r ≡ ok r'
      → tables.read_row key r' ≡ ok (stored key v)
  pub before_row :
      (key : RecordKey) (v : Option Value) (r r' : R)
      → tables.before_set key v r ≡ ok r'
      → tables.read_row key r' ≡ tables.read_row key r
  pub mark_row :
      (key : RecordKey) (ordinal : ℕ) (r r' : R)
      → queue.set_diverged ordinal r ≡ ok r'
      → tables.read_row key r' ≡ tables.read_row key r

-- The operations apply to the first row in turn, and give the last.
pub data Replays : List (ℕ × Operation) → Option Value → Option Value → Type 0 where
  over : {row : Option Value} → Replays [] row row
  applies :
      {ordinal : ℕ} {op : Operation} {ops : List (ℕ × Operation)} {row next last : Option Value}
      → apply_to_row row op ≡ ok next
      → Replays ops next last
      → Replays ((ordinal, op) ∷ ops) row last

-- The operations apply up to one that does not, whose mutation has the ordinal.
pub data FailsAt : ℕ → List (ℕ × Operation) → Option Value → Type 0 where
  fails :
      {ordinal : ℕ} {op : Operation} {ops : List (ℕ × Operation)} {row : Option Value} {e : Error}
      → apply_to_row row op ≡ err e
      → FailsAt ordinal ((ordinal, op) ∷ ops) row
  applies :
      {first ordinal : ℕ} {op : Operation} {ops : List (ℕ × Operation)} {row next : Option Value}
      → apply_to_row row op ≡ ok next
      → FailsAt ordinal ops next
      → FailsAt ordinal ((first, op) ∷ ops) row

-- How replaying ends: with the row that every operation was applied to, or at the one that fails.
abbrev Ends : List (ℕ × Operation) → Option Value → Option Value × Option ℕ → Type 0
Ends ops row (last, none) = Replays ops row last
Ends ops row (last, some ordinal) = FailsAt ordinal ops row

replay-Ends : (ops : List (ℕ × Operation)) (row : Option Value) → Ends ops row (replay ops row)
unfolding replay
replay-Ends [] row = over
replay-Ends ((ordinal, op) ∷ ops) row = go (λ next. replay-Ends ops next) (apply_to_row row op) refl
  where
    later :
        (next : Option Value)
        → apply_to_row row op ≡ ok next
        → (done : Option Value × Option ℕ) → Ends ops next done
        → Ends ((ordinal, op) ∷ ops) row done
    later next e (last, none) r = Replays.applies e r
    later next e (last, some n) r = FailsAt.applies e r

    go :
        ((next : Option Value) → Ends ops next (replay ops next))
        → (x : Result (Option Value)) → apply_to_row row op ≡ x
        → Ends ((ordinal, op) ∷ ops) row (elim x as (λ x. Option Value × Option ℕ) [
          | err e ↦ (row, some ordinal)
          | ok next ↦ replay ops next
        ])
    go ih (err f) e = fails e
    go ih (ok next) e = later next e (replay ops next) (ih next)

module _ {R : Type 0} (tables : Tables R) (queue : Queue R) (laws : Visible tables queue) where
  -- The row is shown, or the tables refuse it and the truth is.
  abbrev pub Shows : RecordKey → Option Value → Option Value → R → R → Type 0
  Shows key row truth r r' =
      (tables.read_row key r' ≡ ok (laws.stored key row))
      ⊎ ((e : Error) × (tables.main_set key row r ≡ err e)
          × (tables.read_row key r' ≡ ok (laws.stored key truth)))

  show_row-Shows :
      (key : RecordKey) (row truth : Option Value) (r r' : R)
      → show_row tables queue key row truth r ≡ ok r'
      → Shows key row truth r r'
  show_row-Shows key row truth r r' h = go (tables.main_set key row r) refl h
    where
      go :
          (x : Result R)
          → tables.main_set key row r ≡ x
          → (elim x as (λ x. Result R) [ ok r1 ↦ ok r1 | err e ↦ tables.main_set key truth r ])
            ≡ ok r'
          → Shows key row truth r r'
      go (ok r1) e h = inl (laws.main_read key row r r' (e ∙ h))
      go (err e) f h = inr (e, f, laws.main_read key truth r r' h)

  Shows-moved :
      (key : RecordKey) (row truth : Option Value) (r r1 r3 r' : R)
      → r3 ≡ r'
      → tables.read_row key r3 ≡ tables.read_row key r1
      → Shows key row truth r r1
      → Shows key row truth r r'
  Shows-moved key row truth r r1 r3 r' last unmoved (inl e) = inl (rw (← last) (unmoved ∙ e))
  Shows-moved key row truth r r1 r3 r' last unmoved (inr (e, f, g)) =
      inr (e, f, rw (← last) (unmoved ∙ g))

  mark_diverged-row :
      (key : RecordKey) (failed : Option ℕ) (r r' : R)
      → mark_diverged tables queue failed r ≡ ok r'
      → tables.read_row key r' ≡ tables.read_row key r
  mark_diverged-row key none r r' h = let e : r ≡ r' = cc in rw (← e) refl
  mark_diverged-row key (some ordinal) r r' h = laws.mark_row key ordinal r r' h

  clear-row :
      (key : RecordKey) (none_left : Bool) (r r' : R)
      → (if none_left then tables.before_set key none r else ok r) ≡ ok r'
      → tables.read_row key r' ≡ tables.read_row key r
  clear-row key true r r' h = laws.before_row key none r r' h
  clear-row key false r r' h = let e : r ≡ r' = cc in rw (← e) refl

  -- Every operation applied and the resulting row is shown, or one failed and the truth is.
  abbrev pub Rebuilt : RecordKey → List (ℕ × Operation) → Option Value → Option ℕ → R → R → Type 0
  Rebuilt key ops truth none r r' =
      (row : Option Value) × Replays ops truth row × Shows key row truth r r'
  Rebuilt key ops truth (some ordinal) r r' =
      FailsAt ordinal ops truth × (tables.read_row key r' ≡ ok (laws.stored key truth))

  replayed-Rebuilt :
      (key : RecordKey) (ops : List (ℕ × Operation)) (truth : Option Value) (r r' : R)
      (done : Option Value × Option ℕ)
      → Ends ops truth done
      → Shows key (shown truth done) truth r r'
      → Rebuilt key ops truth done.1 r r'
  replayed-Rebuilt key ops truth r r' (row, none) replays s = (row, replays, s)
  replayed-Rebuilt key ops truth r r' (row, some ordinal) failing (inl e) = (failing, e)
  replayed-Rebuilt key ops truth r r' (row, some ordinal) failing (inr (e, f, g)) = (failing, g)

  -- Where rebuilding a record succeeds, there are two cases. If the operations queued on it apply in turn to its
  -- truth, no ordinal is returned and the last row is shown, or the truth where the tables refuse that row. If one
  -- of them fails, the ordinal of its mutation is returned and the truth is shown.
  pub rebuild-Shows :
      (key : RecordKey) (r r' : R) (failed : Option ℕ)
      → rebuild tables queue key r ≡ ok (r', failed)
      → (truth : Option Value) × (ops : List (ℕ × Operation)) × (tables.before_get key r ≡ ok truth)
        × (queue.ops_for key r ≡ ok ops)
        × Rebuilt key ops truth failed r r'
  unfolding rebuild
  rebuild-Shows key r r' failed h =
      let (truth, e0, h0) = >>=-eq-ok (tables.before_get key r) _ h in
      let (ops, e1, h1) = >>=-eq-ok (queue.ops_for key r) _ h0 in
      let (r1, e2, h2) =
        >>=-eq-ok (show_row tables queue key (shown truth (replay ops truth)) truth r) _ h1 in
      let (r2, e3, h3) =
        >>=-eq-ok (if no_ops ops then tables.before_set key none r1 else ok r1) _ h2 in
      let (r3, e4, h4) =
        >>=-eq-ok (mark_diverged tables queue (replay ops truth).1 r2)
          (λ r3. ok (r3, (replay ops truth).1)) h3 in
      let (last, result) = ok_parts r3 r' (replay ops truth).1 failed h4 in
      let unmoved =
        mark_diverged-row key (replay ops truth).1 r2 r3 e4 ∙ clear-row key (no_ops ops) r1 r2 e3 in
      (
        truth,
        ops,
        e0,
        e1,
        rw (← result) (
            replayed-Rebuilt key ops truth r r' (replay ops truth) (replay-Ends ops truth) (
              Shows-moved key (shown truth (replay ops truth)) truth r r1 r3 r' last unmoved
                (show_row-Shows key (shown truth (replay ops truth)) truth r r1 e2))),
      )
