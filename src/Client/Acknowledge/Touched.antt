-- ===== src/Client/Acknowledge/Touched.antt =====
-- Lemmas on the keys that `acknowledge` of crates/client/src/push.rs compares.
use ahead.Common.{
  Error, ◌≡◌, refl, Bool, true, false, not, List, [], ◌∷◌, ◌++◌, Result, ok, >>=-eq-ok, any, ◌==◌,
  refuse, arith, inl, inr, Holds,
}
use ahead.Common.Text.{Text}
use ahead.Common.Map.{insert, lookup, contains_key, keys, lookup-insert}
use ahead.Common.Order.{text_ord, same_iff}
use ahead.Core.Json.{Value}
use ahead.Core.Record.{Rejection}
use ahead.Core.Schema.{RecordKey}
use ahead.Client.Queue.{Operation, Queued}
use ahead.Client.Rejected.{touch}
use ahead.Client.Authority.{Held}
use ahead.Client.Acknowledge.{wire_ops, has_rejected}

pub refuse-ok : (b : Bool) (e : Error) {u : Unit {0}} → refuse b e ≡ ok u → b ≡ false
refuse-ok true e h = cc
refuse-ok false e h = refl

pub wire_ops-Holds :
    (q : Queued) (op : Operation) (qs : List Queued)
    → Holds q qs
    → Holds op q.mutation.operations
    → Holds op (wire_ops qs)
wire_ops-Holds q op [] m i = absurd m
wire_ops-Holds q op (p ∷ qs) (inl e) i = left p.mutation.operations (rw (← e) i)
  where
    left : (ops : List Operation) → Holds op ops → Holds op (ops ++ wire_ops qs)
    left [] i = absurd i
    left (o ∷ ops) (inl e) = inl e
    left (o ∷ ops) (inr i) = inr (left ops i)
wire_ops-Holds q op (p ∷ qs) (inr m) i = right (wire_ops-Holds q op qs m i) p.mutation.operations
  where
    right : Holds op (wire_ops qs) → (ops : List Operation) → Holds op (ops ++ wire_ops qs)
    right later [] = later
    right later (o ∷ ops) = inr (right later ops)

pub has_rejected-Holds :
    (batch : List Queued) (r : Rejection)
    → has_rejected batch r ≡ true
    → (q : Queued) × Holds q batch × (q.ordinal ≡ r.ordinal)
has_rejected-Holds [] r h = cc
has_rejected-Holds (q ∷ qs) r h = go (q.ordinal == r.ordinal) refl (has_rejected-Holds qs r)
  where
    go :
        (b : Bool)
        → (q.ordinal == r.ordinal) ≡ b
        → (has_rejected qs r ≡ true → (p : Queued) × Holds p qs × (p.ordinal ≡ r.ordinal))
        → (p : Queued) × Holds p (q ∷ qs) × (p.ordinal ≡ r.ordinal)
    go true e ih = (q, inl refl, ground (arith, e))
    go false e ih = let (p, m, f) = ih (rw e at h) in (p, inr m, f)

pub missing_none :
    (covered : Held) (k : Text) (wire : Held)
    → any (λ j. not (contains_key j covered)) (keys wire) ≡ false
    → contains_key k wire ≡ true
    → contains_key k covered ≡ true
unfolding lookup
missing_none covered k [] f h = cc
missing_none covered k ((j, v) ∷ wire) f h =
    ground (arith, f, h, same_iff k j, missing_none covered k wire)

pub every_known :
    (batch : List Queued) (rs : List Rejection)
    → any (λ r. not (has_rejected batch r)) rs ≡ false
    → (r : Rejection) → Holds r rs
    → has_rejected batch r ≡ true
every_known batch [] h r m = absurd m
every_known batch (x ∷ rs) h r (inl e) = rw e (ground (arith, h))
every_known batch (x ∷ rs) h r (inr m) = every_known batch rs (ground (arith, h)) r m

pub nothing : (k : Text) → ◌≡◌ {A = Bool} (contains_key {V = RecordKey} k []) true → ⊥
unfolding lookup
nothing k d = cc

module _ (keyed : Text → Value → Result (Text × RecordKey)) where
  touch-keeps :
      (k : Text) (ops : List Operation) (held held' : Held)
      → touch keyed ops held ≡ ok held'
      → contains_key k held ≡ true
      → contains_key k held' ≡ true
  unfolding touch
  touch-keeps k [] held held' h c = let e : held ≡ held' = cc in rw (← e) c
  touch-keeps k (o ∷ os) held held' h c =
      let (key, e, h1) = >>=-eq-ok (keyed o.model o.identity) _ h in
      touch-keeps k os (insert key.0 key.1 held) held' h1
        (ground (arith, c, lookup-insert k key.0 key.1 held))

  pub touch-has :
      (op : Operation) (ops : List Operation) (held held' : Held)
      → touch keyed ops held ≡ ok held'
      → Holds op ops
      → (key : Text × RecordKey) × (keyed op.model op.identity ≡ ok key)
        × (contains_key key.0 held' ≡ true)
  unfolding touch
  touch-has op [] held held' h m = absurd m
  touch-has op (o ∷ os) held held' h (inl e) =
      let (key, f, h1) = >>=-eq-ok (keyed o.model o.identity) _ h in
      (
        key,
        rw e f,
        touch-keeps key.0 os (insert key.0 key.1 held) held' h1
            (ground (arith, lookup-insert key.0 key.0 key.1 held, same_iff key.0 key.0)),
      )
  touch-has op (o ∷ os) held held' h (inr m) =
      let (key, f, h1) = >>=-eq-ok (keyed o.model o.identity) _ h in
      touch-has op os (insert key.0 key.1 held) held' h1 m
