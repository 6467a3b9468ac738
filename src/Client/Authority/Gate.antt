-- ===== src/Client/Authority/Gate.antt =====
-- What one delivered record does to the stamps (crates/client/src/authority.rs).
use ahead.Common.{
  ℕ, max, ◌≤◌, ◌≡◌, refl, sym, ◌∙◌, ap, Bool, true, false, ◌&&◌, List, [], ◌∷◌, Option, none, some,
  Result, ok, err, ◌>>=◌, >>=-eq-ok, ltb, ◌==◌, if◌then◌else◌, arith,
}
use ahead.Common.Text.{Text}
use ahead.Common.Order.{same, text_ord, same→eq}
use ahead.Core.Json.{Value, Serde}
use ahead.Core.Record.{AuthorityRecord}
use ahead.Core.Schema.{Schema, Scalars, RecordKey, encoded}
use ahead.Client.Authority.{
  Tables, Disposition, older, Held, stage_one, stage_deletes, stage_cascade, stage_newer, truth,
  weigh, stage_authority, incoming_row, then_stage, stamped, compared,
}

-- A stored stamp is read back, and nothing else changes a stamp.
pub record Stamped {R : Type 0} (tables : Tables R) : Type 0 where
  pub stamp_read :
      (m i : Text) (n : ℕ) (r r' : R)
      → tables.set_stamp m i n r ≡ ok r'
      → tables.stamp m i r' ≡ ok n
  pub stamp_other :
      (m i m' i' : Text) (n : ℕ) (r r' : R)
      → tables.set_stamp m i n r ≡ ok r'
      → (same m' m && same i' i) ≡ false
      → tables.stamp m' i' r' ≡ tables.stamp m' i' r
  pub main_stamp :
      (key : RecordKey) (v : Option Value) (m i : Text) (r r' : R)
      → tables.main_set key v r ≡ ok r'
      → tables.stamp m i r' ≡ tables.stamp m i r
  pub before_stamp :
      (key : RecordKey) (v : Option Value) (m i : Text) (r r' : R)
      → tables.before_set key v r ≡ ok r'
      → tables.stamp m i r' ≡ tables.stamp m i r

module _ (serde : Serde) (scalars : Scalars) (schema : Schema) {R : Type 0} (tables : Tables R)
    (laws : Stamped tables) where
  -- The tables after a step have the stamps that they had.
  abbrev SameStamps : R → Held × Result R → Type 0
  SameStamps r (held, err e) = Unit
  SameStamps r (held, ok r') = (m i : Text) → tables.stamp m i r' ≡ tables.stamp m i r

  SameStamps-then :
      (r : R) (x : Held × Result R) (next : Held → R → Held × Result R)
      → SameStamps r x
      → ((held : Held) (r' : R) → SameStamps r' (next held r'))
      → SameStamps r (then_stage x next)
  SameStamps-then r (held, err e) next s h = tt
  SameStamps-then r (held, ok r') next s h = go (next held r') (h held r')
    where
      go : (x : Held × Result R) → SameStamps r' x → SameStamps r x
      go (held', err e) t = tt
      go (held', ok r'') t = λ m i. t m i ∙ s m i

  stage_one-SameStamps :
      (key : RecordKey) (v : Option Value) (held : Held) (r : R)
      → SameStamps r (stage_one serde scalars schema tables key v held r)
  unfolding stage_one
  stage_one-SameStamps key v held r =
      go (tables.dirty key r) refl (tables.main_set key v r) refl (tables.before_set key v r) refl
        (encoded serde key) refl
    where
      go :
          (d : Result Bool)
          → tables.dirty key r ≡ d
          → (a : Result R) → tables.main_set key v r ≡ a
          → (b : Result R) → tables.before_set key v r ≡ b
          → (k : Result Text) → encoded serde key ≡ k
          → SameStamps r (stage_one serde scalars schema tables key v held r)
      go (err e) p a q b t k u = rw (stage_one, p) tt
      go (ok false) p (err e) q b t k u = rw (stage_one, p, q) tt
      go (ok false) p (ok r') q b t k u =
          rw (stage_one, p, q) λ m i. laws.main_stamp key v m i r r' q
      go (ok true) p a q (err e) t k u = rw (stage_one, p, t) tt
      go (ok true) p a q (ok r') t (err e) u = rw (stage_one, p, t, u) tt
      go (ok true) p a q (ok r') t (ok j) u =
          rw (stage_one, p, t, u) λ m i. laws.before_stamp key v m i r r' t

  stage_deletes-SameStamps :
      (keys : List RecordKey) (held : Held) (r : R)
      → SameStamps r (stage_deletes serde scalars schema tables keys held r)
  unfolding stage_deletes
  stage_deletes-SameStamps [] held r = λ m i. refl
  stage_deletes-SameStamps (key ∷ keys) held r =
      SameStamps-then r (stage_one serde scalars schema tables key none held r)
        (stage_deletes serde scalars schema tables keys) (stage_one-SameStamps key none held r)
        (stage_deletes-SameStamps keys)

  stage_cascade-SameStamps :
      (key : RecordKey) (v : Option Value) (held : Held) (r : R)
      → SameStamps r (stage_cascade serde scalars schema tables key v held r)
  unfolding stage_cascade
  stage_cascade-SameStamps key (some v) held r = λ m i. refl
  stage_cascade-SameStamps key none held r = go (tables.descendants key r) refl
    where
      go :
          (d : Result (List RecordKey))
          → tables.descendants key r ≡ d
          → SameStamps r (stage_cascade serde scalars schema tables key none held r)
      go (err e) p = rw (stage_cascade, p) tt
      go (ok keys) p = rw (stage_cascade, p) (stage_deletes-SameStamps keys held r)

  -- What a newer record does before its stamp is set.
  newer_staged :
      (key : RecordKey) (incoming : Option Value) (held : Held) (r : R)
      → SameStamps r (
          then_stage
            (stage_one serde scalars schema tables key incoming held r)
            (stage_cascade serde scalars schema tables key incoming))
  newer_staged key incoming held r =
      SameStamps-then r (stage_one serde scalars schema tables key incoming held r)
        (stage_cascade serde scalars schema tables key incoming)
        (stage_one-SameStamps key incoming held r) (stage_cascade-SameStamps key incoming)

  -- The stamps after one of them is set to `n`.
  abbrev Set : RecordKey → Text → ℕ → R → R → Type 0
  Set key identity n r r' =
      (m i : Text)
      → tables.stamp m i r'
        ≡ (if same m key.model && same i identity then ok n else tables.stamp m i r)

  set_stamp-Set :
      (key : RecordKey) (identity : Text) (n : ℕ) (r r0 r' : R)
      → ((m i : Text) → tables.stamp m i r0 ≡ tables.stamp m i r)
      → tables.set_stamp key.model identity n r0 ≡ ok r'
      → Set key identity n r r'
  set_stamp-Set key identity n r r0 r' before h m i = go (same m key.model && same i identity) refl
    where
      go :
          (t : Bool)
          → (same m key.model && same i identity) ≡ t
          → tables.stamp m i r' ≡ (if t then ok n else tables.stamp m i r)
      go true e =
          let em = same→eq m key.model (ground (arith, e)) in
          let ei = same→eq i identity (ground (arith, e)) in
          rw (em, ei) (laws.stamp_read key.model identity n r0 r' h)
      go false e = laws.stamp_other key.model identity m i n r0 r' h e ∙ before m i

  stage_newer-Set :
      (key : RecordKey) (identity : Text) (incoming : Option Value) (n : ℕ) (held : Held) (r r' : R)
      (d : Disposition)
      → (stage_newer serde scalars schema tables key identity incoming n held r).1 ≡ ok (r', d)
      → Set key identity n r r'
  unfolding stage_newer
  stage_newer-Set key identity incoming n held r r' d h =
      go
        (then_stage (stage_one serde scalars schema tables key incoming held r)
          (stage_cascade serde scalars schema tables key incoming))
        (newer_staged key incoming held r) h
    where
      go :
          (x : Held × Result R)
          → SameStamps r x
          → (stamped serde scalars schema tables key identity n x).1 ≡ ok (r', d)
          → Set key identity n r r'
      go (held', err e) s h = cc
      go (held', ok r0) s h =
          let (r1, set, last) = >>=-eq-ok (tables.set_stamp key.model identity n r0) _ h in
          let e : r1 ≡ r' = cc in set_stamp-Set key identity n r r0 r' s (set ∙ ap ok e)

  same_tables :
      (key : RecordKey) (identity : Text) (n local : ℕ) (r : R)
      → tables.stamp key.model identity r ≡ ok local
      → n ≡ local
      → Set key identity n r r
  same_tables key identity n local r there e m i = go (same m key.model && same i identity) refl
    where
      go :
          (t : Bool)
          → (same m key.model && same i identity) ≡ t
          → tables.stamp m i r ≡ (if t then ok n else tables.stamp m i r)
      go true q =
          let em = same→eq m key.model (ground (arith, q)) in
          let ei = same→eq i identity (ground (arith, q)) in rw (em, ei) (there ∙ ap ok (sym e))
      go false q = refl

  -- A record that is not newer leaves the tables.
  kept :
      (key : RecordKey) (incoming : Option Value) (r r' : R) (d : Disposition)
      → (truth serde scalars schema tables key r >>= λ current.
          ok (compared serde scalars schema tables current incoming r))
        ≡ ok (r', d)
      → r' ≡ r
  kept key incoming r r' d h =
      let (current, e, last) = >>=-eq-ok (truth serde scalars schema tables key r) _ h in cc

  weigh-Set :
      (delivered : AuthorityRecord) (key : RecordKey) (identity : Text) (incoming : Option Value)
      (local : ℕ) (held : Held) (r r' : R) (d : Disposition)
      → tables.stamp key.model identity r ≡ ok local
      → (weigh serde scalars schema tables delivered key identity incoming local held r).1
        ≡ ok (r', d)
      → Set key identity (max local delivered.stamp) r r'
  unfolding weigh
  weigh-Set delivered key identity incoming local held r r' d there h =
      go (ltb delivered.stamp local) refl (delivered.stamp == local) refl h
    where
      go :
          (a : Bool)
          → ltb delivered.stamp local ≡ a
          → (b : Bool) → (delivered.stamp == local) ≡ b
          → (if a
              then (held, ok (r, older))
              else if b
              then (
                held,
                truth serde scalars schema tables key r >>= λ current.
                    ok (compared serde scalars schema tables current incoming r),
              )
              else stage_newer serde scalars schema tables key identity incoming delivered.stamp
                  held r).1
            ≡ ok (r', d)
          → Set key identity (max local delivered.stamp) r r'
      go true e b f h =
          let same_state : r ≡ r' = cc in
          rw (← same_state)
            (same_tables key identity (max local delivered.stamp) local r there (ground (arith, e)))
      go false e true f h = rw (kept key incoming r r' d h) (
          same_tables key identity (max local delivered.stamp) local r there (ground (arith, e, f)))
      go false e false f h =
          let newer : max local delivered.stamp ≡ delivered.stamp = ground (arith, e, f) in
          rw newer (stage_newer-Set key identity incoming delivered.stamp held r r' d h)

  -- Staging a record is a write to a register that keeps the largest stamp: afterwards the record's stamp is
  -- the larger of the stored one and the delivered one, and no other record's stamp has changed.
  pub stage_authority-max :
      (delivered : AuthorityRecord) (key : RecordKey) (identity : Text) (incoming : Option Value)
      (local : ℕ) (held : Held) (r r' : R) (d : Disposition)
      → incoming_row serde scalars schema tables delivered ≡ ok (key, identity, incoming)
      → tables.stamp key.model identity r ≡ ok local
      → (stage_authority serde scalars schema tables delivered held r).1 ≡ ok (r', d)
      → (m i : Text)
      → tables.stamp m i r' ≡ (
          if same m key.model && same i identity
          then ok (max local delivered.stamp)
          else tables.stamp m i r)
  unfolding stage_authority
  stage_authority-max delivered key identity incoming local held r r' d row there h =
      weigh-Set delivered key identity incoming local held r r' d there
        (rw (stage_authority, row, there) at h)

  -- A record whose stamp is not larger than the stored one leaves the tables.
  pub weigh-kept :
      (delivered : AuthorityRecord) (key : RecordKey) (identity : Text) (incoming : Option Value)
      (local : ℕ) (held : Held) (r r' : R) (d : Disposition)
      → delivered.stamp ≤ local
      → (weigh serde scalars schema tables delivered key identity incoming local held r).1
        ≡ ok (r', d)
      → r' ≡ r
  unfolding weigh
  weigh-kept delivered key identity incoming local held r r' d le h =
      go (ltb delivered.stamp local) refl (delivered.stamp == local) refl h
    where
      go :
          (a : Bool)
          → ltb delivered.stamp local ≡ a
          → (b : Bool) → (delivered.stamp == local) ≡ b
          → (if a
              then (held, ok (r, older))
              else if b
              then (
                held,
                truth serde scalars schema tables key r >>= λ current.
                    ok (compared serde scalars schema tables current incoming r),
              )
              else stage_newer serde scalars schema tables key identity incoming delivered.stamp
                  held r).1
            ≡ ok (r', d)
          → r' ≡ r
      go true e b f h = cc
      go false e true f h = kept key incoming r r' d h
      go false e false f h = absurd (ground (arith, e, f, le))
