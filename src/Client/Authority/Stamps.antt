-- ===== src/Client/Authority/Stamps.antt =====
-- The stamps through a run of delivered records (crates/client/src/authority.rs).
use ahead.Common.{
  Error, ℕ, max, ◌≤◌, ◌≡◌, refl, sym, ◌∙◌, ap, Bool, true, false, ◌&&◌, List, [], ◌∷◌, Option, none,
  some, Result, ok, err, if◌then◌else◌, arith,
}
use ahead.Common.Text.{Text}
use ahead.Common.Order.{same, text_ord, same→eq, same_refl}
use ahead.Core.Json.{Value, Serde}
use ahead.Core.Record.{AuthorityRecord}
use ahead.Core.Schema.{Schema, Scalars, RecordKey}
use ahead.Client.Report.{Report}
use ahead.Client.Authority.{
  Tables, Disposition, Held, incoming_row, stage_authority, stage_isolated, stage_records, isolated,
}
use ahead.Client.Authority.Gate.{Stamped, stage_authority-max, weigh-kept}

module _ (message : Error → Text) (serde : Serde) (scalars : Scalars) (schema : Schema) {R : Type 0}
    (tables : Tables R) (laws : Stamped tables) where
  -- What a staged record was compared by.
  abbrev Weighed : AuthorityRecord → R → Type 0
  Weighed a r =
      (key : RecordKey) × (identity : Text) × (incoming : Option Value) × (local : ℕ)
      × (incoming_row serde scalars schema tables a ≡ ok (key, identity, incoming))
      × (tables.stamp key.model identity r ≡ ok local)

  stage_authority-Weighed :
      (a : AuthorityRecord) (held : Held) (r r' : R) (d : Disposition)
      → (stage_authority serde scalars schema tables a held r).1 ≡ ok (r', d)
      → Weighed a r
  unfolding stage_authority
  stage_authority-Weighed a held r r' d h = go (incoming_row serde scalars schema tables a) refl
    where
      stamped_at :
          (key : RecordKey) (identity : Text) (incoming : Option Value)
          → incoming_row serde scalars schema tables a ≡ ok (key, identity, incoming)
          → (n : Result ℕ) → tables.stamp key.model identity r ≡ n
          → Weighed a r
      stamped_at key identity incoming e (ok local) f = (key, identity, incoming, local, e, f)
      stamped_at key identity incoming e (err c) f = cc (rw (stage_authority, e, f) at h)

      go :
          (row : Result (RecordKey × Text × Option Value))
          → incoming_row serde scalars schema tables a ≡ row
          → Weighed a r
      go (err c) e = cc (rw (stage_authority, e) at h)
      go (ok (key, identity, incoming)) e =
          stamped_at key identity incoming e (tables.stamp key.model identity r) refl

  -- A stamp is there, and is no smaller.
  abbrev pub Grown : R → R → Type 0
  Grown r r' =
      (m i : Text) (n : ℕ)
      → tables.stamp m i r ≡ ok n
      → (n' : ℕ) × (tables.stamp m i r' ≡ ok n') × (n ≤ n')

  Grown-refl : (r : R) → Grown r r
  Grown-refl r m i n e = (n, e, omega arith)

  Grown-trans : (r s t : R) → Grown r s → Grown s t → Grown r t
  Grown-trans r s t g h m i n e =
      let (n', e', le) = g m i n e in
      let (n'', e'', le') = h m i n' e' in (n'', e'', omega (arith, le, le'))

  stage_authority-Grown :
      (a : AuthorityRecord) (held : Held) (r r' : R) (d : Disposition)
      → (stage_authority serde scalars schema tables a held r).1 ≡ ok (r', d)
      → Grown r r'
  stage_authority-Grown a held r r' d h m i n e =
      let (key, identity, incoming, local, row, there) = stage_authority-Weighed a held r r' d h in
      go key identity local there
        (stage_authority-max serde scalars schema tables laws a key identity incoming local held r
          r' d row there h m i)
        (same m key.model && same i identity) refl
    where
      go :
          (key : RecordKey) (identity : Text) (local : ℕ)
          → tables.stamp key.model identity r ≡ ok local
          → tables.stamp m i r' ≡ (
              if same m key.model && same i identity
              then ok (max local a.stamp)
              else tables.stamp m i r)
          → (t : Bool) → (same m key.model && same i identity) ≡ t
          → (n' : ℕ) × (tables.stamp m i r' ≡ ok n') × (n ≤ n')
      go key identity local there h true q =
          let em = same→eq m key.model (ground (arith, q)) in
          let ei = same→eq i identity (ground (arith, q)) in
          let here : tables.stamp m i r ≡ ok local = rw (em, ei) there in
          let n_local : n ≡ local = cc in (max local a.stamp, rw q at h, omega (arith, n_local))
      go key identity local there h false q = (n, (rw q at h) ∙ e, omega arith)

  stage_isolated-Grown :
      (a : AuthorityRecord) (held : Held) (r : R)
      → Grown r (stage_isolated message serde scalars schema tables a held r).1
  unfolding stage_isolated
  stage_isolated-Grown a held r = go a.error
    where
      staged_or :
          (x : Held × Result (R × Disposition))
          → stage_authority serde scalars schema tables a held r ≡ x
          → Grown r (isolated message serde scalars schema tables a r x).1
      staged_or (held', err e) q = Grown-refl r
      staged_or (held', ok (r', d)) q = stage_authority-Grown a held r r' d (ap (λ x. x.1) q)

      go :
          (code : Option Text)
          → Grown r
              (elim code as (λ c. Held × R × Bool × Option Report) [
                | some code ↦ (
                  held,
                  r,
                  false,
                  some
                      (record (ahead.Client.Report.new_report ahead.Client.Report.read_failed
                        a.model a.identity a.stamp) { code = some code }),
                )
                | none ↦
                    isolated message serde scalars schema tables a r
                      (stage_authority serde scalars schema tables a held r)
              ]).1
      go none = staged_or (stage_authority serde scalars schema tables a held r) refl
      go (some code) = Grown-refl r

  -- Whatever records are delivered, in whatever order, and whichever of them fail, no stored stamp gets
  -- smaller.
  pub stage_records-Grown :
      (rs : List AuthorityRecord) (held : Held) (r : R) (m i : Text) (n : ℕ)
      → tables.stamp m i r ≡ ok n
      → (n' : ℕ) × (tables.stamp m i (stage_records message serde scalars schema tables rs held r).1
          ≡ ok n')
        × (n ≤ n')
  unfolding stage_records
  stage_records-Grown [] held r = Grown-refl r
  stage_records-Grown (a ∷ rs) held r =
      let next = stage_isolated message serde scalars schema tables a held r in
      Grown-trans r next.1 _ (stage_isolated-Grown a held r) (stage_records-Grown rs next.0 next.1)

  -- Whether a record is the one of this model and identity.
  unfoldable is_of : AuthorityRecord → Text → Text → Bool
  is_of a m i = elim (incoming_row serde scalars schema tables a) [
    | err e ↦ false
    | ok (key, identity, row) ↦ same m key.model && same i identity
  ]

  abbrev raised : ℕ → Result ℕ → Result ℕ
  raised n (ok l) = ok (max l n)
  raised n (err e) = err e

  -- The stamp of a record after another was staged.
  abbrev touched : AuthorityRecord → Text → Text → Result ℕ → Result ℕ
  touched a m i x = if is_of a m i then raised a.stamp x else x

  stage_authority-touched :
      (a : AuthorityRecord) (held : Held) (r r' : R) (d : Disposition)
      → (stage_authority serde scalars schema tables a held r).1 ≡ ok (r', d)
      → (m i : Text) → tables.stamp m i r' ≡ touched a m i (tables.stamp m i r)
  unfolding is_of
  stage_authority-touched a held r r' d h m i =
      let (key, identity, incoming, local, row, there) = stage_authority-Weighed a held r r' d h in
      rw (is_of, row)
        (go key identity local there
          (stage_authority-max serde scalars schema tables laws a key identity incoming local held r
            r' d row there h m i)
          (same m key.model && same i identity) refl)
    where
      go :
          (key : RecordKey) (identity : Text) (local : ℕ)
          → tables.stamp key.model identity r ≡ ok local
          → tables.stamp m i r' ≡ (
              if same m key.model && same i identity
              then ok (max local a.stamp)
              else tables.stamp m i r)
          → (t : Bool) → (same m key.model && same i identity) ≡ t
          → tables.stamp m i r' ≡ (
              if same m key.model && same i identity
              then raised a.stamp (tables.stamp m i r)
              else tables.stamp m i r)
      go key identity local there h true q =
          let em = same→eq m key.model (ground (arith, q)) in
          let ei = same→eq i identity (ground (arith, q)) in
          let here : tables.stamp m i r ≡ ok local = rw (em, ei) there in rw (q, here) (rw q at h)
      go key identity local there h false q = rw q (rw q at h)

  raised-raised : (n k : ℕ) (x : Result ℕ) → raised n (raised k x) ≡ raised k (raised n x)
  raised-raised n k (ok l) = ap ok (omega arith)
  raised-raised n k (err e) = refl

  touched-touched :
      (a b : AuthorityRecord) (m i : Text) (x : Result ℕ)
      → touched a m i (touched b m i x) ≡ touched b m i (touched a m i x)
  touched-touched a b m i x = go (is_of a m i) (is_of b m i)
    where
      go :
          (t u : Bool)
          → (if t
              then raised a.stamp (if u then raised b.stamp x else x)
              else (if u then raised b.stamp x else x))
            ≡ (if u
                then raised b.stamp (if t then raised a.stamp x else x)
                else (if t then raised a.stamp x else x))
      go true true = raised-raised a.stamp b.stamp x
      go true false = refl
      go false true = refl
      go false false = refl

  -- Two records that are staged, whichever is delivered first, leave the same stamps.
  pub stage_authority-commute :
      (a b : AuthorityRecord) (h1 h2 h3 h4 : Held) (r s t s' t' : R) (d1 d2 d3 d4 : Disposition)
      → (stage_authority serde scalars schema tables a h1 r).1 ≡ ok (s, d1)
      → (stage_authority serde scalars schema tables b h2 s).1 ≡ ok (t, d2)
      → (stage_authority serde scalars schema tables b h3 r).1 ≡ ok (s', d3)
      → (stage_authority serde scalars schema tables a h4 s').1 ≡ ok (t', d4)
      → (m i : Text) → tables.stamp m i t ≡ tables.stamp m i t'
  stage_authority-commute a b h1 h2 h3 h4 r s t s' t' d1 d2 d3 d4 ea eb eb' ea' m i =
      stage_authority-touched b h2 s t d2 eb m i
      ∙ ap (touched b m i) (stage_authority-touched a h1 r s d1 ea m i)
      ∙ touched-touched b a m i (tables.stamp m i r)
      ∙ sym (ap (touched a m i) (stage_authority-touched b h3 r s' d3 eb' m i))
      ∙ sym (stage_authority-touched a h4 s' t' d4 ea' m i)

  -- A record that was staged, delivered again, leaves the tables as they are.
  pub stage_authority-again :
      (a : AuthorityRecord) (held held' : Held) (r r' r'' : R) (d d' : Disposition)
      → (stage_authority serde scalars schema tables a held r).1 ≡ ok (r', d)
      → (stage_authority serde scalars schema tables a held' r').1 ≡ ok (r'', d')
      → r'' ≡ r'
  unfolding stage_authority
  stage_authority-again a held held' r r' r'' d d' h h' =
      let (key, identity, incoming, local, row, there) = stage_authority-Weighed a held r r' d h in
      let after =
        stage_authority-max serde scalars schema tables laws a key identity incoming local held r r'
          d row there h key.model identity in
      let now : tables.stamp key.model identity r' ≡ ok (max local a.stamp) =
        rw (same_refl key.model, same_refl identity) at after in
      weigh-kept serde scalars schema tables laws a key identity incoming (max local a.stamp) held'
        r' r'' d' (omega arith) (rw (stage_authority, row, now) at h')
