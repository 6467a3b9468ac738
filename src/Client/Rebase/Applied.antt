-- ===== src/Client/Rebase/Applied.antt =====
-- The stamps through `apply_records` of crates/client/src/authority.rs, and through a page of the downlink.
use ahead.Common.{
  Error, ℕ, ◌≤◌, ◌≡◌, refl, ◌∙◌, Bool, true, false, List, [], ◌∷◌, ◌++◌, Option, none, some, Result,
  ok, err, >>=-eq-ok, if◌then◌else◌, each, arith,
}
use ahead.Common.Text.{Text}
use ahead.Common.Map.{values}
use ahead.Common.Order.{text_ord}
use ahead.Core.Json.{Value, Serde}
use ahead.Core.Page.{PullPage}
use ahead.Core.Record.{AuthorityRecord}
use ahead.Core.Schema.{Schema, Scalars, RecordKey}
use ahead.Client.Report.{Report, ApplyReport}
use ahead.Client.State.{Db, Client, write, transact, fence}
use ahead.Client.Downlink.{moving_channels, apply_current_page, land, not_moved}
use ahead.Client.Authority.{Tables, Held, stage_records}
use ahead.Client.Authority.Gate.{Stamped}
use ahead.Client.Authority.Stamps.{Grown, stage_records-Grown}
use ahead.Client.Rebase.{
  Queue, replay, shown, no_ops, mark_diverged, show_row, rebuild, rebuild_keys, rebuild_held,
  report_of, apply_records,
}

-- Marks and the extension of deletes leave the stamps.
pub record Unstamped {R : Type 0} (tables : Tables R) (queue : Queue R) : Type 0 where
  pub mark_stamp :
      (ordinal : ℕ) (m i : Text) (r r' : R)
      → queue.set_diverged ordinal r ≡ ok r'
      → tables.stamp m i r' ≡ tables.stamp m i r
  pub refresh_stamp :
      (m i : Text) (r r' : R)
      → queue.refresh_pending r ≡ ok r'
      → tables.stamp m i r' ≡ tables.stamp m i r

module _ (message : Error → Text) (serde : Serde) (scalars : Scalars) (schema : Schema) {R : Type 0}
    (tables : Tables R) (queue : Queue R) (laws : Stamped tables)
    (rest : Unstamped tables queue) where
  abbrev Still : R → R → Type 0
  Still r r' = (m i : Text) → tables.stamp m i r' ≡ tables.stamp m i r

  Still-equal : (r r' : R) → r ≡ r' → Still r r'
  Still-equal r r' e m i = rw e refl

  show_row-Still :
      (key : RecordKey) (row truth : Option Value) (r r' : R)
      → show_row tables queue key row truth r ≡ ok r'
      → Still r r'
  show_row-Still key row truth r r' h m i = go (tables.main_set key row r) refl h
    where
      go :
          (x : Result R)
          → tables.main_set key row r ≡ x
          → (elim x as (λ x. Result R) [ ok r1 ↦ ok r1 | err e ↦ tables.main_set key truth r ])
            ≡ ok r'
          → tables.stamp m i r' ≡ tables.stamp m i r
      go (ok r1) e h = laws.main_stamp key row m i r r' (e ∙ h)
      go (err e) f h = laws.main_stamp key truth m i r r' h

  mark_diverged-Still :
      (failed : Option ℕ) (r r' : R) → mark_diverged tables queue failed r ≡ ok r' → Still r r'
  mark_diverged-Still none r r' h = Still-equal r r' cc
  mark_diverged-Still (some ordinal) r r' h = λ m i. rest.mark_stamp ordinal m i r r' h

  clear-Still :
      (key : RecordKey) (t : Bool) (r r' : R)
      → (if t then tables.before_set key none r else ok r) ≡ ok r'
      → Still r r'
  clear-Still key true r r' h = λ m i. laws.before_stamp key none m i r r' h
  clear-Still key false r r' h = Still-equal r r' cc

  first_part :
      {A B : Type 0} (a a' : A) (b b' : B)
      → ◌≡◌ {A = Result (A × B)} (ok (a, b)) (ok (a', b'))
      → a ≡ a'
  first_part a a' b b' h = cc

  rebuild-Still :
      (key : RecordKey) (r r' : R) (failed : Option ℕ)
      → rebuild tables queue key r ≡ ok (r', failed)
      → Still r r'
  unfolding rebuild
  rebuild-Still key r r' failed h m i =
      let (truth, e0, h0) = >>=-eq-ok (tables.before_get key r) _ h in
      let (ops, e1, h1) = >>=-eq-ok (queue.ops_for key r) _ h0 in
      let (r1, e2, h2) =
        >>=-eq-ok (show_row tables queue key (shown truth (replay ops truth)) truth r) _ h1 in
      let (r2, e3, h3) =
        >>=-eq-ok (if no_ops ops then tables.before_set key none r1 else ok r1) _ h2 in
      let (r3, e4, h4) =
        >>=-eq-ok (mark_diverged tables queue (replay ops truth).1 r2)
          (λ r3. ok (r3, (replay ops truth).1)) h3 in
      Still-equal r3 r' (first_part r3 r' (replay ops truth).1 failed h4) m i
      ∙ mark_diverged-Still (replay ops truth).1 r2 r3 e4 m i
      ∙ clear-Still key (no_ops ops) r1 r2 e3 m i
      ∙ show_row-Still key (shown truth (replay ops truth)) truth r r1 e2 m i

  rebuild_keys-Still :
      (keys : List RecordKey) (r r' : R) (reports : List Report)
      → rebuild_keys tables queue serde keys r ≡ ok (r', reports)
      → Still r r'
  unfolding rebuild_keys
  rebuild_keys-Still [] r r' reports h m i = Still-equal r r' (first_part r r' [] reports h) m i
  rebuild_keys-Still (key ∷ keys) r r' reports h m i =
      let (x, e0, h0) = >>=-eq-ok (rebuild tables queue key r) _ h in
      let (here, e1, h1) = >>=-eq-ok (report_of tables queue serde key x.0 x.1) _ h0 in
      let (y, e2, h2) =
        >>=-eq-ok (rebuild_keys tables queue serde keys x.0) (λ y. ok (y.0, here ++ y.1)) h1 in
      Still-equal y.0 r' (first_part y.0 r' (here ++ y.1) reports h2) m i
      ∙ rebuild_keys-Still keys x.0 y.0 y.1 e2 m i
      ∙ rebuild-Still key r x.0 x.1 e0 m i

  rebuild_held-Still :
      (held : Held) (r r' : R) (reports : List Report)
      → rebuild_held tables queue serde held r ≡ ok (r', reports)
      → Still r r'
  unfolding rebuild_held
  rebuild_held-Still held r r' reports h m i =
      let (x, e0, h0) = >>=-eq-ok (rebuild_keys tables queue serde (values held) r) _ h in
      let (r2, e1, h1) = >>=-eq-ok (queue.refresh_pending x.0) (λ r2. ok (r2, x.1)) h0 in
      Still-equal r2 r' (first_part r2 r' x.1 reports h1) m i
      ∙ rest.refresh_stamp m i x.0 r2 e1
      ∙ rebuild_keys-Still (values held) r x.0 x.1 e0 m i

  abbrev Rising : R → R → Type 0
  Rising r r' = Grown message serde scalars schema tables laws r r'

  Rising-Still : (r s t : R) → Rising r s → Still s t → Rising r t
  Rising-Still r s t g h m i n e = let (n', e', le) = g m i n e in (n', h m i ∙ e', le)

  apply_records-Rising :
      (r r' : R) (rs : List AuthorityRecord) (report : ApplyReport)
      → apply_records tables queue serde message scalars schema r rs ≡ ok (r', report)
      → Rising r r'
  unfolding apply_records
  apply_records-Rising r r' rs report h =
      let run = stage_records message serde scalars schema tables rs [] r in
      let (x, e, last) = >>=-eq-ok (rebuild_held tables queue serde run.0 run.1) _ h in
      Rising-Still r run.1 r' (stage_records-Grown message serde scalars schema tables laws rs [] r)
        λ m i.
          Still-equal x.0 r' (first_part x.0 r' _ report last) m i
          ∙ rebuild_held-Still run.0 run.1 x.0 x.1 e m i

  -- `apply_records` as the downlink calls it.
  abbrev applier : R → List AuthorityRecord → Result (R × ApplyReport)
  applier r rs = apply_records tables queue serde message scalars schema r rs

  Rising-refl : (r : R) → Rising r r
  Rising-refl r m i n e = (n, e, omega arith)

  first_of_three :
      {A B C : Type 0} (a a' : A) (b b' : B) (c c' : C)
      → ◌≡◌ {A = Result (A × B × C)} (ok (a, b, c)) (ok (a', b', c'))
      → a ≡ a'
  first_of_three a a' b b' c c' h = cc

  land-Rising :
      (page : PullPage) (moving : List (Text × ℕ)) (db db' : Db R) (marks : List Text)
      (report : ApplyReport)
      → land applier page moving db ≡ ok (db', marks, report)
      → Rising db.rows db'.rows
  unfolding land
  land-Rising page moving db db' marks report h =
      let (u, e0, h0) = >>=-eq-ok (each (not_moved db.subscriptions moving) page.cursors) _ h in
      let (y, e1, h1) = >>=-eq-ok (applier db.rows page.changes) _ h0 in
      let same_db = first_of_three _ db' _ marks _ report h1 in
      rw (← same_db) (apply_records-Rising db.rows y.0 page.changes y.1 e1)

  fence-rows : (n : ℕ) (db db' : Db R) → fence n db ≡ ok db' → db'.rows ≡ db.rows
  unfolding fence
  fence-rows n db db' h = ground arith

  transact-Rising :
      (c : Client R) (body : Db R → Result (Db R × List Text × ApplyReport))
      → ((db : Db R) (marks : List Text) (report : ApplyReport)
          → body c.db ≡ ok (db, marks, report)
          → Rising c.db.rows db.rows)
      → Rising c.db.rows (transact c body).0.db.rows
  unfolding transact
  transact-Rising c body grows = go (body c.db) refl
    where
      fenced :
          (db : Db R) (marks : List Text) (report : ApplyReport)
          → body c.db ≡ ok (db, marks, report)
          → (f : Result (Db R)) → fence c.generation db ≡ f
          → Rising c.db.rows (transact c body).0.db.rows
      fenced db marks report e (err g) q = rw (transact, e, q) (Rising-refl c.db.rows)
      fenced db marks report e (ok db') q =
          rw (transact, e, q) (rw (fence-rows c.generation db db' q) (grows db marks report e))

      go :
          (b : Result (Db R × List Text × ApplyReport))
          → body c.db ≡ b
          → Rising c.db.rows (transact c body).0.db.rows
      go (err g) e = rw (transact, e) (Rising-refl c.db.rows)
      go (ok (db, marks, report)) e = fenced db marks report e (fence c.generation db) refl

  -- Whatever page is applied, and whether or not it succeeds, no stored stamp gets smaller.
  pub apply_current_page-Grown :
      (c : Client R) (page : PullPage) (m i : Text) (n : ℕ)
      → tables.stamp m i c.db.rows ≡ ok n
      → (n' : ℕ) × (tables.stamp m i (apply_current_page applier c page).0.db.rows ≡ ok n')
        × (n ≤ n')
  unfolding apply_current_page write
  apply_current_page-Grown c page = go (moving_channels c.db.subscriptions page.cursors []) refl
    where
      go :
          (x : Result (List (Text × ℕ)))
          → moving_channels c.db.subscriptions page.cursors [] ≡ x
          → Rising c.db.rows (apply_current_page applier c page).0.db.rows
      go (err e) q = rw (apply_current_page, q) (Rising-refl c.db.rows)
      go (ok []) q = rw (apply_current_page, q) (Rising-refl c.db.rows)
      go (ok (k ∷ ks)) q = rw (apply_current_page, q) (written c.session refl)
        where
          written :
              (t : Bool)
              → c.session ≡ t
              → Rising c.db.rows (write c (land applier page (k ∷ ks))).0.db.rows
          written true e = simp (write, e) (Rising-refl c.db.rows)
          written false e =
              simp (write, e)
                (transact-Rising c (land applier page (k ∷ ks)) (land-Rising page (k ∷ ks) c.db))
