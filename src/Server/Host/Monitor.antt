-- ===== src/Server/Host/Monitor.antt =====
-- A monitor of the calls of crates/server: a host that also keeps the phase that the transaction is in, with
-- respect to the savepoint of one mutation.
use ahead.Common.{ℕ, ◌≡◌, refl, Option, none, some, ◌==◌, if◌then◌else◌}
use ahead.Server.Config.{Outcome, refused, done}
use ahead.Server.Host.{
  HostRequest, claim, save_receipt, head, scan, savepoint, rollback, release, handle, load,
  advance_stamp, ensure_stamp, publish, Answer, Reply, host_failed, unusable, answered, Host,
  Server, ◌>>=◌, go_on, lift, give, call_typed, typed,
}

-- No savepoint is open, one is, or it is and was rolled back to.
pub data Phase : Type 0 where
  idle : Phase
  inside : ℕ → Phase
  undone : ℕ → Phase

-- The phase after a call; none where the call is out of place.
unfoldable pub follows : Phase → HostRequest → Option Phase
follows idle (claim owner client_id) = some idle
follows idle (save_receipt owner client_id sequence receipt) = some idle
follows idle (head channel) = some idle
follows idle (scan channel after limit) = some idle
follows idle (savepoint o) = some (inside o)
follows (inside o) (handle name version arguments owner o') =
    if o == o' then some (inside o) else none
follows (inside o) (load model version identities owner) = some (inside o)
follows (inside o) (advance_stamp model identity_key) = some (inside o)
follows (inside o) (ensure_stamp model identity_key) = some (inside o)
follows (inside o) (publish channel model identity identity_key stamp) = some (inside o)
follows (inside o) (rollback o') = if o == o' then some (undone o) else none
follows (inside o) (release o') = if o == o' then some idle else none
follows (undone o) (release o') = if o == o' then some idle else none
follows _ _ = none

abbrev pub next_phase : Option Phase → HostRequest → Option Phase
next_phase none q = none
next_phase (some p) q = follows p q

module _ {S : Type 0} (host : Host S) where
  abbrev pub beside : {A : Type 0} → S × A → Option Phase → (S × Option Phase) × A
  beside (s, r) p = ((s, p), r)

  -- The host, with the phase beside its state.
  unfoldable pub watched : Host (S × Option Phase)
  unfolding follows
  watched q (s, p) = beside (host q s) (next_phase p q)

module _ {S : Type 0} where
  -- What ended well ended in the phase `post`; what was refused made no call out of place.
  abbrev pub Ends : {A : Type 0} → Phase → (S × Option Phase) × Outcome A → Type 0
  Ends post ((s, p), done a) = p ≡ some post
  Ends post ((s, p), refused c) = (q : Phase) × (p ≡ some q)

  unfoldable pub Triple : {A : Type 0} → Phase → Phase → Server (S × Option Phase) A → Type 0
  Triple pre post m = (s : S) → Ends post (m (s, some pre))

  Ends-go_on :
      {A B : Type 0} (mid post : Phase) (r : (S × Option Phase) × Outcome A)
      (f : A → Server (S × Option Phase) B)
      → Ends mid r
      → ((a : A) → Triple mid post (f a))
      → Ends post (go_on r f)
  unfolding Triple
  Ends-go_on mid post ((s, p), done a) f e t = rw e (t a s)
  Ends-go_on mid post ((s, p), refused c) f e t = e

  pub Triple-then :
      {A B : Type 0} (pre mid post : Phase) (m : Server (S × Option Phase) A)
      (f : A → Server (S × Option Phase) B)
      → Triple pre mid m
      → ((a : A) → Triple mid post (f a))
      → Triple pre post (m >>= f)
  unfolding Triple
  Triple-then pre mid post m f t u s = Ends-go_on mid post (m (s, some pre)) f (t s) u

  pub Triple-call :
      (host : Host S) (pre post : Phase) (q : HostRequest)
      → follows pre q ≡ some post
      → Triple pre post (call_typed (watched host) q)
  unfolding call_typed watched Triple
  Triple-call host pre post q e s = go (host q s)
    where
      go : (r : S × Reply (Answer q)) → Ends post (typed q (beside host r (follows pre q)))
      go (t, host_failed) = (post, e)
      go (t, unusable) = (post, e)
      go (t, answered a) = e

pub Triple-give : (S : Type 0) {A : Type 0} (p : Phase) (a : A) → Triple {S = S} p p (give a)
unfolding Triple
Triple-give S p a s = refl

pub Triple-lift :
    (S : Type 0) {A : Type 0} (p : Phase) (o : Outcome A) → Triple {S = S} p p (lift o)
unfolding Triple
Triple-lift S p (done a) s = refl
Triple-lift S p (refused c) s = (p, refl)
