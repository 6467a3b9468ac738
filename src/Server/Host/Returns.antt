-- ===== src/Server/Host/Returns.antt =====
-- What the results of the server's host calls satisfy (crates/server/src/host.rs).
use ahead.Common.{Bool, true, false, Result, ok, err, ◌≡◌, refl}
use ahead.Common.Text.{Text}
use ahead.Server.Config.{Outcome, refused, done, under, refuse_code}
use ahead.Server.Host.{
  HostRequest, Answer, Reply, host_failed, unusable, answered, Host, Server, go_on, lift, give,
  call_typed, typed,
}

module _ {S : Type 0} where
  -- A result, where there is one, satisfies `P`.
  abbrev pub Given : {A : Type 0} → (A → Type 0) → S × Outcome A → Type 0
  Given P (s, refused c) = Unit
  Given P (s, done a) = P a

  pub Given-done :
      {A : Type 0} (P : A → Type 0) (r : S × Outcome A) (s : S) (a : A)
      → Given P r
      → r ≡ (s, done a)
      → P a
  Given-done P (t, refused c) s a g e = cc
  Given-done P (t, done b) s a g e = let same_result : b ≡ a = cc in rw (← same_result) g

  pub Given-then :
      {A B : Type 0} (Q : A → Type 0) (P : B → Type 0) (r : S × Outcome A) (f : A → Server S B)
      → Given Q r
      → ((a : A) → Q a → (s : S) → Given P (f a s))
      → Given P (go_on r f)
  Given-then Q P (s, refused c) f g h = tt
  Given-then Q P (s, done a) f g h = h a g s

  pub Given-map :
      {A : Type 0} (P Q : A → Type 0) (r : S × Outcome A)
      → ((a : A) → P a → Q a)
      → Given P r
      → Given Q r
  Given-map P Q (s, refused c) f g = tt
  Given-map P Q (s, done a) f g = f a g

  pub Given-any :
      {A B : Type 0} (P : B → Type 0) (r : S × Outcome A) (f : A → Server S B)
      → ((a : A) → (s : S) → Given P (f a s))
      → Given P (go_on r f)
  Given-any P (s, refused c) f h = tt
  Given-any P (s, done a) f h = h a s

  pub Given-lift : {A : Type 0} (o : Outcome A) (s : S) → Given (λ a. o ≡ done a) (lift o s)
  Given-lift (refused c) s = tt
  Given-lift (done a) s = refl

  pub Given-refuse :
      (t : Bool) (c : Text) (s : S) → Given (λ u. t ≡ false) (lift (refuse_code t c) s)
  Given-refuse true c s = tt
  Given-refuse false c s = refl

  -- Where a step and what follows it give a result, what the step gives.
  pub go_on-done :
      {A B : Type 0} (r : S × Outcome A) (f : A → Server S B) (s' : S) (b : B)
      → go_on r f ≡ (s', done b)
      → (s : S) × (a : A) × (r ≡ (s, done a)) × (f a s ≡ (s', done b))
  go_on-done (s, refused c) f s' b h = cc
  go_on-done (s, done a) f s' b h = (s, a, refl, h)

  pub call_typed-done :
      (host : Host S) (q : HostRequest) (s s' : S) (a : Answer q)
      → call_typed host q s ≡ (s', done a)
      → host q s ≡ (s', answered a)
  unfolding call_typed
  call_typed-done host q s s' a h = go (host q s) h
    where
      go : (r : S × Reply (Answer q)) → typed q r ≡ (s', done a) → r ≡ (s', answered a)
      go (t, host_failed) h = cc
      go (t, unusable) h = cc
      go (t, answered b) h = cc

  pub call_typed-answered :
      (host : Host S) (q : HostRequest) (s s' : S) (a : Answer q)
      → host q s ≡ (s', answered a)
      → call_typed host q s ≡ (s', done a)
  unfolding call_typed
  call_typed-answered host q s s' a h = rw h refl

  pub lift-done :
      {A : Type 0} (o : Outcome A) (s s' : S) (a : A) → lift o s ≡ (s', done a) → o ≡ done a
  lift-done (refused c) s s' a h = cc
  lift-done (done b) s s' a h = cc

  pub give-done : {A : Type 0} (b : A) (s s' : S) (a : A) → give b s ≡ (s', done a) → b ≡ a
  give-done b s s' a h = cc

pub under-done : {A : Type 0} (c : Text) (r : Result A) (a : A) → under c r ≡ done a → r ≡ ok a
under-done c (ok b) a h = cc
under-done c (err e) a h = cc
