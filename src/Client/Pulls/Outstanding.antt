-- ===== src/Client/Pulls/Outstanding.antt =====
-- A request that is outstanding exactly once in the ledger of crates/client/src/lib.rs.
use ahead.Common.{
  ℕ, suc, ◌≤◌, ◌<◌, ◌≡◌, ◌⊎◌, Option, All, false, refl, Bool, true, ◌&&◌, List, [], ◌∷◌, ◌++◌, none,
  some, if◌then◌else◌, arith, is_some, length, length-append, All-append, inl, inr,
}
use ahead.Common.Text.{Text}
use ahead.Common.Order.{same_refl, text_ord}
use ahead.Client.Pulls.{IssuedPull, same_map, take_first, asks_for, refresh, drop_first}

pub same_map_refl : (m : List (Text × ℕ)) → same_map m m ≡ true
unfolding same_map
same_map_refl [] = refl
same_map_refl ((k, n) ∷ m) = ground (arith, same_refl k, same_map_refl m)

-- The first match is the head, or it is taken from the rest.
abbrev Taken : (IssuedPull → Bool) → IssuedPull → List IssuedPull → List IssuedPull → Type 0
Taken test p ps rest =
    ((test p ≡ true) × (ps ≡ rest))
    ⊎ ((qs : List IssuedPull) × (take_first test ps ≡ some qs) × (p ∷ qs ≡ rest))

take_first-Taken :
    (test : IssuedPull → Bool) (p : IssuedPull) (ps rest : List IssuedPull)
    → take_first test (p ∷ ps) ≡ some rest
    → Taken test p ps rest
unfolding take_first
take_first-Taken test p ps rest h = go (test p) (take_first test ps) refl refl h
  where
    go :
        (b : Bool) (o : Option (List IssuedPull))
        → test p ≡ b
        → take_first test ps ≡ o
        → (if b then some ps else elim o as (λ o. Option (List IssuedPull)) [
          | none ↦ none
          | some qs ↦ some (p ∷ qs)
        ])
          ≡ some rest
        → Taken test p ps rest
    go true o e g h = inl (e, cc)
    go false none e g h = cc
    go false (some qs) e g h = inr (qs, g, cc)

module _ (cursors : List (Text × ℕ)) where
  -- No entry is a request for the cursors.
  abbrev pub Foreign : List IssuedPull → Type 0
  Foreign ps = All (λ q. asks_for cursors q ≡ false) ps

  pub Foreign-none : (ps : List IssuedPull) → take_first (asks_for cursors) ps ≡ none → Foreign ps
  unfolding take_first
  Foreign-none [] h = tt
  Foreign-none (p ∷ ps) h = (ground arith, Foreign-none ps (ground arith))

  Foreign-absent :
      (more : IssuedPull → Bool) (ps : List IssuedPull)
      → Foreign ps
      → take_first (λ q. asks_for cursors q && more q) ps ≡ none
  unfolding take_first
  Foreign-absent more [] f = refl
  Foreign-absent more (p ∷ ps) f = ground (arith, f.0, Foreign-absent more ps f.1)

  pub Foreign-drop : (ps : List IssuedPull) → Foreign ps → Foreign (drop_first ps)
  Foreign-drop [] f = tt
  Foreign-drop (p ∷ ps) f = f.1

  Foreign-refresh :
      (others current : List (Text × ℕ)) (ps : List IssuedPull)
      → Foreign ps
      → Foreign (refresh others current ps)
  unfolding refresh
  Foreign-refresh others current [] f = tt
  Foreign-refresh others current (p ∷ ps) f =
      (ground (arith, f.0), Foreign-refresh others current ps f.1)

  length-refresh :
      (others current : List (Text × ℕ)) (ps : List IssuedPull)
      → length (refresh others current ps) ≡ length ps
  unfolding refresh
  length-refresh others current [] = refl
  length-refresh others current (p ∷ ps) = omega (arith, length-refresh others current ps)

  -- What is left without one entry.
  Foreign-take :
      (test : IssuedPull → Bool) (ps rest : List IssuedPull)
      → take_first test ps ≡ some rest
      → Foreign ps
      → Foreign rest × (length rest ≤ length ps)
  unfolding take_first
  Foreign-take test [] rest h f = cc
  Foreign-take test (p ∷ ps) rest h f = elim (take_first-Taken test p ps rest h) [
    | inl (e, same_rest) ↦ rw (← same_rest) (f.1, omega arith)
    | inr (qs, e, same_rest) ↦
        let (g, le) = Foreign-take test ps qs e f.1 in
        rw (← same_rest) ((f.0, g), omega (arith, le))
  ]

  module _ (epochs : List (Text × ℕ)) where
    abbrev pub asked_pull : IssuedPull
    asked_pull = record { cursors = cursors; epochs = epochs }

    -- The request is outstanding once, and at most `n` entries stand after it.
    abbrev pub Once : ℕ → List IssuedPull → Type 0
    Once n [] = ⊥
    Once n (q ∷ qs) =
        ((q ≡ asked_pull) × Foreign qs × (length qs ≤ n))
        ⊎ ((asks_for cursors q ≡ false) × Once n qs)

    pub Once-append :
        (n : ℕ) (q : IssuedPull) (qs : List IssuedPull)
        → asks_for cursors q ≡ false
        → Once n qs
        → Once (suc n) (qs ++ (q ∷ []))
    Once-append n q [] h o = absurd o
    Once-append n q (p ∷ ps) h (inl (e, f, le)) = inl (
      e,
      All-append (λ x. asks_for cursors x ≡ false) ps (q ∷ []) f (h, tt),
      omega (arith, le, length-append ps (q ∷ [])),
    )
    Once-append n q (p ∷ ps) h (inr (e, o)) = inr (e, Once-append n q ps h o)

    pub Once-last : (ps : List IssuedPull) → Foreign ps → Once 0 (ps ++ (asked_pull ∷ []))
    Once-last [] f = inl (refl, tt, omega arith)
    Once-last (p ∷ ps) f = inr (f.0, Once-last ps f.1)

    pub Once-drop :
        (n : ℕ) (qs : List IssuedPull) → suc n < length qs → Once n qs → Once n (drop_first qs)
    Once-drop n [] h o = o
    Once-drop n (q ∷ qs) h (inl (e, f, le)) = absurd (omega (arith, h, le))
    Once-drop n (q ∷ qs) h (inr (e, o)) = o

    pub Once-take :
        (n : ℕ) (test : IssuedPull → Bool) (qs rest : List IssuedPull)
        → test asked_pull ≡ false
        → take_first test qs ≡ some rest
        → Once n qs
        → Once n rest
    Once-take n test [] rest t h o = absurd o
    Once-take n test (q ∷ qs) rest t h o =
        go (take_first-Taken test q qs rest h) o (Once-take n test qs)
      where
        go :
            Taken test q qs rest
            → Once n (q ∷ qs)
            → ((rest' : List IssuedPull)
                → test asked_pull ≡ false
                → take_first test qs ≡ some rest'
                → Once n qs
                → Once n rest')
            → Once n rest
        go (inl (e, same_rest)) (inl (f, g, le)) ih = absurd (ground (arith, t, rw f at e))
        go (inl (e, same_rest)) (inr (f, o)) ih = rw (← same_rest) o
        go (inr (ps, e, same_rest)) (inl (f, g, le)) ih =
            let (k, shorter) = Foreign-take test qs ps e g in
            rw (← same_rest) (inl (f, k, omega (arith, le, shorter)))
        go (inr (ps, e, same_rest)) (inr (f, o)) ih = rw (← same_rest) (inr (f, ih ps t e o))

    pub Once-refresh :
        (n : ℕ) (others current : List (Text × ℕ)) (qs : List IssuedPull)
        → asks_for others asked_pull ≡ false
        → Once n qs
        → Once n (refresh others current qs)
    unfolding refresh
    Once-refresh n others current [] t o = o
    Once-refresh n others current (q ∷ qs) t (inl (e, f, le)) = inl (
      rw e (rw t refl),
      Foreign-refresh others current qs f,
      omega (arith, le, length-refresh others current qs),
    )
    Once-refresh n others current (q ∷ qs) t (inr (e, o)) =
        inr (ground (arith, e), Once-refresh n others current qs t o)

    -- The request is found, under a further test if it passes it.
    pub Once-found :
        (n : ℕ) (more : IssuedPull → Bool) (qs : List IssuedPull)
        → Once n qs
        → is_some (take_first (λ q. asks_for cursors q && more q) qs) ≡ more asked_pull
    unfolding take_first
    Once-found n more [] o = absurd o
    Once-found n more (q ∷ qs) (inl (e, f, le)) =
        rw e (ground (arith, same_map_refl cursors, Foreign-absent more qs f))
    Once-found n more (q ∷ qs) (inr (e, o)) = ground (arith, e, Once-found n more qs o)

    pub Once-asked :
        (n : ℕ) (qs : List IssuedPull)
        → Once n qs
        → is_some (take_first (asks_for cursors) qs) ≡ true
    unfolding take_first
    Once-asked n [] o = absurd o
    Once-asked n (q ∷ qs) (inl (e, f, le)) = rw e (ground (arith, same_map_refl cursors))
    Once-asked n (q ∷ qs) (inr (e, o)) = ground (arith, e, Once-asked n qs o)
