-- ===== src/Client/Pulls/Stale.antt =====
-- Which answers crates/client/src/lib.rs drops as those of an earlier subscription.
use ahead.Common.{
  ℕ, suc, ◌+◌, ◌<◌, ◌≡◌, ◌≢◌, Option, false, refl, ap, sym, ◌∙◌, Bool, true, not, ◌&&◌, List, [],
  ◌∷◌, ◌++◌, none, some, ◌==◌, if◌then◌else◌, arith, any, is_some, length, Bool-cases, inl, inr,
}
use ahead.Common.Text.{Text}
use ahead.Common.Map.{insert, lookup, lookup-insert}
use ahead.Common.Order.{same, same_iff, same_refl, text_ord}
use ahead.Client.Pulls.{
  or_zero, IssuedPull, PullLedger, epoch, absorb, current_epochs, issue, same_map, take_first,
  asks_for, stale, drop_first, capacity,
}
use ahead.Client.Pulls.Outstanding.{
  Foreign, Foreign-none, Foreign-drop, Once, Once-append, Once-last, Once-drop, Once-take,
  Once-refresh, Once-found, Once-asked,
}

-- How often a channel is marked.
abbrev marked : Text → List Text → ℕ
marked k [] = 0
marked k (c ∷ cs) = (if same k c then 1 else 0) + marked k cs

epoch-absorb :
    (l : PullLedger) (marks : List Text) (k : Text)
    → epoch (absorb l marks) k ≡ epoch l k + marked k marks
unfolding absorb epoch
epoch-absorb l [] k = omega arith
epoch-absorb l (c ∷ marks) k =
    let l' : PullLedger = record l {
      epochs = insert c (epoch l c + 1) l.epochs;
      generation = l.generation + 1;
    } in
    ground
      (arith, epoch-absorb l' marks k, lookup-insert k c (epoch l c + 1) l.epochs, same_iff k c)

-- Some channel of the request was marked.
abbrev pub touches : List (Text × ℕ) → List Text → Bool
touches cursors marks = any (λ e. any (same e.0) marks) cursors

marked-any : (k : Text) (marks : List Text) → (marked k marks == 0) ≡ not (any (same k) marks)
marked-any k [] = refl
marked-any k (c ∷ marks) = ground (arith, marked-any k marks)

epochs_differ :
    (l l' : PullLedger) (cursors : List (Text × ℕ)) (marks : List Text)
    → ((k : Text) → epoch l' k ≡ epoch l k + marked k marks)
    → same_map (current_epochs l cursors) (current_epochs l' cursors) ≡ not (touches cursors marks)
unfolding current_epochs same_map
epochs_differ l l' [] marks grown = refl
epochs_differ l l' ((k, n) ∷ cursors) marks grown =
    ground (arith, epochs_differ l l' cursors marks grown, grown k, marked-any k marks, same_refl k)

absorb-issued : (l : PullLedger) (marks : List Text) → (absorb l marks).issued ≡ l.issued
unfolding absorb
absorb-issued l [] = refl
absorb-issued l (c ∷ marks) =
    let l' : PullLedger = record l {
      epochs = insert c (epoch l c + 1) l.epochs;
      generation = l.generation + 1;
    } in
    absorb-issued l' marks

abbrev current_test : PullLedger → List (Text × ℕ) → IssuedPull → Bool
current_test l cursors p = asks_for cursors p && same_map p.epochs (current_epochs l cursors)

-- An answer is dropped when its request is outstanding, and none under the current epochs.
stale_tests :
    (l : PullLedger) (cursors : List (Text × ℕ))
    → (stale l cursors).1 ≡ (
        not (is_some (take_first (current_test l cursors) l.issued))
        && is_some (take_first (asks_for cursors) l.issued))
unfolding stale
stale_tests l cursors = ground arith

same_map→eq : (a b : List (Text × ℕ)) → same_map a b ≡ true → a ≡ b
unfolding same_map
same_map→eq [] [] h = refl
same_map→eq [] (e ∷ es) h = cc
same_map→eq (e ∷ es) [] h = cc
same_map→eq ((k, n) ∷ es) ((j, m) ∷ fs) h = ground (arith, same_iff k j, same_map→eq es fs)

different : (a b : List (Text × ℕ)) → a ≢ b → same_map a b ≡ false
different a b h = elim (Bool-cases (same_map a b)) [
  | inl e ↦ absurd (h (same_map→eq a b e))
  | inr e ↦ e
]

module _ (cursors : List (Text × ℕ)) where
  -- What befalls the ledger after a request: transactions mark channels, other requests are issued, and other
  -- requests are answered. The marks are all those since, and the number is that of the requests issued since.
  pub data Since (l : PullLedger) : List Text → ℕ → PullLedger → Type 0 where
    asked_now : Since l [] 0 l
    committed :
        {marks : List Text} {n : ℕ} {l' : PullLedger} (more : List Text)
        → Since l marks n l'
        → Since l (more ++ marks) n (absorb l' more)
    asked :
        {marks : List Text} {n : ℕ} {l' : PullLedger} (others : List (Text × ℕ))
        → others ≢ cursors
        → Since l marks n l'
        → Since l marks (suc n) (issue l' others)
    answered :
        {marks : List Text} {n : ℕ} {l' : PullLedger} (others : List (Text × ℕ))
        → others ≢ cursors
        → Since l marks n l'
        → Since l marks n (stale l' others).0

marked-append : (k : Text) (xs ys : List Text) → marked k (xs ++ ys) ≡ marked k xs + marked k ys
marked-append k [] ys = omega arith
marked-append k (x ∷ xs) ys = omega (arith, marked-append k xs ys)

stale-epochs : (l : PullLedger) (others : List (Text × ℕ)) → (stale l others).0.epochs ≡ l.epochs
unfolding stale
stale-epochs l others = ground arith

-- An answer to another request keeps the request.
module _ (cursors epochs : List (Text × ℕ)) where
  stale-Once :
      (n : ℕ) (l : PullLedger) (others : List (Text × ℕ))
      → same_map cursors others ≡ false
      → Once cursors epochs n l.issued
      → Once cursors epochs n (stale l others).0.issued
  unfolding stale
  stale-Once n l others t o =
      go (take_first (current_test l others) l.issued) (take_first (asks_for others) l.issued) refl
        refl
    where
      go :
          (x y : Option (List IssuedPull))
          → take_first (current_test l others) l.issued ≡ x
          → take_first (asks_for others) l.issued ≡ y
          → Once cursors epochs n (stale l others).0.issued
      go (some rest) y e f =
          rw (stale, e)
            (Once-refresh cursors epochs n others (current_epochs l others) rest t (
              Once-take cursors epochs n (current_test l others) l.issued rest (ground (arith, t)) e
                o))
      go none (some rest) e f =
          rw (stale, e) (rw f (Once-take cursors epochs n (asks_for others) l.issued rest t f o))
      go none none e f = rw (stale, e) (rw f o)

-- Fewer than the capacity were issued since: the request is outstanding once, and each channel's epoch has grown by
-- the marks.
Since-Once :
    (l : PullLedger) (cursors : List (Text × ℕ)) (marks : List Text) (n : ℕ) (l' : PullLedger)
    → take_first (asks_for cursors) l.issued ≡ none
    → Since cursors (issue l cursors) marks n l'
    → n < capacity
    → Once cursors (current_epochs l cursors) n l'.issued
      × ((k : Text) → epoch l' k ≡ epoch l k + marked k marks)
unfolding issue epoch
Since-Once l cursors _ _ _ fresh asked_now few = (
  Once-last cursors (current_epochs l cursors)
      (if length l.issued == capacity then drop_first l.issued else l.issued)
      (go (length l.issued == capacity)),
  λ k. omega arith,
)
  where
    go : (b : Bool) → Foreign cursors (if b then drop_first l.issued else l.issued)
    go true = Foreign-drop cursors l.issued (Foreign-none cursors l.issued fresh)
    go false = Foreign-none cursors l.issued fresh
Since-Once l cursors _ n _ fresh (committed {marks = marks} {l' = l'} more before) few =
    let (once, grown) = Since-Once l cursors marks n l' fresh before few in
    (
      rw (absorb-issued l' more) once,
      λ k.
          epoch-absorb l' more k
          ∙ ap (λ x. x + marked k more) (grown k)
          ∙ omega (arith, marked-append k more marks),
    )
Since-Once l cursors marks _ _ fresh (asked {n = n} {l' = l'} others other before) few =
    let (once, grown) = Since-Once l cursors marks n l' fresh before (omega (arith, few)) in
    (
      Once-append cursors (current_epochs l cursors) n _ _ (different others cursors other)
          (go (length l'.issued == capacity) refl once),
      grown,
    )
  where
    go :
        (b : Bool)
        → (length l'.issued == capacity) ≡ b
        → Once cursors (current_epochs l cursors) n l'.issued
        → Once cursors (current_epochs l cursors) n (if b then drop_first l'.issued else l'.issued)
    go true e once =
        Once-drop cursors (current_epochs l cursors) n l'.issued (ground (arith, few, e)) once
    go false e once = once
Since-Once l cursors marks n _ fresh (answered {l' = l'} others other before) few =
    let (once, grown) = Since-Once l cursors marks n l' fresh before few in
    (
      stale-Once cursors (current_epochs l cursors) n l' others
          (different cursors others (λ e. other (sym e))) once,
      λ k. ap (λ es. or_zero (lookup k es)) (stale-epochs l' others) ∙ grown k,
    )

-- A request was issued where no other for the same cursors was outstanding. Since then no other for those cursors
-- was issued or answered, and fewer than 1,024 requests were issued. However many transactions were committed and
-- answers to other requests received, its answer is dropped exactly when one of the transactions subscribed or
-- unsubscribed a channel of the request.
pub stale_iff_touched :
    (l l' : PullLedger) (cursors : List (Text × ℕ)) (marks : List Text) (n : ℕ)
    → take_first (asks_for cursors) l.issued ≡ none
    → Since cursors (issue l cursors) marks n l'
    → n < capacity
    → (stale l' cursors).1 ≡ touches cursors marks
stale_iff_touched l l' cursors marks n fresh since few =
    let (once, grown) = Since-Once l cursors marks n l' fresh since few in
    let epochs = current_epochs l cursors in
    stale_tests l' cursors
    ∙ rw
        (
          Once-asked cursors epochs n l'.issued once,
          Once-found cursors epochs n (λ q. same_map q.epochs (current_epochs l' cursors)) l'.issued
              once,
        )
        (ground (arith, epochs_differ l l' cursors marks grown))
