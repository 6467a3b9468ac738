-- ===== src/Client/Pulls.antt =====
-- `PullLedger` of crates/client/src/lib.rs: which pulls are outstanding, and under which subscription of
-- each channel they were issued. The counters are `u64` that a process cannot exhaust, and unbounded here.
pub mod Outstanding
pub mod Stale
use ahead.Common.{
  ℕ, suc, ◌+◌, ◌≡◌, Bool, true, false, ◌&&◌, List, [], ◌∷◌, ◌++◌, Option, none, some, ◌==◌,
  if◌then◌else◌, length,
}
use ahead.Common.Text.{Text}
use ahead.Common.Map.{lookup, insert, keys}
use ahead.Common.Order.{same, text_ord}

-- The cursor asked on every channel, and the epoch of each channel's subscription.
pub record IssuedPull : Type 0 where
  pub cursors : List (Text × ℕ)
  pub epochs : List (Text × ℕ)

pub record PullLedger : Type 0 where
  pub epochs : List (Text × ℕ)
  pub issued : List IssuedPull
  pub generation : ℕ

abbrev pub empty_ledger : PullLedger
empty_ledger = record { epochs = []; issued = []; generation = 0 }

abbrev pub capacity : ℕ
capacity = 1024

abbrev pub or_zero : Option ℕ → ℕ
or_zero none = 0
or_zero (some n) = n

unfoldable pub epoch : PullLedger → Text → ℕ
epoch l channel = or_zero (lookup channel l.epochs)

-- `absorb`: each channel that a committed transaction marked starts a new epoch.
unfoldable pub absorb : PullLedger → List Text → PullLedger
unfolding epoch
absorb l [] = l
absorb l (channel ∷ marks) =
    absorb
      (record l {
        epochs = insert channel (epoch l channel + 1) l.epochs;
        generation = l.generation + 1;
      })
      marks

-- `current_epochs`.
unfoldable pub current_epochs : PullLedger → List (Text × ℕ) → List (Text × ℕ)
current_epochs l [] = []
current_epochs l ((channel, n) ∷ cursors) = (channel, epoch l channel) ∷ current_epochs l cursors

abbrev pub drop_first : List IssuedPull → List IssuedPull
drop_first [] = []
drop_first (p ∷ ps) = ps

-- Beyond the capacity the oldest request is forgotten.
unfoldable pub issue : PullLedger → List (Text × ℕ) → PullLedger
issue l cursors =
    let kept = if length l.issued == capacity then drop_first l.issued else l.issued in
    record l {
      issued = kept ++ (record { cursors = cursors; epochs = current_epochs l cursors } ∷ []);
    }

-- Equality of two maps.
unfoldable pub same_map : List (Text × ℕ) → List (Text × ℕ) → Bool
same_map [] [] = true
same_map [] (e ∷ es) = false
same_map (e ∷ es) [] = false
same_map ((k, n) ∷ es) ((j, m) ∷ fs) = same k j && (n == m && same_map es fs)

-- `position` and `remove`: the list without its first match.
unfoldable pub take_first : (IssuedPull → Bool) → List IssuedPull → Option (List IssuedPull)
take_first test [] = none
take_first test (p ∷ ps) =
    let rest = take_first test ps in
    if test p then some ps else elim rest [ none ↦ none | some qs ↦ some (p ∷ qs) ]

abbrev pub asks_for : List (Text × ℕ) → IssuedPull → Bool
asks_for cursors p = same_map p.cursors cursors

-- Every matching request takes the current epochs.
unfoldable pub refresh : List (Text × ℕ) → List (Text × ℕ) → List IssuedPull → List IssuedPull
refresh cursors current [] = []
refresh cursors current (p ∷ ps) =
    (if asks_for cursors p then record p { epochs = current } else p) ∷ refresh cursors current ps

-- Whether the page that answers a request from `cursors` was asked under an earlier subscription of
-- one of its channels; the request is consumed.
unfoldable pub stale : PullLedger → List (Text × ℕ) → PullLedger × Bool
unfolding take_first refresh current_epochs
stale l cursors =
    let current = current_epochs l cursors in
    elim (take_first (λ p. asks_for cursors p && same_map p.epochs current) l.issued) [
      | some rest ↦ (record l { issued = refresh cursors current rest }, false)
      | none ↦ elim (take_first (asks_for cursors) l.issued) [
        | some rest ↦ (record l { issued = rest }, true)
        | none ↦ (l, false)
      ]
    ]
