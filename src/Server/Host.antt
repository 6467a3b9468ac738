-- ===== src/Server/Host.antt =====
-- The host operations of crates/server/src/host.rs. A host is a state and what it answers to each request:
-- its own failure, a value that serde refuses, or the typed answer. Calls run one after another.
pub mod Monitor
pub mod Returns
use ahead.Common.{ℕ, Bool, true, false, List, [], ◌∷◌, Option, none, some}
use ahead.Common.Text.{Text, codes}
use ahead.Core.Json.{Value}
use ahead.Server.Config.{
  Outcome, refused, done, storage_invalid, handler_invalid, loader_invalid, host_invalid, host_code,
}

pub data HostRequest : Type 0 where
  claim : Text → Text → HostRequest
  save_receipt : Text → Text → ℕ → Text → HostRequest
  head : Text → HostRequest
  scan : Text → ℕ → ℕ → HostRequest
  savepoint rollback release : ℕ → HostRequest
  handle : Text → ℕ → Value → Text → ℕ → HostRequest
  load : Text → ℕ → List Value → Text → HostRequest
  advance_stamp ensure_stamp : Text → Text → HostRequest
  publish : Text → Text → Value → Text → ℕ → HostRequest

-- `HostRequest::invalid_code`.
unfoldable pub invalid_code : HostRequest → Text
invalid_code (claim owner client_id) = storage_invalid
invalid_code (save_receipt owner client_id sequence receipt) = storage_invalid
invalid_code (scan channel after limit) = storage_invalid
invalid_code (handle name version arguments owner ordinal) = handler_invalid
invalid_code (load model version identities owner) = loader_invalid
invalid_code _ = host_invalid

pub record Claimed : Type 0 where
  pub client_id : Text
  pub owner : Text
  pub sequence : ℕ
  pub receipt : Option Text

pub record Invalidation : Type 0 where
  pub channel : Text
  pub cursor : ℕ
  pub model : Text
  pub identity : Value
  pub identity_key : Text
  pub stamp : ℕ

pub data Loaded : Type 0 where
  rows : List (Option Value) → Loaded
  load_refused : Text → Loaded
  load_failed : Text → Loaded

pub record Published : Type 0 where
  pub cursor : ℕ
  pub stamp : ℕ

pub record RecordRef : Type 0 where
  pub model : Text
  pub identity : Value

pub record PublicationIntent : Type 0 where
  pub channel : Text
  pub records : Option (List RecordRef)

pub data Handled : Type 0 where
  settled : List RecordRef → List PublicationIntent → Handled
  rejected : Text → Handled
  failed : Text → Handled

-- The type of the answer to a request.
abbrev pub Answer : HostRequest → Type 0
Answer (claim owner client_id) = Claimed
Answer (save_receipt owner client_id sequence receipt) = Unit
Answer (head channel) = ℕ
Answer (scan channel after limit) = List Invalidation
Answer (savepoint ordinal) = Unit
Answer (rollback ordinal) = Unit
Answer (release ordinal) = Unit
Answer (handle name version arguments owner ordinal) = Handled
Answer (load model version identities owner) = Loaded
Answer (advance_stamp model identity_key) = ℕ
Answer (ensure_stamp model identity_key) = ℕ
Answer (publish channel model identity identity_key stamp) = Published

pub data Reply (A : Type 0) : Type 0 where
  host_failed : Reply A
  unusable : Reply A
  answered : A → Reply A

abbrev pub Host : Type 0 → Type 0
Host S = (q : HostRequest) → S → S × Reply (Answer q)

-- What the engine does with the host's state: the state left, and the result or the code of an error.
abbrev pub Server : Type 0 → Type 0 → Type 0
Server S A = S → S × Outcome A

module _ {S : Type 0} where
  abbrev pub go_on : {A B : Type 0} → S × Outcome A → (A → Server S B) → S × Outcome B
  go_on (s, refused c) next = (s, refused c)
  go_on (s, done a) next = next a s

  infixl 5 ◌>>=◌ ◌>>◌
  abbrev pub ◌>>=◌ : {A B : Type 0} → Server S A → (A → Server S B) → Server S B
  (m >>= next) s = go_on (m s) next

  abbrev pub ◌>>◌ : {A B : Type 0} → Server S A → Server S B → Server S B
  (m >> next) s = go_on (m s) (λ a. next)

  -- A result that asks nothing of the host.
  abbrev pub lift : {A : Type 0} → Outcome A → Server S A
  lift o s = (s, o)

  abbrev pub give : {A : Type 0} → A → Server S A
  give a s = (s, done a)

  abbrev pub typed : (q : HostRequest) → S × Reply (Answer q) → S × Outcome (Answer q)
  typed q (s, host_failed) = (s, refused host_code)
  typed q (s, unusable) = (s, refused (invalid_code q))
  typed q (s, answered a) = (s, done a)

  -- `HostExt::call_typed`.
  unfoldable pub call_typed : Host S → (q : HostRequest) → Server S (Answer q)
  unfolding invalid_code
  call_typed host q s = typed q (host q s)
