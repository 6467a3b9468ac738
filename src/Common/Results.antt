-- ===== src/Common/Results.antt =====
-- `ahead_core::Result` (crates/core/src/lib.rs): the error messages as constructors, and `?` as bind.
use mathlib.Core.Path.{◌≡◌, refl}
use mathlib.Core.Bool.{Bool, true, false}
use mathlib.Core.List.{List, [], ◌∷◌}
use mathlib.Core.Option.{Option, none, some}

-- One constructor for each message that the modelled code passes to `invalid` or `Error::new`.
pub data Error : Type 0 where
  counter_not_a_number invalid_counter counter_unsafe : Error
  not_json missing_field wrong_type : Error
  models_not_an_object models_empty model_name_empty : Error
  cursors_not_an_object cursors_empty channel_empty : Error
  record_model_empty record_identity_invalid record_stamp_invalid record_error_invalid : Error
  record_state_invalid record_state_with_error duplicate_record : Error
  page_empty page_backwards page_past_head page_too_large : Error
  receipt_client_blank receipt_sequence_invalid receipt_rejection_invalid : Error
  receipt_read_failure : Error
  subscribe_empty subscribe_frame ack_invalid live_frame_invalid : Error
  live_page_invalid live_page_channels live_page_progression live_event_invalid : Error
  stale_writer transaction_active : Error
  pull_cursor_gap cursor_moved response_mismatch catch_up_unasked : Error
  page_before_acknowledgement : Error
  not_nonblank mutations_not_an_array batch_size mutation_not_an_object duplicate_ordinal : Error
  counter_exhausted push_not_declared many_pushes : Error
  schema_models_empty schema_enum_invalid schema_model_reserved schema_model_invalid : Error
  schema_version_invalid schema_field_invalid schema_list_nullable schema_identity_missing : Error
  schema_identity_invalid schema_prerequisite_invalid schema_prerequisite_argument : Error
  schema_unique_invalid schema_relation_invalid schema_reference_missing : Error
  schema_target_missing schema_reference_type enum_unknown list_element_invalid : Error
  model_unknown identity_not_an_object identity_fields identity_missing : Error
  identity_descriptor_missing : Error
  state_not_an_object state_field_unknown state_field_missing patch_not_an_object : Error
  patch_identity patch_field_unknown value_not_nullable enum_value_invalid list_expected : Error
  integer_expected integer_unsafe float_expected uuid_expected uuid_invalid uuid_format : Error
  date_time_expected date_time_invalid scalar_invalid : Error
  create_exists create_values_missing update_row_missing patch_missing : Error
  another_batch another_client unknown_batch not_in_flight rejection_outside : Error
  authority_omitted : Error
  -- A constraint of the tables.
  constraint_failed : Error

-- An error, or a value.
pub data Result {ℓ} (V : Type ℓ) : Type ℓ where
  err : Error → Result V
  ok : V → Result V

infixl 5 ◌>>=◌ ◌>>◌
-- `let v = r?; next(v)`.
abbrev pub ◌>>=◌ {ℓ ℓ'} : {V : Type ℓ} {W : Type ℓ'} → Result V → (V → Result W) → Result W
err failure >>= next = err failure
ok v >>= next = next v

-- `r?; next`.
abbrev pub ◌>>◌ {ℓ ℓ'} : {V : Type ℓ} {W : Type ℓ'} → Result V → Result W → Result W
step >> next = step >>= λ done. next

-- `if test { return Err(e) }`.
abbrev pub refuse : Bool → Error → Result (Unit {0})
refuse true e = err e
refuse false e = ok tt

abbrev pub or_fail {ℓ} : {A : Type ℓ} → Option A → Error → Result A
or_fail none e = err e
or_fail (some a) e = ok a

-- `map_err`.
abbrev pub map_err {ℓ} : {A : Type ℓ} → Error → Result A → Result A
map_err e (ok a) = ok a
map_err e (err d) = err e

-- `.map(f).collect::<Result<Vec<_>>>()`.
unfoldable pub map_ok {ℓ κ} : {A : Type ℓ} {B : Type κ} → (A → Result B) → List A → Result (List B)
map_ok f [] = ok []
map_ok f (x ∷ xs) = do ok ((← f x) ∷ (← map_ok f xs))

-- `for x in xs { f(x)? }`.
unfoldable pub each {ℓ} : {A : Type ℓ} → (A → Result (Unit {0})) → List A → Result (Unit {0})
each f [] = ok tt
each f (x ∷ xs) = f x >> each f xs

-- Where a step and what follows it succeed, the step's own value.
pub >>=-eq-ok {ℓ ℓ'} :
    {V : Type ℓ} {W : Type ℓ'} (step : Result V) (next : V → Result W) {w : W}
    → (step >>= next) ≡ ok w
    → (v : V) × (step ≡ ok v) × (next v ≡ ok w)
>>=-eq-ok (err failure) next succeeds = cc
>>=-eq-ok (ok v) next succeeds = (v, refl, succeeds)
