-- ===== src/Server/Config/Check/Served.antt =====
-- What `Config::decode` of crates/server/src/lib.rs makes sure of.
use ahead.Common.{
  ℕ, ◌≡◌, refl, sym, ◌∙◌, Bool, true, false, not, ◌&&◌, ◌||◌, List, [], ◌∷◌, Option, none, some,
  any, if◌then◌else◌, ◌==◌, is_some, All, arith,
}
use ahead.Common.Text.{Text}
use ahead.Common.Order.{same, text_ord}
use ahead.Core.Subscribe.{same_texts}
use ahead.Core.Schema.{ModelDescriptor, Schema, first, model}
use ahead.Core.Schema.Check.{validate}
use ahead.Server.Config.{
  Outcome, refused, done, ◌>>=◌, under, refuse_code, config_invalid, Config, ModelContract,
  contract_schema, contract,
}
use ahead.Server.Config.Check.{
  holds_version, bad_version, fill_contracts, check_retained, check_config, check_mutations,
  check_mutation_bindings, check_loaders, retained_models,
}

outcome :
    {A B : Type 0} (step : Outcome A) (next : A → Outcome B) {b : B}
    → (step >>= next) ≡ done b
    → (a : A) × (step ≡ done a) × (next a ≡ done b)
outcome (refused c) next h = cc
outcome (done a) next h = (a, refl, h)

done_parts :
    {A B : Type 0} (a a' : A) (b b' : B)
    → ◌≡◌ {A = Outcome (A × B)} (done (a, b)) (done (a', b'))
    → (a ≡ a') × (b ≡ b')
done_parts a a' b b' h = (cc, cc)

abbrev is_contract : Text → ℕ → ModelContract → Bool
is_contract name version k = same k.name name && k.version == version

-- The contracts are of the versions that are retained, and each has its schema.
abbrev Filled : List (Text × ℕ) → List ModelContract × List (Text × ℕ) → Type 0
Filled seen r =
    All (λ k. is_some k.contract ≡ true) r.0
    × ((name : Text) (version : ℕ)
        → holds_version name version r.1
          ≡ (any (is_contract name version) r.0 || holds_version name version seen))

Filled-moved :
    (seen : List (Text × ℕ)) (ks ks' : List ModelContract) (vs vs' : List (Text × ℕ))
    → ks ≡ ks'
    → vs ≡ vs'
    → Filled seen (ks, vs)
    → Filled seen (ks', vs')
Filled-moved seen ks ks' vs vs' e f h = rw (← e, ← f) h

or_swap : (a b c : Bool) → (b || (a || c)) ≡ ((a || b) || c)
or_swap a b c = ground arith

fill_contracts-Filled :
    (c : Config) (ks : List ModelContract) (seen : List (Text × ℕ)) (ks' : List ModelContract)
    (retained : List (Text × ℕ))
    → fill_contracts c ks seen ≡ done (ks', retained)
    → Filled seen (ks', retained)
unfolding fill_contracts
fill_contracts-Filled c [] seen ks' retained h =
    let (none_left, versions) = done_parts [] ks' seen retained h in
    rw (← none_left, ← versions) (tt, λ name version. refl)
fill_contracts-Filled c (k ∷ ks) seen ks' retained h =
    let (current, e0, h0) = outcome (under config_invalid (model c.schema k.name)) _ h in
    let (u, e1, h1) =
      outcome
        (refuse_code
          (bad_version k.version
            || (holds_version k.name k.version seen
                || not (same_texts k.identity current.identity)))
          config_invalid)
        _ h0 in
    let (v, e2, h2) = outcome (under config_invalid (validate (contract_schema k))) _ h1 in
    let (r, e3, h3) =
      outcome (fill_contracts c ks ((k.name, k.version) ∷ seen))
        (λ r. done (record k { contract = some (contract_schema k) } ∷ r.0, r.1)) h2 in
    let (filled, has) = fill_contracts-Filled c ks ((k.name, k.version) ∷ seen) r.0 r.1 e3 in
    let (whole, versions) =
      done_parts (record k { contract = some (contract_schema k) } ∷ r.0) ks' r.1 retained h3 in
    Filled-moved seen (record k { contract = some (contract_schema k) } ∷ r.0) ks' r.1 retained
      whole versions
      (
        (refl, filled),
        λ name version.
            has name version
            ∙ or_swap (is_contract name version k) (any (is_contract name version) r.0)
                (holds_version name version seen),
      )

first_contract :
    (p : ModelContract → Bool) (ks : List ModelContract)
    → All (λ k. is_some k.contract ≡ true) ks
    → any p ks ≡ true
    → is_some (elim (first p ks) as (λ o. Option Schema) [ none ↦ none | some m ↦ m.contract ])
      ≡ true
unfolding first
first_contract p [] f h = cc
first_contract p (k ∷ ks) f h = go (p k) refl (first_contract p ks f.1)
  where
    go :
        (t : Bool)
        → p k ≡ t
        → (any p ks ≡ true
            → is_some
                (elim (first p ks) as (λ o. Option Schema) [ none ↦ none | some m ↦ m.contract ])
              ≡ true)
        → is_some (elim (if t then some k else first p ks) as (λ o. Option Schema) [
          | none ↦ none
          | some m ↦ m.contract
        ])
          ≡ true
    go true e rest = f.0
    go false e rest = rest (rw e at h)

-- Every model of a schema has its contract.
abbrev pub Served : Config → List ModelDescriptor → Type 0
Served c ms = All (λ m. is_some (contract c m.name m.version) ≡ true) ms

check_retained-All :
    (ms : List ModelDescriptor) (retained : List (Text × ℕ)) {u : Unit {0}}
    → check_retained ms retained ≡ done u
    → All (λ m. holds_version m.name m.version retained ≡ true) ms
unfolding check_retained
check_retained-All [] retained h = tt
check_retained-All (m ∷ ms) retained h =
    let (u, e, h1) =
      outcome (refuse_code (not (holds_version m.name m.version retained)) config_invalid) _ h in
    (ground (arith, e), check_retained-All ms retained h1)

Served-All :
    (c : Config) (ms : List ModelDescriptor) (retained : List (Text × ℕ))
    → Filled [] (c.models, retained)
    → All (λ m. holds_version m.name m.version retained ≡ true) ms
    → Served c ms
unfolding contract
Served-All c [] retained f h = tt
Served-All c (m ∷ ms) retained f h = (
  first_contract (is_contract m.name m.version) c.models f.0
      (or_nothing (any (is_contract m.name m.version) c.models) (sym (f.1 m.name m.version) ∙ h.0)),
  Served-All c ms retained f h.1,
)
  where
    or_nothing : (b : Bool) → (b || false) ≡ true → b ≡ true
    or_nothing true e = refl
    or_nothing false e = e

-- In a configuration that is accepted, every model of the schema is served at the schema's own version.
pub check_config-Served : (c c' : Config) → check_config c ≡ done c' → Served c' c'.schema.models
unfolding check_config
check_config-Served c c' h =
    let (u0, e0, h0) = outcome (under config_invalid (validate c.schema)) _ h in
    let (u1, e1, h1) = outcome (check_mutations c c.mutations []) _ h0 in
    let (u2, e2, h2) = outcome (check_mutation_bindings c c.mutations) _ h1 in
    let (u3, e3, h3) = outcome (check_loaders c c.loaders) _ h2 in
    let (r, e4, h4) = outcome (fill_contracts c (retained_models c) []) _ h3 in
    let (u5, e5, h5) =
      outcome (check_retained c.schema.models r.1) (λ u. done (record c { models = r.0 })) h4 in
    let whole : record c { models = r.0 } ≡ c' = cc in
    rw (← whole) (
      Served-All (record c { models = r.0 }) c.schema.models r.1
        (fill_contracts-Filled c (retained_models c) [] r.0 r.1 e4)
        (check_retained-All c.schema.models r.1 e5))
