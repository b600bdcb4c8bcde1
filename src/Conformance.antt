-- ===== src/Conformance.antt =====
-- account of scripts/conformance.py: the result records of a runner against the fixtures. A problem
-- carries what its message names; the fixtures map each ID to the languages it does not apply to.
pub mod Tallies
pub mod Accounts
pub mod Languages
pub mod Records
use cekat_event_sdk.Base.{
  ℕ, zero, suc, ◌+◌, ℤ, Text, Bool, true, false, ◌&&◌, ◌||◌, not, Option, none, some, List, [], ◌∷◌,
  ◌++◌, ltb, if◌then◌else◌, codes, text_eq,
}
use cekat_event_sdk.Json.{Json, null, str}

pub record ResultRecord : Type 0 where
  pub id : Text
  pub status : Json
  pub has_runtime_deviation : Bool

abbrev pub Fixtures : Type 0
Fixtures = List (Text × List Text)

pub data Problem : Type 0 where
  unknown_fixture not_declared : (id : Text) → Problem
  other_status : (id : Text) → Json → Problem
  reported_twice no_result : (ids : List Text) → Problem
  runner_exited mock_exited mock_stopped : (status : ℤ) → Problem
  failure : (message : Text) → Problem

pub record Outcome : Type 0 where
  pub passed : ℕ
  pub not_applicable : ℕ
  pub deviations : ℕ
  pub problems : List Problem
  pub warnings : List Text

abbrev pub new_outcome : Outcome
new_outcome = record {
  passed = 0;
  not_applicable = 0;
  deviations = 0;
  problems = [];
  warnings = [];
}

unfoldable pub stands_in : Text → List Text → Bool
stands_in t [] = false
stands_in t (u ∷ us) = text_eq u t || stands_in t us

unfoldable pub find_fixture : Text → Fixtures → Option (List Text)
find_fixture id [] = none
find_fixture id ((name, inapplicable) ∷ rest) =
    if text_eq name id then some inapplicable else find_fixture id rest

abbrev pub is_status : Text → Json → Bool
is_status expected (str t) = text_eq t expected
is_status expected null = false
is_status expected _ = false

abbrev pub add_problem : Problem → Outcome → Outcome
add_problem p o = record o { problems = o.problems ++ p ∷ [] }

abbrev bump_deviations : Bool → Outcome → Outcome
bump_deviations b o = if b then record o { deviations = suc o.deviations } else o

abbrev note_passed : ResultRecord → Outcome → Outcome
note_passed r o = bump_deviations r.has_runtime_deviation (record o { passed = suc o.passed })

abbrev note_inapplicable : Text → ResultRecord → List Text → Outcome → Outcome
note_inapplicable language r inapplicable o =
    if stands_in language inapplicable
    then record o { not_applicable = suc o.not_applicable }
    else add_problem (not_declared r.id) o

-- What one round of the loop over the records does to the outcome.
unfoldable pub note_record : Text → Option (List Text) → ResultRecord → Outcome → Outcome
unfolding stands_in
note_record language none r o = add_problem (unknown_fixture r.id) o
note_record language (some inapplicable) r o =
    if is_status (codes "passed") r.status
    then note_passed r o
    else if is_status (codes "not_applicable") r.status
    then note_inapplicable language r inapplicable o
    else add_problem (other_status r.id r.status) o

unfoldable pub note_records : Text → Fixtures → List ResultRecord → Outcome → Outcome
unfolding note_record find_fixture
note_records language fixtures [] o = o
note_records language fixtures (r ∷ rs) o =
    note_records language fixtures rs (note_record language (find_fixture r.id fixtures) r o)

abbrev pub Seen : Type 0
Seen = List (Text × ℕ)

-- seen[id] = seen.get(id, 0) + 1
unfoldable pub bump : Text → Seen → Seen
bump id [] = (id, 1) ∷ []
bump id ((name, n) ∷ rest) =
    let later = bump id rest in if text_eq name id then (name, suc n) ∷ rest else (name, n) ∷ later

unfoldable pub see : List ResultRecord → Seen → Seen
unfolding bump
see [] seen = seen
see (r ∷ rs) seen = see rs (bump r.id seen)

-- The message sorts the IDs.
unfoldable pub duplicates : Seen → List Text
duplicates [] = []
duplicates ((id, n) ∷ rest) = let more = duplicates rest in if ltb 1 n then id ∷ more else more

unfoldable pub is_seen : Text → Seen → Bool
is_seen id [] = false
is_seen id ((name, n) ∷ rest) = text_eq name id || is_seen id rest

unfoldable pub missing : Fixtures → Seen → List Text
unfolding is_seen
missing [] seen = []
missing ((id, inapplicable) ∷ rest) seen =
    let more = missing rest seen in if is_seen id seen then more else id ∷ more

abbrev pub add_if_some : (List Text → Problem) → List Text → Outcome → Outcome
add_if_some p [] o = o
add_if_some p (id ∷ ids) o = add_problem (p (id ∷ ids)) o

unfoldable pub account : (language : Text) → Fixtures → List ResultRecord → Outcome → Outcome
unfolding note_records see duplicates missing
account language fixtures records o =
    let seen = see records [] in
    add_if_some no_result (missing fixtures seen)
      (add_if_some reported_twice (duplicates seen) (note_records language fixtures records o))
