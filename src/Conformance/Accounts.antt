-- ===== src/Conformance/Accounts.antt =====
-- What an outcome without problems says of the records.
use cekat_event_sdk.Base.{
  suc, ◌+◌, ◌≤◌, ◌≡◌, ◌≢◌, refl, ap, ◌∙◌, Text, Bool, true, false, Option, none, some, List, [],
  ◌∷◌, ◌++◌, codes, text_eq_iff, arith, Bool-cases, inl, inr, ◌⊎◌, All, length,
}
use cekat_event_sdk.Json.{Json, null, str}
use cekat_event_sdk.Conformance.{
  ResultRecord, Fixtures, Problem, no_result, reported_twice, unknown_fixture, other_status,
  not_declared, Outcome, new_outcome, stands_in, find_fixture, is_status, note_record, note_records,
  Seen, see, duplicates, is_seen, missing, add_if_some, account, bump_deviations,
}
use cekat_event_sdk.Conformance.Tallies.{
  count, tally, tally-see, no_duplicates, ArePositive, see-ArePositive, is_seen-tally, none_missing,
}

-- A record that counts: of a fixture, and passed or declared not to apply.
pub record IsCounted (language : Text) (fixtures : Fixtures) (r : ResultRecord) : Type 0 where
  pub inapplicable : List Text
  pub is_known : find_fixture r.id fixtures ≡ some inapplicable
  pub counts :
      (r.status ≡ str (codes "passed"))
      ⊎ ((r.status ≡ str (codes "not_applicable")) × (stands_in language inapplicable ≡ true))

is_status-str : (t : Text) (j : Json) → is_status t j ≡ true → j ≡ str t
is_status-str t (str u) h = ap str ((text_eq_iff u t).0 h)
is_status-str t null h = cc
is_status-str t _ h = cc

pub add_problem-ne : (p : Problem) (ps : List Problem) → ps ++ p ∷ [] ≢ []
add_problem-ne p [] e = cc
add_problem-ne p (q ∷ ps) e = cc

-- One round without a new problem counts the record.
pub record Noted (language : Text) (o : Option (List Text)) (r : ResultRecord)
    (before after : Outcome) : Type 0 where
  pub none_before : before.problems ≡ []
  pub one_more : after.passed + after.not_applicable ≡ suc (before.passed + before.not_applicable)
  pub inapplicable : List Text
  pub known : o ≡ some inapplicable
  pub counts :
      (r.status ≡ str (codes "passed"))
      ⊎ ((r.status ≡ str (codes "not_applicable")) × (stands_in language inapplicable ≡ true))

passed-Noted :
    (language : Text) (langs : List Text) (r : ResultRecord) (o : Outcome) (b : Bool)
    → r.status ≡ str (codes "passed")
    → (bump_deviations b (record o { passed = suc o.passed })).problems ≡ []
    → Noted language (some langs) r o (bump_deviations b (record o { passed = suc o.passed }))
passed-Noted language langs r o true s h = record {
  none_before = h;
  one_more = omega arith;
  inapplicable = langs;
  known = refl;
  counts = inl s;
}
passed-Noted language langs r o false s h = record {
  none_before = h;
  one_more = omega arith;
  inapplicable = langs;
  known = refl;
  counts = inl s;
}

note_record-Noted :
    (language : Text) (f : Option (List Text)) (r : ResultRecord) (o : Outcome)
    → (note_record language f r o).problems ≡ []
    → Noted language f r o (note_record language f r o)
unfolding note_record
note_record-Noted language none r o h = absurd (add_problem-ne (unknown_fixture r.id) o.problems h)
note_record-Noted language (some langs) r o h =
    elim (Bool-cases (is_status (codes "passed") r.status)) [
      | inl passed ↦ rw passed (
          passed-Noted language langs r o r.has_runtime_deviation (is_status-str _ r.status passed)
            (rw passed at h))
      | inr failed ↦ elim (Bool-cases (is_status (codes "not_applicable") r.status)) [
        | inl skipped ↦ elim (Bool-cases (stands_in language langs)) [
          | inl declared ↦
              rw (failed, skipped, declared)
                (record {
                  none_before = rw (failed, skipped, declared) at h;
                  one_more = omega arith;
                  inapplicable = langs;
                  known = refl;
                  counts = inr (is_status-str _ r.status skipped, declared);
                })
          | inr undeclared ↦ absurd (
              add_problem-ne (not_declared r.id) o.problems (rw (failed, skipped, undeclared) at h))
        ]
        | inr other ↦
            absurd
              (add_problem-ne (other_status r.id r.status) o.problems (rw (failed, other) at h))
      ]
    ]

-- A whole run of the loop without problems.
pub record AllNoted (language : Text) (fixtures : Fixtures) (rs : List ResultRecord)
    (before after : Outcome) : Type 0 where
  pub none_before : before.problems ≡ []
  pub all_more :
      after.passed + after.not_applicable ≡ length rs + (before.passed + before.not_applicable)
  pub all_counted : All (IsCounted language fixtures) rs

note_records-AllNoted :
    (language : Text) (fixtures : Fixtures) (rs : List ResultRecord) (o : Outcome)
    → (note_records language fixtures rs o).problems ≡ []
    → AllNoted language fixtures rs o (note_records language fixtures rs o)
unfolding note_records
note_records-AllNoted language fixtures [] o h = record {
  none_before = h;
  all_more = omega arith;
  all_counted = tt;
}
note_records-AllNoted language fixtures (r ∷ rs) o h =
    let next = note_record language (find_fixture r.id fixtures) r o in
    let later = note_records-AllNoted language fixtures rs next h in
    let now = note_record-Noted language (find_fixture r.id fixtures) r o later.none_before in
    record {
      none_before = now.none_before;
      all_more = omega (arith, later.all_more, now.one_more);
      all_counted = (
        record { inapplicable = now.inapplicable; is_known = now.known; counts = now.counts },
        later.all_counted,
      );
    }

add_if_some-none :
    (p : List Text → Problem) (ids : List Text) (o : Outcome)
    → (add_if_some p ids o).problems ≡ []
    → (ids ≡ []) × (o.problems ≡ []) × (add_if_some p ids o ≡ o)
add_if_some-none p [] o h = (refl, h, refl)
add_if_some-none p (id ∷ ids) o h = absurd (add_problem-ne (p (id ∷ ids)) o.problems h)

-- A runner whose records give no problem.
pub record IsComplete (language : Text) (fixtures : Fixtures) (records : List ResultRecord)
    (o : Outcome) : Type 0 where
  pub counted : All (IsCounted language fixtures) records
  pub once : All (λ (f : Text × List Text). count f.0 records ≡ 1) fixtures
  pub total : o.passed + o.not_applicable ≡ length records

counted_once :
    (fixtures : Fixtures) (records : List ResultRecord) (seen : Seen)
    → ((id : Text) → tally id seen ≡ count id records)
    → ((id : Text) → tally id seen ≤ 1)
    → ArePositive seen
    → All (λ (f : Text × List Text). is_seen f.0 seen ≡ true) fixtures
    → All (λ (f : Text × List Text). count f.0 records ≡ 1) fixtures
counted_once [] records seen t d p h = tt
counted_once (f ∷ fixtures) records seen t d p (h, hs) = (
  omega (arith, t f.0, d f.0, is_seen-tally f.0 seen p h),
  counted_once fixtures records seen t d p hs,
)

-- Where accounting ends without problems, it began without problems, and the records are complete.
pub account-IsComplete_from :
    (language : Text) (fixtures : Fixtures) (records : List ResultRecord) (o : Outcome)
    → o.passed + o.not_applicable ≡ 0
    → (account language fixtures records o).problems ≡ []
    → (o.problems ≡ []) × IsComplete language fixtures records (account language fixtures records o)
unfolding account
account-IsComplete_from language fixtures records o begins h =
    let seen = see records [] in
    let noted = note_records language fixtures records o in
    let twice = add_if_some reported_twice (duplicates seen) noted in
    let (none_left, h1, same1) = add_if_some-none no_result (missing fixtures seen) twice h in
    let (none_twice, h2, same2) = add_if_some-none reported_twice (duplicates seen) noted h1 in
    let all = note_records-AllNoted language fixtures records o h2 in
    (
      all.none_before,
      record {
        counted = all.all_counted;
        once =
            counted_once fixtures records seen (λ id. tally-see id records [] ∙ omega arith)
              (λ id. no_duplicates id seen none_twice) (see-ArePositive records [] tt)
              (none_missing fixtures seen none_left);
        total =
            ap (λ (o : Outcome). o.passed + o.not_applicable) (same1 ∙ same2)
            ∙ all.all_more
            ∙ omega (arith, begins);
      },
    )

-- Where accounting starts without problems and ends without problems, every record is of a fixture,
-- and is passed or is not applicable as the fixture declares; every fixture has exactly one record;
-- and the numbers of the two kinds add up to the number of records.
pub account-IsComplete :
    (language : Text) (fixtures : Fixtures) (records : List ResultRecord)
    → (account language fixtures records new_outcome).problems ≡ []
    → IsComplete language fixtures records (account language fixtures records new_outcome)
account-IsComplete language fixtures records h =
    (account-IsComplete_from language fixtures records new_outcome (omega arith) h).1
