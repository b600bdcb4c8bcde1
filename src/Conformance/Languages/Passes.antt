-- ===== src/Conformance/Languages/Passes.antt =====
-- When a language passes scripts/conformance.py.
use mathlib.Core.Path.{subst}
use cekat_event_sdk.Base.{
  ℕ, ◌+◌, ℤ, pos, negsuc, ◌≡◌, refl, ap, sym, ◌∙◌, Text, Bool, true, false, Option, none, some,
  List, [], ◌==◌, ==_iff, Bool-cases, inl, inr,
}
use cekat_event_sdk.Protocol.{Loaded}
use cekat_event_sdk.Verdicts.{accept, >>=-eq-accept, accept_injective}
use cekat_event_sdk.Conformance.{
  ResultRecord, Fixtures, Problem, runner_exited, mock_exited, mock_stopped, failure, Outcome,
  new_outcome, account,
}
use cekat_event_sdk.Conformance.Accounts.{add_problem-ne, IsComplete, account-IsComplete_from}
use cekat_event_sdk.Conformance.Records.{parse_records}
use cekat_event_sdk.Conformance.Languages.{
  Processes, is_zero, note_status, note_mock, warn_left, note_stop, run_ready, run_tried,
  run_language,
}

note_status-none :
    (problem : ℤ → Problem) (status : ℤ) (o : Outcome)
    → (note_status problem status o).problems ≡ []
    → (status ≡ pos 0) × (o.problems ≡ []) × (note_status problem status o ≡ o)
unfolding note_status
note_status-none problem (pos n) o h = elim (Bool-cases (n == 0)) [
  | inl zero ↦ (ap pos ((==_iff n 0).0 zero), rw zero at h, rw zero)
  | inr other ↦ absurd (add_problem-ne (problem (pos n)) o.problems (rw other at h))
]
note_status-none problem (negsuc n) o h = absurd (add_problem-ne (problem (negsuc n)) o.problems h)

note_mock-none :
    (status : Option ℤ) (o : Outcome)
    → (note_mock status o).problems ≡ []
    → (status ≡ none) × (o.problems ≡ []) × (note_mock status o ≡ o)
unfolding note_mock
note_mock-none none o h = (refl, h, refl)
note_mock-none (some status) o h = absurd (add_problem-ne (mock_exited status) o.problems h)

-- A mock server that is still running at the end exits with status 0 when it is stopped.
abbrev pub StopsCleanly : (mock_at_end : Option ℤ) (stop_status : ℤ) → Type 0
StopsCleanly mock_at_end stop_status = mock_at_end ≡ none → stop_status ≡ pos 0

note_stop-none :
    (mock_at_end : Option ℤ) (stop_status : ℤ) (o : Outcome)
    → (note_stop mock_at_end stop_status o).problems ≡ []
    → StopsCleanly mock_at_end stop_status
      × (o.problems ≡ [])
      × (note_stop mock_at_end stop_status o ≡ o)
unfolding note_stop
note_stop-none none stop_status o h =
    let (succeeds, clean, same) = note_status-none mock_stopped stop_status o h in
    ((λ _. succeeds), clean, same)
note_stop-none (some status) stop_status o h = ((λ e. cc), h, refl)

-- How many records an outcome counts, which the statuses leave as it is.
abbrev counted : Outcome → ℕ
counted o = o.passed + o.not_applicable

counted-note_status :
    (problem : ℤ → Problem) (status : ℤ) (o : Outcome)
    → counted (note_status problem status o) ≡ counted o
unfolding note_status
counted-note_status problem status o = elim (Bool-cases (is_zero status)) [
  | inl e ↦ rw e refl
  | inr e ↦ rw e refl
]

counted-note_mock : (status : Option ℤ) (o : Outcome) → counted (note_mock status o) ≡ counted o
unfolding note_mock
counted-note_mock none o = refl
counted-note_mock (some status) o = refl

counted-warn_left : (left_running : Bool) → counted (warn_left left_running new_outcome) ≡ 0
unfolding warn_left
counted-warn_left true = refl
counted-warn_left false = refl

-- A language that passes.
pub record Passes (raw_decode : Text → Loaded) (language : Text) (fixtures : Fixtures)
    (p : Processes) (o : Outcome) : Type 0 where
  pub ready : p.failed ≡ none
  pub runner_succeeds : p.runner_status ≡ pos 0
  pub mock_stays_up : p.mock_after ≡ none
  pub mock_stops : StopsCleanly p.mock_at_end p.stop_status
  pub records : List ResultRecord
  pub are_parsed : parse_records raw_decode p.log_lines ≡ accept records
  pub complete : IsComplete language fixtures records o

module _ (raw_decode : Text → Loaded) (language : Text) (fixtures : Fixtures) where
  run_ready-Passes :
      (p : Processes) (o : Outcome)
      → p.failed ≡ none
      → StopsCleanly p.mock_at_end p.stop_status
      → run_ready raw_decode language fixtures p ≡ accept o
      → o.problems ≡ []
      → Passes raw_decode language fixtures p o
  unfolding run_ready
  run_ready-Passes p o ready stops h clean =
      let (records, parsed, h1) = >>=-eq-accept (parse_records raw_decode p.log_lines) _ h in
      let warned = warn_left p.left_running new_outcome in
      let exited = note_status runner_exited p.runner_status warned in
      let started = note_mock p.mock_after exited in
      let begins : counted started ≡ 0 =
        counted-note_mock p.mock_after exited
        ∙ counted-note_status runner_exited p.runner_status warned
        ∙ counted-warn_left p.left_running in
      let same : account language fixtures records started ≡ o = accept_injective h1 in
      let (clean_before, complete) =
        account-IsComplete_from language fixtures records started begins
          (ap (λ (x : Outcome). x.problems) same ∙ clean) in
      let (mock_stays_up, exited_clean, _) = note_mock-none p.mock_after exited clean_before in
      let (runner_succeeds, _, _) =
        note_status-none runner_exited p.runner_status warned exited_clean in
      record {
        ready = ready;
        runner_succeeds = runner_succeeds;
        mock_stays_up = mock_stays_up;
        mock_stops = stops;
        records = records;
        are_parsed = parsed;
        complete = subst (IsComplete language fixtures records) same complete;
      }

  run_tried-Passes :
      (failed : Option Text) (p : Processes) (o : Outcome)
      → p.failed ≡ failed
      → StopsCleanly p.mock_at_end p.stop_status
      → run_tried raw_decode language fixtures failed p ≡ accept o
      → o.problems ≡ []
      → Passes raw_decode language fixtures p o
  unfolding run_tried
  run_tried-Passes (some message) p o ready stops h clean = absurd (
      add_problem-ne (failure message) []
        (ap (λ (x : Outcome). x.problems) (accept_injective h) ∙ clean))
  run_tried-Passes none p o ready stops h clean = run_ready-Passes p o ready stops h clean

-- A language passes, which is that its outcome has no problem, only when the mock server becomes
-- ready, the runner exits with 0, the mock server is up when it is asked for right behind the
-- runner, it exits with 0 when it is stopped if it is still up then, and the records in the runner's
-- output account for every fixture exactly once, each passed or not applicable as the fixture
-- declares. Of a mock server that ends by itself in between, nothing is asked.
pub run_language-Passes :
    (raw_decode : Text → Loaded) (language : Text) (fixtures : Fixtures) (p : Processes)
    (o : Outcome)
    → run_language raw_decode language fixtures p ≡ accept o
    → o.problems ≡ []
    → Passes raw_decode language fixtures p o
unfolding run_language
run_language-Passes raw_decode language fixtures p o h clean =
    let (tried, tried_ok, h1) =
      >>=-eq-accept (run_tried raw_decode language fixtures p.failed p) _ h in
    let same : note_stop p.mock_at_end p.stop_status tried ≡ o = accept_injective h1 in
    let (stops, tried_clean, kept) =
      note_stop-none p.mock_at_end p.stop_status tried
        (ap (λ (x : Outcome). x.problems) same ∙ clean) in
    subst (Passes raw_decode language fixtures p) (sym kept ∙ same) (
      run_tried-Passes raw_decode language fixtures p.failed p tried refl stops tried_ok
        tried_clean)
