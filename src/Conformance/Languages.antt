-- ===== src/Conformance/Languages.antt =====
-- run_language of scripts/conformance.py: one language, over what its processes do.
pub mod Passes
use cekat_event_sdk.Base.{
  ℕ, zero, suc, ℤ, pos, negsuc, Text, Bool, true, false, Option, none, some, List, [], ◌∷◌, ◌++◌,
  ◌==◌, if◌then◌else◌, codes,
}
use cekat_event_sdk.Protocol.{Loaded}
use cekat_event_sdk.Verdicts.{Verdict, crash, accept, ◌>>=◌}
use cekat_event_sdk.Conformance.{
  Fixtures, Problem, runner_exited, mock_exited, mock_stopped, failure, Outcome, new_outcome,
  add_problem, account,
}
use cekat_event_sdk.Conformance.Records.{parse_records}

-- What the mock server and the runner do: a Failure before the mock server is ready, the runner's
-- output and status, whether it leaves processes running, the status of the mock server when it is
-- asked for after the runner and again at the end, and when it is stopped.
pub record Processes : Type 0 where
  pub failed : Option Text
  pub log_lines : List Text
  pub left_running : Bool
  pub runner_status : ℤ
  pub mock_after : Option ℤ
  pub mock_at_end : Option ℤ
  pub stop_status : ℤ

abbrev is_zero : ℤ → Bool
is_zero (pos n) = n == 0
is_zero (negsuc n) = false

unfoldable pub note_status : (ℤ → Problem) → ℤ → Outcome → Outcome
note_status problem status o = if is_zero status then o else add_problem (problem status) o

unfoldable pub note_mock : Option ℤ → Outcome → Outcome
note_mock none o = o
note_mock (some status) o = add_problem (mock_exited status) o

unfoldable pub warn_left : Bool → Outcome → Outcome
warn_left left_running o =
    if left_running
    then record o {
      warnings = o.warnings ++ codes "runner left processes running; they were stopped" ∷ [];
    }
    else o

-- The `finally` block: the mock server is stopped, and its status counts if it was still running.
unfoldable pub note_stop : Option ℤ → ℤ → Outcome → Outcome
unfolding note_status
note_stop none stop_status o = note_status mock_stopped stop_status o
note_stop (some status) stop_status o = o

module _ (raw_decode : Text → Loaded) (language : Text) (fixtures : Fixtures) where
  -- The `try` block, behind the wait for the mock server.
  unfoldable pub run_ready : Processes → Verdict ⊥ Outcome
  unfolding warn_left note_status note_mock account parse_records
  run_ready p = do
    records ← parse_records raw_decode p.log_lines
    accept (
        account language fixtures records (
          note_mock p.mock_after
            (note_status runner_exited p.runner_status (warn_left p.left_running new_outcome))))

  unfoldable pub run_tried : Option Text → Processes → Verdict ⊥ Outcome
  unfolding run_ready
  run_tried (some message) p = accept (add_problem (failure message) new_outcome)
  run_tried none p = run_ready p

  unfoldable pub run_language : Processes → Verdict ⊥ Outcome
  unfolding run_tried note_stop
  run_language p = do
    outcome ← run_tried p.failed p
    accept (note_stop p.mock_at_end p.stop_status outcome)
