-- ===== src/Verification/Evaluate.antt =====
-- src/evoci/verification/service.py: `evaluate_verification`.
pub mod Verdict
use evo_ci.Prelude.{
  ℕ, String, Option, none, some, List, [], ◌∷◌, Bool, true, false, not, ◌&&◌, ◌||◌, ◌==◌, ltb,
  if◌then◌else◌, Outcome, ok, raise, any, keep, first, length, is_empty, is_some, truthy, or_string,
  is_zero, map, ◌⧺◌, or_else,
}
use evo_ci.Tools.Paths.{codes, occurs}
use evo_ci.Domain.Commands.{
  VerificationCommandResult, VerificationResult, VerificationStatus, unavailable, infra_error,
  inconclusive, incomplete, failed, passed, IncompleteCause, OracleSource, harness, no_oracle,
  make_verification,
}

abbrev environment_markers : List String
environment_markers =
    "ERROR collecting" ∷ "ModuleNotFoundError" ∷ "ImportError" ∷ "InvalidVersion"
    ∷ "fixture not found" ∷ "recursive fixture" ∷ "INTERNALERROR" ∷ "no tests ran" ∷ []

abbrev pub output : VerificationCommandResult → String
output r = r.stdout ⧺ "\n" ⧺ r.stderr

unfoldable pub environment_failure_reason : VerificationCommandResult → Option String
environment_failure_reason r =
    if not r.executed
    then none
    else if r.timed_out
    then some "timeout"
    else first (λ m. occurs (codes m) (codes (output r))) environment_markers

-- `next((reason for reason in reasons if reason), None)`
unfoldable pub first_reason : List VerificationCommandResult → Option String
unfolding environment_failure_reason
first_reason [] = none
first_reason (r ∷ rs) =
    let rest = first_reason rs in
    elim (environment_failure_reason r) [ none ↦ rest | some reason ↦ some reason ]

abbrev pub is_executed : VerificationCommandResult → Bool
is_executed r = r.executed

abbrev pub is_failure : VerificationCommandResult → Bool
is_failure r = not (is_zero r.exit_code) || r.timed_out

abbrev pub marks_baseline : VerificationCommandResult → Bool
marks_baseline r = occurs (codes "BASELINE_ENVIRONMENT_ERROR=") (codes (output r))

abbrev pub same_reason : Option String → String → Bool
same_reason none reason = false
same_reason (some s) reason = s == reason

-- The arguments of `evaluate_verification` besides the results of the commands.
pub record Inputs : Type 0 where
  pub expected_count : ℕ
  pub has_harness_oracle : Bool
  pub incomplete_reason : Option String
  pub incomplete_cause : Option IncompleteCause
  pub baseline_environment_reason : Option String
  -- `f"executed {len(executed)} of {expected_count} required checks"`
  pub count_message : String

abbrev verdict : List VerificationCommandResult → Inputs → VerificationStatus → VerificationResult
verdict commands i status = record {
  passed = false;
  status = status;
  commands = commands;
  expected_count = i.expected_count;
  executed_count = length (keep is_executed commands);
  incomplete_reason = none;
  incomplete_cause = none;
  oracle_source = harness;
}

abbrev no_oracle_message : String
no_oracle_message = "no reliable original verification; agent checks cannot substitute"

-- Some executed command failed.
unfoldable pub failed_verdict :
    List VerificationCommandResult → List VerificationCommandResult → Inputs → VerificationResult
unfolding first_reason
failed_verdict commands failures i = elim (first_reason failures) [
  | none ↦ verdict commands i failed
  | some reason ↦
      let same = any marks_baseline failures || same_reason i.baseline_environment_reason reason in
      record (verdict commands i (if same then inconclusive else infra_error)) {
        incomplete_reason = some reason;
      }
]

-- The arguments of the `VerificationResult` that is built.
unfoldable pub chosen_verdict : List VerificationCommandResult → Inputs → VerificationResult
unfolding failed_verdict
chosen_verdict commands i =
    let executed = keep is_executed commands in
    let failures = keep is_failure executed in
    if not i.has_harness_oracle
    then record (verdict commands i unavailable) {
      incomplete_reason = some (or_string i.incomplete_reason no_oracle_message);
      oracle_source = no_oracle;
    }
    else if not (is_empty failures)
    then failed_verdict commands failures i
    else if is_some (truthy i.incomplete_reason) || ltb (length executed) i.expected_count
    then record (verdict commands i incomplete) {
      incomplete_reason = some (or_string i.incomplete_reason i.count_message);
      incomplete_cause = i.incomplete_cause;
    }
    else record (verdict commands i passed) { passed = true }

unfoldable pub evaluate_verification :
    List VerificationCommandResult → Inputs → Outcome VerificationResult
evaluate_verification commands i = make_verification (chosen_verdict commands i)
