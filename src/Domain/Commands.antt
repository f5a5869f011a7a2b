-- ===== src/Domain/Commands.antt =====
-- src/evoci/domain/models.py: verification commands and their results.
use evo_ci.Prelude.{
  ℕ, String, Option, none, some, List, [], ◌∷◌, Bool, true, false, not, ◌&&◌, ◌||◌, ◌==◌, ltb, eqb,
  if◌then◌else◌, Outcome, ok, raise, ◌>>=◌, ◌>>◌, raise_if, value_error, any, length, count,
  is_empty, ℤ, truthy, is_some,
}
use Prim.Native.Char.{code}
use evo_ci.Tools.Paths.{strip, parts, join, is_absolute}

pub record VerificationCommandSpec : Type 0 where
  pub argv : List String
  pub cwd : String

-- `s.replace("\\", "/")`
abbrev to_slashes : String → String
to_slashes String.[] = String.[]
to_slashes (String.◌∷◌ c s) = String.◌∷◌ (if eqb (code c) 92 then "/" else c) (to_slashes s)

abbrev stripped_cwd : Option String → String
stripped_cwd none = "."
stripped_cwd (some cwd) = let raw = strip cwd in if raw == "" then "." else raw

unfoldable pub normalize_repo_cwd : Option String → Outcome String
unfolding strip
normalize_repo_cwd cwd =
    let raw = stripped_cwd cwd in
    let ps = parts (to_slashes raw) in
    if is_absolute raw
    then raise (value_error "verification cwd must be workspace-relative")
    else if any (λ p. p == "..") ps
    then raise (value_error "verification cwd escapes workspace")
    else if is_empty ps
    then ok "."
    else ok (join ps)

-- What `VerificationCommandSpec(argv=argv, cwd=cwd)` validates.
unfoldable pub make_spec : List String → Option String → Outcome VerificationCommandSpec
unfolding strip normalize_repo_cwd
make_spec argv cwd = do
  raise_if (is_empty argv || ltb 32 (length argv)) (value_error "argv length")
  raise_if (any (λ item. strip item == "") argv)
      (value_error "verification argv items must be non-empty")
  where_to ← normalize_repo_cwd cwd
  ok (record { argv = argv; cwd = where_to })

-- The values that `parse_verification_command` tells apart.
pub data RawCommand : Type 0 where
  spec : VerificationCommandSpec → RawCommand
  mapping : List String → Option String → RawCommand
  words : List String → RawCommand
  other : RawCommand

unfoldable pub parse_verification_command : RawCommand → Outcome VerificationCommandSpec
unfolding make_spec
parse_verification_command (spec s) = ok s
parse_verification_command (mapping argv cwd) = make_spec argv cwd
parse_verification_command (words []) = raise (value_error "invalid verification command")
parse_verification_command (words (w ∷ ws)) = make_spec (w ∷ ws) (some ".")
parse_verification_command other = raise (value_error "invalid verification command")

pub data CommandSource : Type 0 where
  mandatory supplementary : CommandSource

pub record VerificationCommandResult : Type 0 where
  pub command : List String
  pub exit_code : ℤ
  pub stdout : String
  pub stderr : String
  pub timed_out : Bool
  pub source : CommandSource
  pub executed : Bool
  pub skip_reason : Option String
  pub cwd : String

pub data VerificationStatus : Type 0 where
  passed failed incomplete unavailable infra_error inconclusive : VerificationStatus

pub data IncompleteCause : Type 0 where
  budget execution : IncompleteCause

pub data OracleSource : Type 0 where
  harness no_oracle : OracleSource

pub record VerificationResult : Type 0 where
  pub passed : Bool
  pub status : VerificationStatus
  pub commands : List VerificationCommandResult
  pub expected_count : ℕ
  pub executed_count : ℕ
  pub incomplete_reason : Option String
  pub incomplete_cause : Option IncompleteCause
  pub oracle_source : OracleSource

abbrev pub is_passed : VerificationStatus → Bool
is_passed VerificationStatus.passed = true
is_passed _ = false

abbrev pub is_failed : VerificationStatus → Bool
is_failed VerificationStatus.failed = true
is_failed _ = false

-- `normalize_completeness`, before validation
unfoldable pub normalize_completeness : VerificationResult → VerificationResult
normalize_completeness v = record v {
  status =
      if v.passed && (is_failed v.status && not (is_some (truthy v.incomplete_reason)))
      then VerificationStatus.passed
      else v.status;
  expected_count = if eqb v.expected_count 0 then length v.commands else v.expected_count;
  executed_count =
      if eqb v.executed_count 0 then count (λ c. c.executed) v.commands else v.executed_count;
}

-- `verify_success_contract`, after it
unfoldable pub verify_success_contract : VerificationResult → Outcome VerificationResult
verify_success_contract v =
    if v.passed && not (is_passed v.status)
    then raise (value_error "passed=true is only valid for verified success")
    else if is_passed v.status && not v.passed
    then raise (value_error "status=passed requires passed=true")
    else ok v

unfoldable pub make_verification : VerificationResult → Outcome VerificationResult
unfolding normalize_completeness verify_success_contract
make_verification v = verify_success_contract (normalize_completeness v)
