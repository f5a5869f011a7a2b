-- ===== src/Verification/Evaluate/Verdict.antt =====
-- When src/evoci/verification/service.py says that a candidate passed.
use evo_ci.Prelude.{
  ◌≡◌, refl, List, [], ◌∷◌, Bool, false, not, ◌&&◌, leb, ok, arith, any, keep, count, length,
  is_some, is_empty, truthy, ◌∙◌, sym,
}
use evo_ci.Domain.Commands.{
  VerificationCommandResult, VerificationResult, is_passed, normalize_completeness,
  make_verification,
}
use evo_ci.Verification.Evaluate.{
  Inputs, is_executed, is_failure, failed_verdict, chosen_verdict, evaluate_verification,
}

abbrev pub is_executed_failure : VerificationCommandResult → Bool
is_executed_failure r = r.executed && is_failure r

-- A harness check is there, nothing that ran failed, nothing stopped the run, and enough ran.
abbrev pub passes : List VerificationCommandResult → Inputs → Bool
passes commands i =
    i.has_harness_oracle
    && (not (any is_executed_failure commands)
        && (not (is_some (truthy i.incomplete_reason))
            && leb i.expected_count (count is_executed commands)))

failures-empty :
    (rs : List VerificationCommandResult)
    → is_empty (keep is_failure (keep is_executed rs)) ≡ not (any is_executed_failure rs)
failures-empty [] = refl
failures-empty (r ∷ rs) = ground (arith, failures-empty rs)

length-executed :
    (rs : List VerificationCommandResult) → length (keep is_executed rs) ≡ count is_executed rs
length-executed [] = refl
length-executed (r ∷ rs) = ground (arith, length-executed rs)

failed_verdict-passed :
    (cs fs : List VerificationCommandResult) (i : Inputs)
    → ((failed_verdict cs fs i).passed ≡ false)
      × (is_passed (failed_verdict cs fs i).status ≡ false)
unfolding failed_verdict
failed_verdict-passed cs fs i = ground arith

chosen-passed :
    (cs : List VerificationCommandResult) (i : Inputs)
    → ((chosen_verdict cs i).passed ≡ passes cs i)
      × (is_passed (chosen_verdict cs i).status ≡ passes cs i)
unfolding chosen_verdict
chosen-passed cs i = ground (
  arith,
  failures-empty cs,
  length-executed cs,
  failed_verdict-passed cs (keep is_failure (keep is_executed cs)) i,
)

pub make_verification-contract :
    (v r : VerificationResult)
    → make_verification v ≡ ok r
    → (r.passed ≡ v.passed) × (is_passed r.status ≡ r.passed)
unfolding make_verification
make_verification-contract v r h = ground arith

make_verification-ok :
    (v : VerificationResult)
    → is_passed v.status ≡ v.passed
    → (make_verification v ≡ ok (normalize_completeness v))
      × (is_passed (normalize_completeness v).status ≡ v.passed)
unfolding make_verification
make_verification-ok v h = (ground arith, ground arith)

normalize-passed : (v : VerificationResult) → (normalize_completeness v).passed ≡ v.passed
unfolding normalize_completeness
normalize-passed v = refl

-- The verdict is always built, and never refused by the contract of its class. It says "passed" exactly
-- if there is a harness check, no executed command failed, no reason stopped the run, and as many
-- commands were executed as expected; its status is then "passed" too, and else another.
pub evaluate_verification_exact :
    (cs : List VerificationCommandResult) (i : Inputs)
    → (v : VerificationResult) × (evaluate_verification cs i ≡ ok v)
      × (v.passed ≡ passes cs i)
      × (is_passed v.status ≡ passes cs i)
unfolding evaluate_verification
evaluate_verification_exact cs i =
    let v = chosen_verdict cs i in
    let (told, status) = chosen-passed cs i in
    let (built, same) = make_verification-ok v (status ∙ sym told) in
    (normalize_completeness v, built, normalize-passed v ∙ told, same ∙ told)
