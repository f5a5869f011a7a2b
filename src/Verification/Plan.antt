-- ===== src/Verification/Plan.antt =====
-- src/evoci/verification/service.py: `build_verification_plan`.
pub mod Order
use evo_ci.Prelude.{
  String, List, [], ◌∷◌, ◌++◌, Bool, true, false, ◌&&◌, ◌||◌, ◌==◌, if◌then◌else◌, Outcome, ok,
  raise, ◌>>=◌, any,
}
use evo_ci.Domain.Commands.{
  VerificationCommandSpec, RawCommand, parse_verification_command, CommandSource, mandatory,
  supplementary,
}

pub record PlannedCommand : Type 0 where
  pub command : List String
  pub source : CommandSource
  pub cwd : String

abbrev pub same_words : List String → List String → Bool
same_words [] [] = true
same_words [] (b ∷ bs) = false
same_words (a ∷ as') [] = false
same_words (a ∷ as') (b ∷ bs) = a == b && same_words as' bs

-- the keys that the plan tells commands apart by
abbrev pub same_key : PlannedCommand → PlannedCommand → Bool
same_key a b = same_words a.command b.command && a.cwd == b.cwd

abbrev pub is_mandatory : PlannedCommand → Bool
is_mandatory p = elim p.source [ mandatory ↦ true | supplementary ↦ false ]

abbrev pub from_spec : CommandSource → VerificationCommandSpec → PlannedCommand
from_spec source spec = record { command = spec.argv; source = source; cwd = spec.cwd }

-- One loop over the commands of a source; `planned` holds a command for each key of `seen`.
unfoldable pub add_commands :
    CommandSource → List PlannedCommand → List RawCommand → Outcome (List PlannedCommand)
add_commands source planned [] = ok planned
add_commands source planned (raw ∷ rest) = do
  spec ← parse_verification_command raw
  let p = from_spec source spec
  add_commands source (if any (same_key p) planned then planned else planned ++ p ∷ []) rest

unfoldable pub build_verification_plan :
    List RawCommand → List RawCommand → Outcome (List PlannedCommand)
unfolding add_commands
build_verification_plan oracles extra = do
  planned ← add_commands mandatory [] oracles
  add_commands supplementary planned extra
