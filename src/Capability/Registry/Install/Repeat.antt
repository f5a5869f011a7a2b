-- ===== src/Capability/Registry/Install/Repeat.antt =====
-- A key of an operation of src/evoci/capability/registry.py names one skill.
use evo_ci.Prelude.Dict
use evo_ci.Prelude.{◌≡◌, String, some, ok, raise}
use evo_ci.Capability.Models.{RegisteredSkill}
use evo_ci.Capability.Registry.{Registry, Call, prior}
use evo_ci.Capability.Registry.Moves.{Moves}

-- Where the call returned a skill, the key leads to that skill from then on.
abbrev pub Keeps : String → Call RegisteredSkill → Type 0
Keeps k (r', ok skill) = prior r' (some k) ≡ some (ok skill)
Keeps k (r', raise e) = Unit
