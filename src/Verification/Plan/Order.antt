-- ===== src/Verification/Plan/Order.antt =====
-- src/evoci/verification/service.py, `build_verification_plan`: the order of a plan, and its keys.
use evo_ci.Prelude.{
  ◌≡◌, refl, String, List, [], ◌∷◌, ◌++◌, Bool, true, false, not, ok, any, all, arith, any-append,
  ap, sym, ◌∙◌, Bool-cases, inl, inr, >>=-ok, if◌then◌else◌, eq_refl, All,
}
use mathlib.Core.Path.{subst}
use mathlib.Core.List.{append-nil, append_assoc}
use evo_ci.Domain.Commands.{
  VerificationCommandSpec, RawCommand, CommandSource, mandatory, supplementary,
  parse_verification_command,
}
use evo_ci.Verification.Plan.{
  PlannedCommand, same_key, same_words, is_mandatory, add_commands, build_verification_plan,
  from_spec,
}

-- No two commands of the plan have the same words and the same directory.
abbrev pub HasDistinctKeys : List PlannedCommand → Type 0
HasDistinctKeys [] = Unit
HasDistinctKeys (p ∷ ps) = (any (λ q. same_key q p) ps ≡ false) × HasDistinctKeys ps

abbrev pub is_supplementary : PlannedCommand → Bool
is_supplementary p = not (is_mandatory p)

distinct_append :
    (ps : List PlannedCommand) (p : PlannedCommand)
    → HasDistinctKeys ps
    → any (same_key p) ps ≡ false
    → HasDistinctKeys (ps ++ p ∷ [])
distinct_append [] p h fresh = (refl, tt)
distinct_append (q ∷ qs) p h fresh = (
  ground (arith, any-append (λ r. same_key r q) qs (p ∷ []), h.0, fresh),
  distinct_append qs p h.1 (ground (arith, fresh)),
)

same_words_refl : (ws : List String) → same_words ws ws ≡ true
same_words_refl [] = refl
same_words_refl (w ∷ ws) = ground (arith, eq_refl w, same_words_refl ws)

same_key_refl : (p : PlannedCommand) → same_key p p ≡ true
same_key_refl p = ground (arith, same_words_refl p.command, eq_refl p.cwd)

abbrev pub comes_from : CommandSource → PlannedCommand → Bool
comes_from mandatory p = is_mandatory p
comes_from supplementary p = is_supplementary p

comes_from_spec :
    (source : CommandSource) (spec : VerificationCommandSpec)
    → comes_from source (from_spec source spec) ≡ true
comes_from_spec mandatory spec = refl
comes_from_spec supplementary spec = refl

-- The command parses, and the plan has one of its key.
abbrev pub IsPlanned : CommandSource → List PlannedCommand → RawCommand → Type 0
IsPlanned source out raw =
    (spec : VerificationCommandSpec) × (parse_verification_command raw ≡ ok spec)
    × (any (same_key (from_spec source spec)) out ≡ true)

-- Commands of one source join a plan at its end, and keep its keys apart.
record Joins (source : CommandSource) (ps out : List PlannedCommand) : Type 0 where
  distinct : HasDistinctKeys ps → HasDistinctKeys out
  added : List PlannedCommand
  at_end : out ≡ ps ++ added
  sources : all (comes_from source) added ≡ true

join_none : (source : CommandSource) (ps : List PlannedCommand) → Joins source ps ps
join_none source ps = record {
  distinct = λ d. d;
  added = [];
  at_end = sym (append-nil ps);
  sources = refl;
}

all_append :
    (f : PlannedCommand → Bool) (xs ys : List PlannedCommand)
    → all f xs ≡ true
    → all f ys ≡ true
    → all f (xs ++ ys) ≡ true
all_append f [] ys hx hy = hy
all_append f (x ∷ xs) ys hx hy = ground (arith, hx, all_append f xs ys (ground (arith, hx)) hy)

join_both :
    {source : CommandSource} {ps qs out : List PlannedCommand}
    → Joins source ps qs
    → Joins source qs out
    → Joins source ps out
join_both {source} {ps} a b = record {
  distinct = λ d. b.distinct (a.distinct d);
  added = a.added ++ b.added;
  at_end = b.at_end ∙ ap (λ x. x ++ b.added) a.at_end ∙ append_assoc ps a.added b.added;
  sources = all_append (comes_from source) a.added b.added a.sources b.sources;
}

-- One command, which joins unless the plan has its key.
abbrev grown : List PlannedCommand → PlannedCommand → List PlannedCommand
grown ps p = if any (same_key p) ps then ps else ps ++ p ∷ []

grown_lem :
    (source : CommandSource) (ps : List PlannedCommand) (p : PlannedCommand)
    → comes_from source p ≡ true
    → Joins source ps (grown ps p) × (any (same_key p) (grown ps p) ≡ true)
grown_lem source ps p from = elim (Bool-cases (any (same_key p) ps)) [
  | inl there ↦ rw there (join_none source ps, there)
  | inr fresh ↦ rw fresh (
    record {
      distinct = λ d. distinct_append ps p d fresh;
      added = p ∷ [];
      at_end = refl;
      sources = ground (arith, from);
    },
    ground (arith, any-append (same_key p) ps (p ∷ []), same_key_refl p),
  )
]

still_planned :
    (f : PlannedCommand → Bool) {source : CommandSource} {ps out : List PlannedCommand}
    → Joins source ps out
    → any f ps ≡ true
    → any f out ≡ true
still_planned f {ps = ps} j h = rw j.at_end (ground (arith, any-append f ps j.added, h))

add_commands_lem :
    (source : CommandSource) (ps : List PlannedCommand) (raws : List RawCommand)
    (out : List PlannedCommand)
    → add_commands source ps raws ≡ ok out
    → Joins source ps out × All (IsPlanned source out) raws
unfolding add_commands
add_commands_lem source ps [] out h =
    let same : ps ≡ out = cc h in (subst (Joins source ps) same (join_none source ps), tt)
add_commands_lem source ps (raw ∷ raws) out h =
    let (spec, rest, parsed) = >>=-ok (parse_verification_command raw) _ h in
    let (one, there) = grown_lem source ps (from_spec source spec) (comes_from_spec source spec) in
    let (joins, others) =
      add_commands_lem source (grown ps (from_spec source spec)) raws out rest in
    (
      join_both one joins,
      ((spec, parsed, still_planned (same_key (from_spec source spec)) joins there), others),
    )

-- A plan that is built holds the harness's commands first and the agent's after them, no two of them with
-- the same words and directory; every command of the harness is in it, whatever the agent asks for, and so
-- is every command of the agent, or one of the same key.
pub build_verification_plan_lem :
    (oracles extra : List RawCommand) (out : List PlannedCommand)
    → build_verification_plan oracles extra ≡ ok out
    → HasDistinctKeys out
      × ((harness agent : List PlannedCommand) × (out ≡ harness ++ agent)
          × (all is_mandatory harness ≡ true)
          × (all is_supplementary agent ≡ true)
          × All (IsPlanned mandatory harness) oracles
          × All (IsPlanned supplementary out) extra)
unfolding build_verification_plan
build_verification_plan_lem oracles extra out h =
    let (harness, rest, first) = >>=-ok (add_commands mandatory [] oracles) _ h in
    let (a, planned) = add_commands_lem mandatory [] oracles harness first in
    let (b, asked) = add_commands_lem supplementary harness extra out rest in
    (
      b.distinct (a.distinct tt),
      (
        harness,
        b.added,
        b.at_end,
        subst (λ x. all is_mandatory x ≡ true) (sym a.at_end) a.sources,
        b.sources,
        planned,
        asked,
      ),
    )
