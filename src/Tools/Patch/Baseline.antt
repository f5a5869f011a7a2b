-- ===== src/Tools/Patch/Baseline.antt =====
-- src/evoci/tools/patch.py, `snapshot_edit_baseline`: a baseline holds the texts of the files it names.
use mathlib.Core.Path.{subst}
use evo_ci.Prelude.{
  ◌≡◌, refl, String, some, List, [], ◌∷◌, true, false, not, ◌&&◌, ◌==◌, eq_iff, eq_refl, ap, sym,
  ◌∙◌, ok, Bool-cases, inl, inr, All, or_else, >>=-ok, ok_inj, raise_if,
}
use evo_ci.Prelude.Dict
use evo_ci.Prelude.Dict.{lookup-insert}
use evo_ci.Tools.Paths.{resolve}
use evo_ci.Tools.Filesystem.{Place, Files, exists, is_file}
use evo_ci.Tools.Filesystem.Views.{texts, same_place-eq}
use evo_ci.Tools.Patch.{FileEdit, FileBaseline, snapshot_one, snapshot_onto, snapshot_edit_baseline}
use evo_ci.Tools.Patch.Restore.{no_baseline}
use evo_ci.Tools.Patch.Restore.Returns.{leads}
use evo_ci.Tools.Patch.Restore.Attempt.{content_for}

lookup_hit :
    (k path : String) (b : FileBaseline) (d : List (String × FileBaseline))
    → (k == path) ≡ true
    → Dict.lookup path (Dict.insert k b d) ≡ some b
lookup_hit k path b d h = lookup-insert k path b d ∙ rw h refl

lookup_miss :
    (k path : String) (b : FileBaseline) (d : List (String × FileBaseline))
    → (k == path) ≡ false
    → Dict.lookup path (Dict.insert k b d) ≡ Dict.lookup path d
lookup_miss k path b d h = lookup-insert k path b d ∙ rw h refl

module _ (digest : String → String) (root : List String) (fs : Files) (p : Place) where
  -- The baseline has the text of the path's file.
  abbrev pub IsGood : List (String × FileBaseline) → String → Type 0
  IsGood d path = leads root path p ≡ true → content_for root d path ≡ texts fs p

  snapshot_one-content :
      (e : FileEdit) (b : FileBaseline)
      → snapshot_one digest root fs e ≡ ok b
      → leads root e.path p ≡ true
      → b.content ≡ texts fs p
  unfolding snapshot_one
  snapshot_one-content e b h led =
      let (at, inner, to) = >>=-ok (resolve root e.path) _ h in
      let (_, made, _) = >>=-ok (raise_if (exists (fs at) && not (is_file (fs at))) _) _ inner in
      let here : at ≡ p = same_place-eq at p (rw to at led) in
      ap (λ r. r.content) (sym (ok_inj _ _ made)) ∙ ap (texts fs) here

  insert-IsGood :
      (d : List (String × FileBaseline)) (e : FileEdit) (b : FileBaseline) (path : String)
      → snapshot_one digest root fs e ≡ ok b
      → IsGood d path
      → IsGood (Dict.insert e.path b d) path
  insert-IsGood d e b path h good led = elim (Bool-cases (e.path == path)) [
    | inl hit ↦
        let same : e.path ≡ path = (eq_iff e.path path).0 hit in
        ap (λ o. (or_else o (no_baseline root)).content) (lookup_hit e.path path b d hit)
        ∙ snapshot_one-content e b h (ap (λ k. leads root k p) same ∙ led)
    | inr miss ↦
        ap (λ o. (or_else o (no_baseline root)).content) (lookup_miss e.path path b d miss)
        ∙ good led
  ]

  first_insert-IsGood :
      (d : List (String × FileBaseline)) (e : FileEdit) (b : FileBaseline)
      → snapshot_one digest root fs e ≡ ok b
      → IsGood (Dict.insert e.path b d) e.path
  first_insert-IsGood d e b h led =
      ap (λ o. (or_else o (no_baseline root)).content)
        (lookup_hit e.path e.path b d (eq_refl e.path))
      ∙ snapshot_one-content e b h led

  snapshot_onto-IsGood :
      (es : List FileEdit) (d out : List (String × FileBaseline)) (path : String)
      → snapshot_onto digest root fs es d ≡ ok out
      → IsGood d path
      → IsGood out path
  unfolding snapshot_onto
  snapshot_onto-IsGood [] d out path h good = subst (λ x. IsGood x path) (ok_inj _ _ h) good
  snapshot_onto-IsGood (e ∷ es) d out path h good =
      let (b, rest, one) = >>=-ok (snapshot_one digest root fs e) _ h in
      snapshot_onto-IsGood es (Dict.insert e.path b d) out path rest
        (insert-IsGood d e b path one good)

  snapshot_onto-All :
      (es : List FileEdit) (d out : List (String × FileBaseline))
      → snapshot_onto digest root fs es d ≡ ok out
      → All (λ e. IsGood out e.path) es
  unfolding snapshot_onto
  snapshot_onto-All [] d out h = tt
  snapshot_onto-All (e ∷ es) d out h =
      let (b, rest, one) = >>=-ok (snapshot_one digest root fs e) _ h in
      (
        snapshot_onto-IsGood es (Dict.insert e.path b d) out e.path rest
            (first_insert-IsGood d e b one),
        snapshot_onto-All es (Dict.insert e.path b d) out rest,
      )

  pub snapshot_edit_baseline-All :
      (es : List FileEdit) (out : List (String × FileBaseline))
      → snapshot_edit_baseline digest root fs es ≡ ok out
      → All (λ e. IsGood out e.path) es
  unfolding snapshot_edit_baseline
  snapshot_edit_baseline-All es out h = snapshot_onto-All es [] out h
