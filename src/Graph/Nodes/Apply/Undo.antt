-- ===== src/Graph/Nodes/Apply/Undo.antt =====
-- src/evoci/graph/builder.py, `apply_candidate`: an attempt that is undone leaves the texts as they were.
use mathlib.Core.Path.{subst}
use evo_ci.Prelude.{
  ◌≡◌, refl, String, Option, some, none, List, [], ◌∷◌, Bool, true, false, not, ◌==◌, eq_iff,
  eq_refl, arith, ap, sym, ◌∙◌, ok, raise, Outcome, Bool-cases, Outcome-cases, inl, inr, ◌⊎◌,
  if◌then◌else◌, All, or_else,
}
use evo_ci.Prelude.Dict
use evo_ci.Prelude.Dict.{lookup-insert}
use evo_ci.Runtime.Budget.{consume_tool_call}
use evo_ci.Tools.Paths.{resolve}
use evo_ci.Tools.Filesystem.{Place, same_place, Files, read_back, read_text_or_none}
use evo_ci.Tools.Filesystem.Views.{Texts, texts, with_text, same_place-eq, node_text-read}
use evo_ci.Tools.Patch.{FileEdit, FileBaseline, intended_content, same_text, snapshot_edit_baseline}
use evo_ci.Tools.Patch.Apply.{Touched, apply_edit}
use evo_ci.Tools.Patch.Apply.Overlay.{Steps, overlay_at, apply_edit-Steps}
use evo_ci.Tools.Patch.Baseline.{snapshot_edit_baseline-All}
use evo_ci.Tools.Patch.Restore.{Restored, restore_attempt_writes, no_baseline}
use evo_ci.Tools.Patch.Restore.Returns.{same_text-eq, leads}
use evo_ci.Tools.Patch.Restore.Attempt.{
  content_for, Tracked, KnowsAll, restore_attempt_writes-texts,
}
use evo_ci.Graph.Nodes.Apply.Loop.{
  Progress, Names, baseline_content, recorded_content, write_charged, file_text, apply_one,
  apply_loop,
}

module _ (root : List String) (baseline : List (String × FileBaseline)) (original : Texts)
    (p : Place) where
  insert-KnowsAll :
      (written : List (String × Option String)) (path : String) (new : Option String)
      → KnowsAll root baseline original written p
      → (leads root path p ≡ true → content_for root baseline path ≡ original p)
      → KnowsAll root baseline original (Dict.insert path new written) p
  insert-KnowsAll [] path new all one = (one, tt)
  insert-KnowsAll ((key, v) ∷ rest) path new all one = elim (Bool-cases (key == path)) [
    | inl hit ↦ rw hit all
    | inr miss ↦ rw miss (all.0, insert-KnowsAll rest path new all.1 one)
  ]

  insert-Tracked :
      (written : List (String × Option String)) (path : String) (new : Option String)
      (ts ts' : Texts)
      → Tracked root original written ts p
      → (leads root path p ≡ true → (ts' p ≡ original p) ⊎ (ts' p ≡ new))
      → (leads root path p ≡ false → ts' p ≡ ts p)
      → Tracked root original (Dict.insert path new written) ts' p
  insert-Tracked written path new ts ts' old here there = elim (Bool-cases (leads root path p)) [
    | inl led ↦ elim (here led) [
      | inl same ↦ inl same
      | inr now ↦ inr (path, lookup-insert path path new written ∙ rw (eq_refl path, now) refl, led)
    ]
    | inr away ↦ elim old [
      | inl same ↦ inl (there away ∙ same)
      | inr (q, found, led) ↦ elim (Bool-cases (path == q)) [
        | inl hit ↦ cc (away, led, (eq_iff path q).0 hit)
        | inr miss ↦ inr (q, lookup-insert path q new written ∙ rw (miss, there away) found, led)
      ]
    ]
  ]

same_content :
    (root : List String) (o : Option FileBaseline)
    → recorded_content o ≡ (or_else o (no_baseline root)).content
same_content root none = refl
same_content root (some b) = refl

if-either :
    {A B : Type 0} (P : A → Type 0) (test : Bool) (x y : A × B)
    → (test ≡ true → P x.0)
    → (test ≡ false → P y.0)
    → P (if test then x else y).0
if-either P true x y hx hy = hx refl
if-either P false x y hx hy = hy refl

-- The edit's text is read as it was written: it has no "\r".
abbrev pub Reads : FileEdit → Type 0
Reads e = read_back (intended_content e) ≡ intended_content e

module _ (digest : String → String) (root : List String) (strict : Bool) (names : Names)
    (baseline : List (String × FileBaseline)) (original : Texts) (p : Place) where
  -- The attempt so far can be undone at the place.
  abbrev IsUndoable : Progress → Type 0
  IsUndoable g =
      Tracked root original g.written (texts g.files) p
      × KnowsAll root baseline original g.written p

  -- The baseline has the original text of the edit's file.
  abbrev Agrees : FileEdit → Type 0
  Agrees e = leads root e.path p ≡ true → content_for root baseline e.path ≡ original p

  file_text-leads :
      (files : Files) (path : String)
      → leads root path p ≡ true
      → file_text digest root strict names baseline files path ≡ texts files p
  unfolding file_text
  file_text-leads files path led = elim (Outcome-cases (resolve root path)) [
    | inl (at, h) ↦
        let here : at ≡ p = same_place-eq at p (rw h at led) in
        rw (h, file_text) (ap (texts files) here)
    | inr (x, h) ↦ absurd (ground (arith, rw h at led))
  ]

  by_step :
      (e : FileEdit) (fs : Files) (r : Files × Outcome Touched)
      → Steps digest root strict
          (texts fs)
          (overlay_at digest root strict
            (resolve root e.path)
            (read_back (intended_content e))
            (texts fs))
          r
      → (texts r.0 p ≡ texts fs p)
        ⊎ ((leads root e.path p ≡ true) × (texts r.0 p ≡ read_back (intended_content e)))
  by_step e fs (after, raise x) h = inl (ap (λ ts. ts p) h)
  by_step e fs (after, ok a) h = elim (Outcome-cases (resolve root e.path)) [
    | inr (x, out) ↦ inl (ap (λ ts. ts p) (rw out at h))
    | inl (at, to) ↦
        let now : texts after p ≡ with_text at (read_back (intended_content e)) (texts fs) p =
          ap (λ ts. ts p) (rw to at h) in
        elim (Bool-cases (same_place at p)) [
          | inl here ↦ inr (rw to here, now ∙ rw here refl)
          | inr away ↦ inl (now ∙ rw away refl)
        ]
  ]

  -- What one applied edit does at the place.
  edited :
      (e : FileEdit) (fs : Files)
      → let after = (apply_edit digest root strict e fs).0 in
        (texts after p ≡ texts fs p)
        ⊎ ((leads root e.path p ≡ true) × (texts after p ≡ read_back (intended_content e)))
  edited e fs =
      by_step e fs (apply_edit digest root strict e fs) (apply_edit-Steps digest root strict e fs)

  noted :
      (e : FileEdit) (g : Progress) (files : Files)
      → IsUndoable g
      → Agrees e
      → (leads root e.path p ≡ true
          → (texts files p ≡ original p) ⊎ (texts files p ≡ intended_content e))
      → (leads root e.path p ≡ false → texts files p ≡ texts g.files p)
      → Tracked root original (Dict.insert e.path (intended_content e) g.written) (texts files) p
        × KnowsAll root baseline original (Dict.insert e.path (intended_content e) g.written) p
  noted e g files u agrees here there = (
    insert-Tracked root baseline original p g.written e.path (intended_content e) (texts g.files)
        (texts files) u.0 here there,
    insert-KnowsAll root baseline original p g.written e.path (intended_content e) u.1 agrees,
  )

  write_charged-shape :
      (e : FileEdit) (g : Progress)
      → let g' = (write_charged digest root strict names baseline e g).0 in
        ((g'.files ≡ g.files) × (g'.written ≡ g.written))
        ⊎ ((g'.files ≡ (apply_edit digest root strict e g.files).0)
            × (g'.written ≡ Dict.insert e.path (intended_content e) g.written))
  unfolding write_charged
  write_charged-shape e g = elim (Outcome-cases (consume_tool_call g.budget).1) [
    | inr (x, spent) ↦ inl (rw (spent, write_charged) refl, rw (spent, write_charged) refl)
    | inl (_, charged) ↦ elim (Outcome-cases (apply_edit digest root strict e g.files).1) [
      | inl (a, done) ↦
          inr (rw (charged, done, write_charged) refl, rw (charged, done, write_charged) refl)
      | inr (x, done) ↦
          inr (rw (charged, done, write_charged) refl, rw (charged, done, write_charged) refl)
    ]
  ]

  -- The file has its baseline text when an edit is about to write it.
  write_charged-IsUndoable :
      (e : FileEdit) (g : Progress)
      → IsUndoable g
      → Agrees e
      → Reads e
      → (leads root e.path p ≡ true → texts g.files p ≡ original p)
      → IsUndoable (write_charged digest root strict names baseline e g).0
  write_charged-IsUndoable e g u agrees reads clean = elim (write_charged-shape e g) [
    | inl (files, written) ↦ rw (files, written) u
    | inr (files, written) ↦
        rw (files, written)
          (noted e g (apply_edit digest root strict e g.files).0 u agrees
            (λ led. elim (edited e g.files) [
              | inl same ↦ inl (same ∙ clean led)
              | inr (_, now) ↦ inr (now ∙ reads)
            ])
            (λ away. elim (edited e g.files) [ inl same ↦ same | inr (led, _) ↦ cc (away, led) ]))
  ]

  apply_one-IsUndoable :
      (e : FileEdit) (g : Progress)
      → IsUndoable g
      → Agrees e
      → Reads e
      → IsUndoable (apply_one digest root strict names baseline e g).0
  unfolding apply_one
  apply_one-IsUndoable e g u agrees reads =
      let current = file_text digest root strict names baseline g.files e.path in
      if-either IsUndoable (same_text current (intended_content e)) _ _
        (λ there.
          noted e g g.files u agrees
            (λ led. inr (
              sym (file_text-leads g.files e.path led)
              ∙ same_text-eq current (intended_content e) there))
            (λ away. refl))
        (λ absent.
          if-either IsUndoable (not (same_text current (baseline_content baseline e.path))) _ _
            (λ changed. u)
            (λ clean. write_charged-IsUndoable e g u agrees reads (λ led.
              sym (file_text-leads g.files e.path led)
              ∙ same_text-eq current (baseline_content baseline e.path) (ground (arith, clean))
              ∙ same_content root (Dict.lookup e.path baseline)
              ∙ agrees led)))

  apply_loop-IsUndoable :
      (es : List FileEdit) (g : Progress)
      → IsUndoable g
      → All Agrees es
      → All Reads es
      → IsUndoable (apply_loop digest root strict names baseline es g).0
  unfolding apply_loop
  apply_loop-IsUndoable [] g u agree read = u
  apply_loop-IsUndoable (e ∷ es) g u agree read =
      let one = apply_one-IsUndoable e g u agree.0 read.0 in
      elim (Outcome-cases (apply_one digest root strict names baseline e g).1) [
        | inr (x, stops) ↦ rw (stops, apply_loop) one
        | inl (_, goes) ↦
            rw (goes, apply_loop)
              (apply_loop-IsUndoable es (apply_one digest root strict names baseline e g).0 one
                agree.1 read.1)
      ]

-- An attempt whose baseline was taken from the workspace, and whose edits hold no "\r", is undone: wherever
-- the loop over the edits stopped, at a conflict, a spent budget, a failed write, or its end, restoring what
-- it wrote, where the restoration returns, leaves every text of the workspace as it was before the attempt,
-- as it is read: with "\n" for every "\r\n" and "\r".
pub apply_loop-undone :
    (digest : String → String) (root : List String) (strict : Bool) (names : Names)
    (es : List FileEdit) (baseline : List (String × FileBaseline)) (g : Progress) (after : Files)
    (res : Restored)
    → g.written ≡ []
    → All Reads es
    → snapshot_edit_baseline digest root g.files es ≡ ok baseline
    → let g' = (apply_loop digest root strict names baseline es g).0 in
      restore_attempt_writes root baseline g'.written g'.files ≡ (after, ok res)
      → (p : Place) → texts after p ≡ texts g.files p
unfolding read_text_or_none
apply_loop-undone digest root strict names es baseline g after res empty reads taken done p =
    let g' = (apply_loop digest root strict names baseline es g).0 in
    let (tracked, knows) =
      apply_loop-IsUndoable digest root strict names baseline (texts g.files) p es g
        (inl refl, subst (λ w. KnowsAll root baseline (texts g.files) w p) (sym empty) tt)
        (snapshot_edit_baseline-All digest root g.files p es baseline taken) reads in
    restore_attempt_writes-texts root baseline g'.written g'.files after res (texts g.files) p done
      (node_text-read (g.files p)) tracked knows
