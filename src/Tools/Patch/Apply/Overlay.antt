-- ===== src/Tools/Patch/Apply/Overlay.antt =====
-- src/evoci/tools/patch.py: applied edits overlay the texts of the workspace, one after the other.
use evo_ci.Prelude.{
  ℕ, ◌≡◌, refl, String, Option, some, none, List, [], ◌∷◌, ◌++◌, Bool, true, false, ◌==◌, eq_iff,
  ap, sym, ◌∙◌, ok, raise, Outcome, Raised, Bool-cases, inl, inr, if◌then◌else◌, Outcome-cases,
}
use evo_ci.Tools.Paths.{resolve}
use evo_ci.Tools.Filesystem.{
  Place, Node, file, directory, special, Files, Op, and_then, unlink, write_file, exists, pure,
  node_text, read_text_or_none, newlines, read_back,
}
use evo_ci.Tools.Filesystem.Views.{
  Texts, texts, with_text, with_same, Writes, unlink-Writes, write_at-Writes, node_text-read,
}
use evo_ci.Tools.Patch.{FileEdit, intended_content, check_digest}
use evo_ci.Tools.Patch.Apply.{
  Touched, already_has, report, delete_at, write_edit, apply_at, apply_edit,
}

-- What comes after a step keeps what the step did to the texts, where it only reports.
pub Writes-then :
    {A B : Type 0} (at : Place) (content : Option String) (fs : Files) (r : Files × Outcome A)
    (b : A → B)
    → Writes at content fs r
    → Writes at content fs (and_then r (λ a. pure (b a)))
Writes-then at content fs (after, ok a) b h = h
Writes-then at content fs (after, raise x) b h = h

-- A check before a step changes no text.
pub checked-Writes :
    {A B : Type 0} (at : Place) (content : Option String) (fs : Files) (check : Outcome A)
    (step : A → Op B)
    → ((a : A) → check ≡ ok a → Writes at content fs (step a fs))
    → Writes at content fs (and_then (fs, check) step)
checked-Writes at content fs (ok a) step h = h a refl
checked-Writes at content fs (raise x) step h = λ p. refl

pub if-Writes :
    {A : Type 0} (at : Place) (content : Option String) (fs : Files) (test : Bool)
    (x y : Files × Outcome A)
    → (test ≡ true → Writes at content fs x)
    → (test ≡ false → Writes at content fs y)
    → Writes at content fs (if test then x else y)
if-Writes at content fs true x y hx hy = hx refl
if-Writes at content fs false x y hx hy = hy refl

-- Nothing has to be done where the text is there.
pub still :
    (at : Place) (content : Option String) (fs : Files) (p : Place)
    → texts fs at ≡ content
    → texts fs p ≡ with_text at content (texts fs) p
still at content fs p h = sym (with_same (texts fs) at p content (sym h))

pub absent_text : (o : Option Node) → exists o ≡ false → node_text o ≡ none
absent_text none h = refl
absent_text (some x) h = cc

already_text :
    (o : Option Node) (content : String)
    → already_has o content ≡ ok true
    → node_text o ≡ some content
already_text none content h = cc
already_text (some directory) content h = cc
already_text (some special) content h = cc
already_text (some (file old mode)) content h =
    let same : (newlines old == content) ≡ true = cc h in
    ap some ((eq_iff (newlines old) content).0 same)

already_read :
    (o : Option Node) (content : String)
    → already_has o content ≡ ok true
    → node_text o ≡ read_back (some content)
already_read o content h =
    let is = already_text o content h in sym (node_text-read o) ∙ ap read_back is

module _ (digest : String → String) (root : List String) (strict : Bool) where
  delete_at-Writes :
      (e : FileEdit) (at : Place) (fs : Files)
      → Writes at none fs (delete_at digest root strict e at fs)
  unfolding delete_at read_text_or_none
  delete_at-Writes e at fs =
      if-Writes at none fs (exists (fs at)) _ _
        (λ there. checked-Writes at none fs (check_digest digest root strict e fs at) _ (λ a passed.
          Writes-then at none fs (unlink at fs) (λ _. ([], e.path ∷ [])) (unlink-Writes at fs)))
        (λ absent p. still at none fs p (absent_text (fs at) absent))

  pub write_file-Writes :
      (path content : String) (mode : Option ℕ) (at : Place) (fs : Files)
      → resolve root path ≡ ok at
      → Writes at (read_back (some content)) fs (write_file root true path content mode fs)
  unfolding write_file
  write_file-Writes path content mode at fs h = rw h (write_at-Writes at content mode fs)

  write_edit-Writes :
      (e : FileEdit) (content : String) (at : Place) (fs : Files)
      → resolve root e.path ≡ ok at
      → Writes at (read_back (some content)) fs (write_edit digest root strict e content at fs)
  unfolding write_edit read_text_or_none
  write_edit-Writes e content at fs h =
      checked-Writes at (read_back (some content)) fs (already_has (fs at) content) _ (λ same told.
        if-Writes at (read_back (some content)) fs same _ _
          (λ yes p.
            still at (read_back (some content)) fs p
              (already_read (fs at) content (told ∙ ap ok yes)))
          (λ no.
            checked-Writes at (read_back (some content)) fs
              (check_digest digest root strict e fs at) _
              (λ a passed.
                Writes-then at (read_back (some content)) fs
                  (write_file root true e.path content none fs)
                  (λ _. report (exists (fs at)) e.path)
                  (write_file-Writes e.path content none at fs h))))

  by_content :
      (e : FileEdit) (c : Option String) (at : Place) (fs : Files)
      → resolve root e.path ≡ ok at
      → e.delete ≡ false
      → e.content ≡ c
      → Writes at (read_back (intended_content e)) fs (apply_at digest root strict e at fs)
  unfolding apply_at intended_content
  by_content e none at fs h keeps empty = rw (keeps, empty) (λ p. refl)
  by_content e (some content) at fs h keeps full =
      rw (keeps, full) (write_edit-Writes e content at fs h)

  apply_at-Writes :
      (e : FileEdit) (at : Place) (fs : Files)
      → resolve root e.path ≡ ok at
      → Writes at (read_back (intended_content e)) fs (apply_at digest root strict e at fs)
  unfolding apply_at intended_content
  apply_at-Writes e at fs h = elim (Bool-cases e.delete) [
    | inl deletes ↦ rw deletes (delete_at-Writes e at fs)
    | inr keeps ↦ by_content e e.content at fs h keeps refl
  ]

  pub apply_edit-Writes :
      (e : FileEdit) (at : Place) (fs : Files)
      → resolve root e.path ≡ ok at
      → Writes at (read_back (intended_content e)) fs (apply_edit digest root strict e fs)
  unfolding apply_edit
  apply_edit-Writes e at fs h = rw (h, apply_edit) (apply_at-Writes e at fs h)

  -- The texts after one edit; an edit whose path leaves the workspace changes none.
  abbrev pub overlay_at : Outcome Place → Option String → Texts → Texts
  overlay_at (ok at) content ts = with_text at content ts
  overlay_at (raise x) content ts = ts

  -- The texts after some edits, one after the other.
  abbrev pub overlay : List FileEdit → Texts → Texts
  overlay [] ts = ts
  overlay (e ∷ es) ts =
      overlay es (overlay_at (resolve root e.path) (read_back (intended_content e)) ts)

  -- The texts after a step that may have raised.
  abbrev pub Steps : {A : Type 0} → Texts → Texts → Files × Outcome A → Type 0
  Steps before next (after, ok a) = texts after ≡ next
  Steps before next (after, raise x) = texts after ≡ before

  pub Writes-Steps :
      {A : Type 0} (at : Place) (content : Option String) (fs : Files) (r : Files × Outcome A)
      → Writes at content fs r
      → Steps (texts fs) (with_text at content (texts fs)) r
  Writes-Steps at content fs (after, ok a) h = λ i p. h p i
  Writes-Steps at content fs (after, raise x) h = λ i p. h p i

  escapes :
      (e : FileEdit) (fs : Files) (x : Raised)
      → resolve root e.path ≡ raise x
      → apply_edit digest root strict e fs ≡ (fs, raise x)
  unfolding apply_edit
  escapes e fs x h = rw (h, apply_edit) refl

  pub apply_edit-Steps :
      (e : FileEdit) (fs : Files)
      → Steps
          (texts fs)
          (overlay_at (resolve root e.path) (read_back (intended_content e)) (texts fs))
          (apply_edit digest root strict e fs)
  apply_edit-Steps e fs = elim (Outcome-cases (resolve root e.path)) [
    | inl (at, h) ↦ rw h (
        Writes-Steps at (read_back (intended_content e)) fs (apply_edit digest root strict e fs)
          (apply_edit-Writes e at fs h))
    | inr (x, h) ↦ rw (escapes e fs x h) refl
  ]

  -- The texts are those after the edits that were done, which are all of them if the loop returned.
  abbrev pub Overlays : List FileEdit → Files → Files × Outcome Touched → Type 0
  Overlays es fs result =
      (done later : List FileEdit) × (es ≡ done ++ later)
      × (texts result.0 ≡ overlay done (texts fs))
      × ((out : Touched) → result.1 ≡ ok out → later ≡ [])
