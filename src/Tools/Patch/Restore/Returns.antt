-- ===== src/Tools/Patch/Restore/Returns.antt =====
-- src/evoci/tools/patch.py: what a restoration does to the texts of the workspace.
use evo_ci.Prelude.{
  ℕ, ◌≡◌, refl, String, Option, some, none, List, [], ◌∷◌, ◌++◌, Bool, true, false, ◌||◌, eq_iff,
  ap, sym, ◌∙◌, ok, raise, Outcome, Raised, inl, inr, if◌then◌else◌, Outcome-cases, any, All,
  or_else,
}
use mathlib.Core.Path.{subst}
use evo_ci.Tools.Paths.{resolve}
use evo_ci.Tools.Filesystem.{
  Place, same_place, Node, file, directory, special, Files, Op, and_then, unlink, write_file,
  exists, is_file, node_text, read_text_or_none, mode_or_none, read_back,
}
use evo_ci.Tools.Filesystem.Views.{
  texts, with_text, with_same, put-texts, Writes, unlink-Writes, node_text-read,
}
use evo_ci.Tools.Patch.{FileBaseline, same_text}
use evo_ci.Tools.Patch.Apply.Overlay.{Writes-then, if-Writes, still, absent_text, write_file-Writes}
use evo_ci.Tools.Patch.Restore.{
  Restored, chmod_node, chmod, remove_one, rewrite_one, restore_one, restore_all, wants_mode,
}

pub same_text-eq : (a b : Option String) → same_text a b ≡ true → a ≡ b
same_text-eq none none h = refl
same_text-eq none (some b) h = cc
same_text-eq (some a) none h = cc
same_text-eq (some a) (some b) h = ap some ((eq_iff a b).0 h)

pub and_then-ok :
    {A B : Type 0} (r : Files × Outcome A) (f : A → Op B) (after : Files) (b : B)
    → and_then r f ≡ (after, ok b)
    → (mid : Files) × (a : A) × (r ≡ (mid, ok a)) × (f a mid ≡ (after, ok b))
and_then-ok (mid, ok a) f after b h = (mid, a, refl, h)
and_then-ok (mid, raise x) f after b h = cc

chmod_node-texts :
    (o : Option Node) (at : Place) (mode : ℕ) (fs : Files) (p : Place)
    → node_text o ≡ texts fs at
    → texts (chmod_node o at mode fs) p ≡ texts fs p
chmod_node-texts none at mode fs p h = refl
chmod_node-texts (some directory) at mode fs p h = refl
chmod_node-texts (some special) at mode fs p h = refl
chmod_node-texts (some (file content old)) at mode fs p h =
    put-texts fs at p (some (file content _))
    ∙ with_same (texts fs) at p (read_back (some content)) h

module _ (root : List String) where
  remove_one-Writes :
      (path : String) (at : Place) (fs : Files) → Writes at none fs (remove_one root path at fs)
  unfolding remove_one read_text_or_none
  remove_one-Writes path at fs =
      if-Writes at none fs (exists (fs at)) _ _
        (λ there.
          if-Writes at none fs (is_file (fs at)) _ _
            (λ f.
              Writes-then at none fs (unlink at fs) (λ _. ([], path ∷ [])) (unlink-Writes at fs))
            (λ other p. refl))
        (λ absent p. still at none fs p (absent_text (fs at) absent))

  kept :
      (content : String) (at : Place) (fs after : Files) (p : Place)
      → same_text (texts fs at) (some content) ≡ true
      → texts after p ≡ texts fs p
      → texts after p ≡ with_text at (read_back (some content)) (texts fs) p
  unfolding read_text_or_none
  kept content at fs after p same h =
      let is = same_text-eq (texts fs at) (some content) same in
      h ∙ still at (read_back (some content)) fs p (sym (node_text-read (fs at)) ∙ ap read_back is)

  rewrite_one-Writes :
      (path content : String) (mode : Option ℕ) (at : Place) (fs : Files)
      → resolve root path ≡ ok at
      → Writes at (read_back (some content)) fs (rewrite_one root path content mode at fs)
  unfolding rewrite_one read_text_or_none
  rewrite_one-Writes path content mode at fs h =
      if-Writes at (read_back (some content)) fs (same_text (texts fs at) (some content)) _ _
        (λ same.
          if-Writes at (read_back (some content)) fs (wants_mode root mode (mode_or_none fs at)) _ _
            (λ yes p.
              kept content at fs (chmod at (or_else mode 0) fs) p same
                (chmod_node-texts (fs at) at (or_else mode 0) fs p refl))
            (λ no p. kept content at fs fs p same refl))
        (λ differs.
          Writes-then at (read_back (some content)) fs (write_file root true path content mode fs)
            (λ _. (path ∷ [], [])) (write_file-Writes (λ s. s) root true path content mode at fs h))

  -- The entry's path leads to the place.
  abbrev pub hits : Outcome Place → Place → Bool
  hits (ok at) p = same_place at p
  hits (raise x) p = false

  abbrev pub leads : String → Place → Bool
  leads path p = hits (resolve root path) p

  by_content :
      (path : String) (b : FileBaseline) (c : Option String) (at : Place) (fs : Files)
      → resolve root path ≡ ok at
      → b.content ≡ c
      → Writes at (read_back c) fs (restore_one root path b fs)
  unfolding restore_one
  by_content path b none at fs h e = rw (h, e, restore_one) (remove_one-Writes path at fs)
  by_content path b (some content) at fs h e =
      rw (h, e, restore_one) (rewrite_one-Writes path content b.mode at fs h)

  stays_out :
      (path : String) (b : FileBaseline) (fs : Files) (x : Raised)
      → resolve root path ≡ raise x
      → restore_one root path b fs ≡ (fs, raise x)
  unfolding restore_one
  stays_out path b fs x h = rw (h, restore_one) refl

  -- What an entry that was restored leaves at a place.
  restored_one :
      (path : String) (b : FileBaseline) (fs after : Files) (out : Restored) (p : Place)
      → restore_one root path b fs ≡ (after, ok out)
      → texts after p ≡ (if leads path p then read_back b.content else texts fs p)
  restored_one path b fs after out p done = elim (Outcome-cases (resolve root path)) [
    | inl (at, h) ↦ rw h (
        subst (λ r. Writes at (read_back b.content) fs r) done
          (by_content path b b.content at fs h refl) p)
    | inr (x, h) ↦ cc (done, stays_out path b fs x h)
  ]

  -- Every entry that leads to the place has this content.
  abbrev pub AllBring : Place → Option String → List (String × FileBaseline) → Type 0
  AllBring p t bs = All (λ e. leads e.0 p ≡ true → e.1.content ≡ t) bs

  abbrev pub reaches : Place → List (String × FileBaseline) → Bool
  reaches p bs = any (λ e. leads e.0 p) bs

  chosen :
      (first later : Bool) (t content before mid after : Option String)
      → (first ≡ true → content ≡ t)
      → mid ≡ (if first then content else before)
      → after ≡ (if later then t else mid)
      → after ≡ (if first || later then t else before)
  chosen true true t content before mid after h m a = a
  chosen true false t content before mid after h m a = a ∙ m ∙ h refl
  chosen false true t content before mid after h m a = a
  chosen false false t content before mid after h m a = a ∙ m

  pub restore_all-texts :
      (bs : List (String × FileBaseline)) (out res : Restored) (fs after : Files) (p : Place)
      (t : Option String)
      → restore_all root bs out fs ≡ (after, ok res)
      → read_back t ≡ t
      → AllBring p t bs
      → texts after p ≡ (if reaches p bs then t else texts fs p)
  unfolding restore_all
  restore_all-texts [] out res fs after p t done read bring = ap (λ r. texts r.0 p) (sym done)
  restore_all-texts ((path, b) ∷ bs) out res fs after p t done read bring =
      let (mid, a, one, rest) = and_then-ok (restore_one root path b fs) _ after res done in
      chosen (leads path p) (reaches p bs) t (read_back b.content) (texts fs p) (texts mid p)
        (texts after p) (λ led. ap read_back (bring.0 led) ∙ read)
        (restored_one path b fs mid a p one)
        (restore_all-texts bs (out.0 ++ a.0, out.1 ++ a.1) res mid after p t rest read bring.1)
