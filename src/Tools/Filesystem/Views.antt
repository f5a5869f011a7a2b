-- ===== src/Tools/Filesystem/Views.antt =====
-- What the writes of src/evoci/tools/filesystem.py do to the texts of a workspace.
use Prim.Native.Char.{code}
use evo_ci.Prelude.{
  ℕ, ◌≡◌, refl, String, Option, some, none, [], ◌∷◌, ◌++◌, true, eq_iff, eq_refl, arith, ap, sym,
  ◌∙◌, ok, raise, Outcome, Bool-cases, Bool, false, ◌||◌, eqb, inl, inr, if◌then◌else◌, or_else,
  Option-cases,
}
use evo_ci.Tools.Filesystem.{
  Place, same_place, Node, file, directory, special, Files, put, make_parents, make_directory,
  read_text_or_none, node_text, replace, replace_node, write_at, new_mode, unlink, newlines,
  newlines_after, read_back,
}

pub same_place-eq : (p q : Place) → same_place p q ≡ true → p ≡ q
same_place-eq [] [] h = refl
same_place-eq [] (q ∷ qs) h = cc
same_place-eq (p ∷ ps) [] h = cc
same_place-eq (p ∷ ps) (q ∷ qs) h =
    let first : p ≡ q = (eq_iff p q).0 (ground (arith, h)) in
    let rest : ps ≡ qs = same_place-eq ps qs (ground (arith, h)) in
    ap (λ x. x ∷ ps) first ∙ ap (λ x. q ∷ x) rest

pub same_place_refl : (p : Place) → same_place p p ≡ true
same_place_refl [] = refl
same_place_refl (p ∷ ps) = ground (arith, eq_refl p, same_place_refl ps)

-- A text without "\r" is read as it is.
abbrev has_return : String → Bool
has_return String.[] = false
has_return (String.◌∷◌ c s) = eqb (code c) 13 || has_return s

newlines_after-has_return : (b : Bool) (s : String) → has_return (newlines_after b s) ≡ false
newlines_after-has_return b String.[] = refl
newlines_after-has_return b (String.◌∷◌ c s) =
    ground (arith, newlines_after-has_return true s, newlines_after-has_return false s)

newlines_same : (s : String) → has_return s ≡ false → newlines_after false s ≡ s
newlines_same String.[] h = refl
newlines_same (String.◌∷◌ c s) h =
    let first : eqb (code c) 13 ≡ false = ground (arith, h) in
    rw first (ap (λ x. String.◌∷◌ c x) (newlines_same s (ground (arith, h))))

-- Reading twice is reading once.
pub newlines_twice : (s : String) → newlines (newlines s) ≡ newlines s
unfolding newlines
newlines_twice s = newlines_same (newlines s) (newlines_after-has_return false s)

pub node_text-read : (o : Option Node) → read_back (node_text o) ≡ node_text o
node_text-read none = refl
node_text-read (some directory) = refl
node_text-read (some special) = refl
node_text-read (some (file content mode)) = ap some (newlines_twice content)

-- The texts of a workspace.
abbrev pub Texts : Type 0
Texts = Place → Option String

abbrev pub texts : Files → Texts
texts fs p = read_text_or_none fs p

-- The same texts, except for the one at a place.
abbrev pub with_text : Place → Option String → Texts → Texts
with_text at content ts p = if same_place at p then content else ts p

directory_text :
    (old new : Option Node) → make_directory old ≡ some new → node_text new ≡ node_text old
directory_text none new h = ground (arith, h)
directory_text (some directory) new h = ground (arith, h)
directory_text (some special) new h = cc
directory_text (some (file content mode)) new h = cc

pub put-texts :
    (fs : Files) (at p : Place) (new : Option Node)
    → texts (put fs at new) p ≡ with_text at (node_text new) (texts fs) p
unfolding read_text_or_none
put-texts fs at p new = ground arith

pub with_same :
    (ts : Texts) (at p : Place) (t : Option String) → t ≡ ts at → with_text at t ts p ≡ ts p
with_same ts at p t h = elim (Bool-cases (same_place at p)) [
  | inl same ↦ rw same (h ∙ ap ts (same_place-eq at p same))
  | inr other ↦ rw other refl
]

put-directory :
    (fs : Files) (at p : Place) (new : Option Node)
    → make_directory (fs at) ≡ some new
    → texts (put fs at new) p ≡ texts fs p
unfolding read_text_or_none
put-directory fs at p new h =
    put-texts fs at p new ∙ with_same (texts fs) at p (node_text new) (directory_text (fs at) new h)

make_parents-texts :
    (done at : Place) (fs made : Files) (p : Place)
    → make_parents done at fs ≡ some made
    → texts made p ≡ texts fs p
unfolding make_parents
make_parents-texts done [] fs made p h = ap (λ o. texts (or_else o fs) p) (sym h)
make_parents-texts done (q ∷ []) fs made p h = ap (λ o. texts (or_else o fs) p) (sym h)
make_parents-texts done (q ∷ r ∷ rest) fs made p h =
    elim (Option-cases (make_directory (fs (done ++ q ∷ [])))) [
      | inl fails ↦ cc (h, fails)
      | inr (new, makes) ↦
          make_parents-texts (done ++ q ∷ []) (r ∷ rest) (put fs (done ++ q ∷ []) new) made p
            (rw (makes, make_parents) at h)
          ∙ put-directory fs (done ++ q ∷ []) p new makes
    ]

-- The texts after an operation that writes one place: written if it returned, and as before if not.
abbrev pub Writes : {A : Type 0} → Place → Option String → Files → Files × Outcome A → Type 0
Writes at content fs (after, ok a) = (p : Place) → texts after p ≡ with_text at content (texts fs) p
Writes at content fs (after, raise x) = (p : Place) → texts after p ≡ texts fs p

replace_node-Writes :
    (o : Option Node) (at : Place) (content : String) (mode : ℕ) (fs : Files)
    → Writes at (read_back (some content)) fs (replace_node o at content mode fs)
replace_node-Writes none at content mode fs = λ p. put-texts fs at p (some (file content mode))
replace_node-Writes (some (file old m)) at content mode fs =
    λ p. put-texts fs at p (some (file content mode))
replace_node-Writes (some special) at content mode fs =
    λ p. put-texts fs at p (some (file content mode))
replace_node-Writes (some directory) at content mode fs = λ p. refl

Writes-after :
    {A : Type 0} (at : Place) (content : Option String) (fs made : Files) (r : Files × Outcome A)
    → ((p : Place) → texts made p ≡ texts fs p)
    → Writes at content made r
    → Writes at content fs r
Writes-after at content fs made (after, ok a) same h = λ p.
    h p ∙ elim (Bool-cases (same_place at p)) [
      | inl here ↦ rw here refl
      | inr other ↦ rw other (same p)
    ]
Writes-after at content fs made (after, raise x) same h = λ p. h p ∙ same p

pub write_at-Writes :
    (at : Place) (content : String) (mode : Option ℕ) (fs : Files)
    → Writes at (read_back (some content)) fs (write_at at content mode fs)
unfolding write_at
write_at-Writes at content mode fs = by_parents (make_parents [] at fs) refl
  where
    by_parents :
        (o : Option Files)
        → make_parents [] at fs ≡ o
        → Writes at (read_back (some content)) fs (write_at at content mode fs)
    by_parents none e = rw (e, write_at) (λ p. refl)
    by_parents (some made) e =
        rw (e, write_at)
          (Writes-after at (read_back (some content)) fs made
            (replace at content (new_mode mode (fs at)) made)
            (λ p. make_parents-texts [] at fs made p e)
            (replace_node-Writes (made at) at content (new_mode mode (fs at)) made))

pub unlink-Writes : (at : Place) (fs : Files) → Writes at none fs (unlink at fs)
unfolding unlink
unlink-Writes at fs = by_node (fs at) refl
  where
    by_node : (o : Option Node) → fs at ≡ o → Writes at none fs (unlink at fs)
    by_node none e = rw (e, unlink) (λ p. refl)
    by_node (some (file old m)) e = rw (e, unlink) (λ p. put-texts fs at p none)
    by_node (some special) e = rw (e, unlink) (λ p. put-texts fs at p none)
    by_node (some directory) e = rw (e, unlink) (λ p. refl)
