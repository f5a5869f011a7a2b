-- ===== src/Graph/State/Restore/Whole.antt =====
-- What `restore_batch_snapshot` of src/evoci/graph/integration.py leaves of a workspace.
use evo_ci.Prelude.{
  ◌≡◌, refl, sym, ◌∙◌, ap, String, Option, none, some, List, [], ◌∷◌, Bool, true, false, ◌||◌, ◌==◌,
  if◌then◌else◌, Outcome, ok, raise, arith, contains, if-either, eq_iff, Bool-cases, inl, inr,
}
use evo_ci.Tools.Filesystem.{Place, Node, Files, Op, and_then}
use evo_ci.Graph.State.Restore.{
  Fault, Restoring, is_own, replaced, removed, remove_items, over, copied, copy_items,
  restore_batch_snapshot, is_kept, nothing, remove_item, copy_item,
}

-- The place lies below one of the names.
abbrev pub is_among : List String → Place → Bool
is_among names [] = false
is_among names (q ∷ qs) = contains names q

-- A step that keeps what lies outside of the names that it may touch.
abbrev pub Keeps : Files → Files × Outcome (Unit {0}) → Type 0
Keeps fs (after, o) = (p : Place) → is_kept p ≡ true → after p ≡ fs p

replaced_kept :
    (name : String) (below fs : Files) (p : Place)
    → is_own name ≡ false
    → is_kept p ≡ true
    → replaced name below fs p ≡ fs p
replaced_kept name below fs [] own kept = refl
replaced_kept name below fs (q ∷ qs) own kept = elim (Bool-cases (name == q)) [
  | inl is ↦ cc (own, kept, ap is_own ((eq_iff name q).0 is))
  | inr other ↦ rw other refl
]

then-Keeps :
    (fs : Files) (x : Files × Outcome (Unit {0})) (f : Unit {0} → Op (Unit {0}))
    → Keeps fs x
    → ((mid : Files) → Keeps mid (f tt mid))
    → Keeps fs (and_then x f)
then-Keeps fs (mid, ok u) f h k = λ p kept. k mid p kept ∙ h p kept
then-Keeps fs (mid, raise e) f h k = h

removed-Keeps :
    (fault : Fault) (name : String) (fs : Files)
    → is_own name ≡ false
    → Keeps fs (removed fault name fs)
removed-Keeps none name fs own = λ p kept. replaced_kept name nothing fs p own kept
removed-Keeps (some (e, left)) name fs own = λ p kept. replaced_kept name left fs p own kept

copied-Keeps :
    (fault : Fault) (name : String) (snapshot fs : Files)
    → is_own name ≡ false
    → Keeps fs (copied fault name snapshot fs)
copied-Keeps none name snapshot fs own =
    λ p kept. replaced_kept name (λ q. over (snapshot q) (fs q)) fs p own kept
copied-Keeps (some (e, left)) name snapshot fs own = λ p kept. replaced_kept name left fs p own kept

remove_item-Keeps : (r : Restoring) (name : String) (fs : Files) → Keeps fs (remove_item r name fs)
remove_item-Keeps r name fs =
    if-either (Keeps fs) (is_own name) (fs, ok tt) (removed (r.remove_fault name) name fs)
      (λ own p kept. refl) (λ other. removed-Keeps (r.remove_fault name) name fs other)

remove_items-Keeps :
    (r : Restoring) (names : List String) (fs : Files) → Keeps fs (remove_items r names fs)
unfolding remove_items
remove_items-Keeps r [] fs = λ p kept. refl
remove_items-Keeps r (name ∷ names) fs =
    then-Keeps fs (remove_item r name fs) (λ _ mid. remove_items r names mid)
      (remove_item-Keeps r name fs) (λ mid. remove_items-Keeps r names mid)

copy_item-Keeps :
    (r : Restoring) (snapshot : Files) (name : String) (fs : Files)
    → Keeps fs (copy_item r snapshot name fs)
copy_item-Keeps r snapshot name fs =
    if-either (Keeps fs) (is_own name) (fs, ok tt) (copied (r.copy_fault name) name snapshot fs)
      (λ own p kept. refl) (λ other. copied-Keeps (r.copy_fault name) name snapshot fs other)

copy_items-Keeps :
    (r : Restoring) (snapshot : Files) (names : List String) (fs : Files)
    → Keeps fs (copy_items r snapshot names fs)
unfolding copy_items
copy_items-Keeps r snapshot [] fs = λ p kept. refl
copy_items-Keeps r snapshot (name ∷ names) fs =
    then-Keeps fs (copy_item r snapshot name fs) (λ _ mid. copy_items r snapshot names mid)
      (copy_item-Keeps r snapshot name fs) (λ mid. copy_items-Keeps r snapshot names mid)

-- Wherever the file system fails, the top-level ".git" and ".evoci" stay.
pub restore_batch_snapshot-Keeps :
    (r : Restoring) (snapshot fs : Files) → Keeps fs (restore_batch_snapshot r snapshot fs)
unfolding restore_batch_snapshot
restore_batch_snapshot-Keeps r snapshot fs =
    then-Keeps fs (remove_items r r.present fs) (λ _ mid. copy_items r snapshot r.saved mid)
      (remove_items-Keeps r r.present fs) (λ mid. copy_items-Keeps r snapshot r.saved mid)

-- What a step that returned has done to a place: those that it is to touch have the new node.
abbrev Sets : List String → (Files → Files) → Files → Files × Outcome (Unit {0}) → Type 0
Sets names new fs (after, raise e) = Unit
Sets names new fs (after, ok u) =
    (p : Place) → is_kept p ≡ false → after p ≡ (if is_among names p then new fs p else fs p)

-- A step for one name and the steps for the others, where a second step on a place changes nothing more.
then-Sets :
    (name : String) (names : List String) (new : Files → Files) (fs : Files)
    (x : Files × Outcome (Unit {0})) (f : Unit {0} → Op (Unit {0}))
    → ((a b : Files) (p : Place) → a p ≡ b p → new a p ≡ new b p)
    → ((a : Files) (p : Place) → new (new a) p ≡ new a p)
    → Sets (name ∷ []) new fs x
    → ((mid : Files) → Sets names new mid (f tt mid))
    → Sets (name ∷ names) new fs (and_then x f)
then-Sets name names new fs (mid, raise e) f local twice h k = tt
then-Sets name names new fs (mid, ok u) f local twice h k = joined (f tt mid) (k mid)
  where
    at_place :
        (b c : Bool) (p : Place) (z : Option Node)
        → mid p ≡ (if b || false then new fs p else fs p)
        → z ≡ (if c then new mid p else mid p)
        → z ≡ (if b || c then new fs p else fs p)
    at_place true true p z h k = k ∙ (local mid (new fs) p h ∙ twice fs p)
    at_place true false p z h k = k ∙ h
    at_place false true p z h k = k ∙ local mid fs p h
    at_place false false p z h k = k ∙ h

    joined : (y : Files × Outcome (Unit {0})) → Sets names new mid y → Sets (name ∷ names) new fs y
    joined (after, raise e) s = tt
    joined (after, ok v) s = λ p out. by_shape p out (h p out) (s p out)
      where
        by_shape :
            (p : Place)
            → is_kept p ≡ false
            → mid p ≡ (if is_among (name ∷ []) p then new fs p else fs p)
            → after p ≡ (if is_among names p then new mid p else mid p)
            → after p ≡ (if is_among (name ∷ names) p then new fs p else fs p)
        by_shape [] out a b = absurd (ground (arith, out))
        by_shape (q ∷ qs) out a b =
            at_place (name == q) (contains names q) (q ∷ qs) (after (q ∷ qs)) a b

replaced-Sets :
    (name : String) (new : Files → Files) (fs : Files)
    → Sets (name ∷ []) new fs (replaced name (new fs) fs, ok tt)
replaced-Sets name new fs [] out = refl
replaced-Sets name new fs (q ∷ qs) out = elim (Bool-cases (name == q)) [
  | inl h ↦ rw h refl
  | inr h ↦ rw h refl
]

own-Sets :
    (name : String) (new : Files → Files) (fs : Files)
    → is_own name ≡ true
    → Sets (name ∷ []) new fs (fs, ok tt)
own-Sets name new fs own [] out = refl
own-Sets name new fs own (q ∷ qs) out = elim (Bool-cases (name == q)) [
  | inl is ↦ cc (own, out, ap is_own ((eq_iff name q).0 is))
  | inr other ↦ rw other refl
]

removed-Sets :
    (fault : Fault) (name : String) (fs : Files)
    → Sets (name ∷ []) (λ _. nothing) fs (removed fault name fs)
removed-Sets none name fs = replaced-Sets name (λ _. nothing) fs
removed-Sets (some (e, left)) name fs = tt

Sets-none : (new : Files → Files) (fs : Files) → Sets [] new fs (fs, ok tt)
Sets-none new fs [] out = refl
Sets-none new fs (q ∷ qs) out = refl

remove_items-Sets :
    (r : Restoring) (names : List String) (fs : Files)
    → Sets names (λ _. nothing) fs (remove_items r names fs)
unfolding remove_items
remove_items-Sets r [] fs = Sets-none (λ _. nothing) fs
remove_items-Sets r (name ∷ names) fs =
    then-Sets name names (λ _. nothing) fs (remove_item r name fs)
      (λ _ mid. remove_items r names mid) (λ a b p h. refl) (λ a p. refl)
      (if-either (Sets (name ∷ []) (λ _. nothing) fs) (is_own name) (fs, ok tt)
        (removed (r.remove_fault name) name fs) (λ own. own-Sets name (λ _. nothing) fs own)
        (λ other. removed-Sets (r.remove_fault name) name fs))
      (λ mid. remove_items-Sets r names mid)

-- The files of a snapshot over those that are there.
abbrev on_top : Files → Files → Files
on_top snapshot fs p = over (snapshot p) (fs p)

over_twice : (x y : Option Node) → over x (over x y) ≡ over x y
over_twice none y = refl
over_twice (some a) y = refl

copied-Sets :
    (fault : Fault) (name : String) (snapshot fs : Files)
    → Sets (name ∷ []) (on_top snapshot) fs (copied fault name snapshot fs)
copied-Sets none name snapshot fs = replaced-Sets name (on_top snapshot) fs
copied-Sets (some (e, left)) name snapshot fs = tt

copy_items-Sets :
    (r : Restoring) (snapshot : Files) (names : List String) (fs : Files)
    → Sets names (on_top snapshot) fs (copy_items r snapshot names fs)
unfolding copy_items
copy_items-Sets r snapshot [] fs = Sets-none (on_top snapshot) fs
copy_items-Sets r snapshot (name ∷ names) fs =
    then-Sets name names (on_top snapshot) fs (copy_item r snapshot name fs)
      (λ _ mid. copy_items r snapshot names mid) (λ a b p h. ap (over (snapshot p)) h)
      (λ a p. over_twice (snapshot p) (a p))
      (if-either (Sets (name ∷ []) (on_top snapshot) fs) (is_own name) (fs, ok tt)
        (copied (r.copy_fault name) name snapshot fs)
        (λ own. own-Sets name (on_top snapshot) fs own)
        (λ other. copied-Sets (r.copy_fault name) name snapshot fs))
      (λ mid. copy_items-Sets r snapshot names mid)

-- The listing of a directory has every top-level name below which something is.
abbrev pub Lists : List String → Files → Type 0
Lists names fs = (p : Place) → is_kept p ≡ false → is_among names p ≡ false → fs p ≡ none

-- After a restoration that returns, every place is that of the snapshot, except for the top-level ".git" and
-- ".evoci", which stay.
abbrev pub Restored : Files → Files → Files × Outcome (Unit {0}) → Type 0
Restored snapshot fs (after, raise e) = Unit
Restored snapshot fs (after, ok u) =
    (p : Place) → after p ≡ (if is_kept p then fs p else snapshot p)

over-none : (x : Option Node) → over x none ≡ x
over-none none = refl
over-none (some a) = refl

both-Restored :
    (r : Restoring) (snapshot fs : Files) (x : Files × Outcome (Unit {0}))
    → Lists r.present fs
    → Lists r.saved snapshot
    → Sets r.present (λ _. nothing) fs x
    → Keeps fs x
    → Restored snapshot fs (and_then x (λ _ mid. copy_items r snapshot r.saved mid))
both-Restored r snapshot fs (mid, raise e) here there s k = tt
both-Restored r snapshot fs (mid, ok u) here there s k =
    joined (copy_items r snapshot r.saved mid) (copy_items-Sets r snapshot r.saved mid)
      (copy_items-Keeps r snapshot r.saved mid)
  where
    emptied : (p : Place) → is_kept p ≡ false → mid p ≡ none
    emptied p out = elim (Bool-cases (is_among r.present p)) [
      | inl h ↦ s p out ∙ rw h refl
      | inr h ↦ s p out ∙ rw h (here p out h)
    ]

    placed :
        (p : Place) (z : Option Node)
        → is_kept p ≡ false
        → z ≡ (if is_among r.saved p then over (snapshot p) (mid p) else mid p)
        → z ≡ snapshot p
    placed p z out is = elim (Bool-cases (is_among r.saved p)) [
      | inl h ↦ (rw h at is) ∙ (ap (over (snapshot p)) (emptied p out) ∙ over-none (snapshot p))
      | inr h ↦ (rw h at is) ∙ (emptied p out ∙ sym (there p out h))
    ]

    joined :
        (y : Files × Outcome (Unit {0}))
        → Sets r.saved (on_top snapshot) mid y
        → Keeps mid y
        → Restored snapshot fs y
    joined (after, raise e) t j = tt
    joined (after, ok v) t j = λ p. elim (Bool-cases (is_kept p)) [
      | inl kept ↦ rw kept (j p kept ∙ k p kept)
      | inr out ↦ rw out (placed p (after p) out (t p out))
    ]

pub restore_batch_snapshot-Restored :
    (r : Restoring) (snapshot fs : Files)
    → Lists r.present fs
    → Lists r.saved snapshot
    → Restored snapshot fs (restore_batch_snapshot r snapshot fs)
unfolding restore_batch_snapshot
restore_batch_snapshot-Restored r snapshot fs here there =
    both-Restored r snapshot fs (remove_items r r.present fs) here there
      (remove_items-Sets r r.present fs) (remove_items-Keeps r r.present fs)
