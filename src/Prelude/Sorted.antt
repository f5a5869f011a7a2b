-- ===== src/Prelude/Sorted.antt =====
-- Python's `sorted(set(…))` on texts: what it holds, and that it is in order.
use Prim.Native.Nat.{Ordering}
use Prim.Native.String.{String, compare}
use mathlib.Core.List.{List, [], ◌∷◌}
use mathlib.Core.Path.{◌≡◌, refl}
use mathlib.Core.Bool.{Bool, true, false, ◌||◌}
use native.Mathlib.Omega.{arith}
use text.Mathlib.Text.{◌==◌}
use text.Mathlib.TextEquality.{path_by_compare}
use evo_ci.Prelude.Lists.{contains}

-- `sorted(set(…))`: insertion into a sorted list, once each.
abbrev pub place_in : Ordering → String → String → List String → List String → List String
place_in Ordering.lt s t rest placed = s ∷ t ∷ rest
place_in Ordering.eq s t rest placed = t ∷ rest
place_in Ordering.gt s t rest placed = t ∷ placed

unfoldable pub insert_sorted : String → List String → List String
insert_sorted s [] = s ∷ []
insert_sorted s (t ∷ ts) = place_in (compare s t) s t ts (insert_sorted s ts)

unfoldable pub sorted_set : List String → List String
unfolding insert_sorted
sorted_set [] = []
sorted_set (s ∷ ss) = insert_sorted s (sorted_set ss)

or_twice : (a b : Bool) → (a || b) ≡ (a || (a || b))
or_twice true b = refl
or_twice false b = refl

place-contains :
    (o : Ordering) (s t x : String) (rest placed : List String)
    → (o ≡ Ordering.eq → s ≡ t)
    → contains placed x ≡ (s == x || contains rest x)
    → contains (place_in o s t rest placed) x ≡ (s == x || (t == x || contains rest x))
place-contains Ordering.lt s t x rest placed same h = refl
place-contains Ordering.eq s t x rest placed same h =
    rw (same refl) (or_twice (t == x) (contains rest x))
place-contains Ordering.gt s t x rest placed same h = ground (arith, h)

insert_sorted-contains :
    (s x : String) (ts : List String) → contains (insert_sorted s ts) x ≡ (s == x || contains ts x)
unfolding insert_sorted
insert_sorted-contains s x [] = refl
insert_sorted-contains s x (t ∷ ts) =
    place-contains (compare s t) s t x ts (insert_sorted s ts) (path_by_compare s t)
      (insert_sorted-contains s x ts)

-- Sorting keeps what a set holds.
pub sorted_set-contains :
    (x : String) (ss : List String) → contains (sorted_set ss) x ≡ contains ss x
unfolding sorted_set
sorted_set-contains x [] = refl
sorted_set-contains x (s ∷ ss) =
    ground (arith, insert_sorted-contains s x (sorted_set ss), sorted_set-contains x ss)
