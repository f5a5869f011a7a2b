-- ===== src/Tools/Scope/Safety.antt =====
-- src/evoci/tools/scope.py: a path that the write scope normalises stays inside of every workspace.
use mathlib.Core.List.{reverse, reverse-append, reverse-reverse, reverse-cons, append_assoc}
use evo_ci.Prelude.{
  ◌≡◌, refl, String, some, List, [], ◌∷◌, ◌++◌, Bool, true, false, not, ◌&&◌, ◌||◌, ◌==◌, arith, ap,
  sym, ◌∙◌, any, is_empty, ok, raise, eq_refl, if◌then◌else◌, contains, >>=-ok, Raised,
}
use mathlib.Core.Path.{subst}
use evo_ci.Tools.Paths.{parts, join, is_absolute, collapse, below, resolve, strip}
use evo_ci.Tools.Paths.Split.{AreComponents, parts-AreComponents, parts-join, is_absolute-join}
use evo_ci.Tools.Scope.{normalize_write_path, assert_write_path_allowed}

abbrev pub is_up : String → Bool
is_up w = w == ".."

collapse-without_up :
    (stack ws : List String) → any is_up ws ≡ false → collapse stack ws ≡ reverse ws ++ stack
unfolding collapse
collapse-without_up stack [] h = refl
collapse-without_up stack (w ∷ ws) h =
    let first : is_up w ≡ false = ground (arith, h) in
    rw first (
      collapse-without_up (w ∷ stack) ws (ground (arith, h))
      ∙ sym (ap (λ x. x ++ stack) (reverse-cons w ws) ∙ append_assoc (reverse ws) (w ∷ []) stack))

below-append : (root ws : List String) → below root (root ++ ws) ≡ some ws
unfolding below
below-append [] ws = refl
below-append (r ∷ rs) ws = rw (eq_refl r) (below-append rs ws)

-- A relative path without ".." resolves, below any root, to its own components.
pub resolve_inside :
    (root : List String) (path : String)
    → is_absolute path ≡ false
    → any is_up (parts path) ≡ false
    → resolve root path ≡ ok (parts path)
unfolding resolve
resolve_inside root path relative h =
    let back : reverse (reverse (parts path) ++ reverse root) ≡ root ++ parts path =
      reverse-append (reverse (parts path)) (reverse root)
      ∙ rw (reverse-reverse root, reverse-reverse (parts path)) refl in
    rw
      (
        relative,
        collapse-without_up (reverse root) (parts path) h,
        back,
        below-append root (parts path),
        resolve,
      )
      refl

normalized :
    (path p : String)
    → normalize_write_path path ≡ ok p
    → (p ≡ join (parts (strip path)))
      × (is_empty (parts (strip path)) ≡ false)
      × (any is_up (parts (strip path)) ≡ false)
unfolding normalize_write_path
normalized path p h = ground (arith, h)

passes :
    (empty listed : Bool) (e : Raised) (q p : String)
    → (if not empty && not listed then raise e else ok q) ≡ ok p
    → (q ≡ p) × (empty || listed ≡ true)
passes true listed e q p h = (cc h, refl)
passes false true e q p h = (cc h, refl)
passes false false e q p h = cc

allowed :
    (path : String) (scope : List String) (p : String)
    → assert_write_path_allowed path scope ≡ ok p
    → (normalize_write_path path ≡ ok p) × (is_empty scope || contains scope p ≡ true)
unfolding assert_write_path_allowed
allowed path scope p h =
    let (q, tested, normal) = >>=-ok (normalize_write_path path) _ h in
    let (same, inside) = passes (is_empty scope) (contains scope q) _ q p tested in
    (normal ∙ ap ok same, subst (λ x. is_empty scope || contains scope x ≡ true) same inside)

-- A path that the scope allows a task to write is relative, resolves below every root to its own
-- components, none of which is "..", and is one of the paths of the scope, unless the scope is empty.
pub assert_write_path_allowed-inside :
    (root : List String) (path : String) (scope : List String) (p : String)
    → assert_write_path_allowed path scope ≡ ok p
    → (is_absolute p ≡ false)
      × (resolve root p ≡ ok (parts p))
      × (any is_up (parts p) ≡ false)
      × (is_empty (parts p) ≡ false)
      × (is_empty scope || contains scope p ≡ true)
assert_write_path_allowed-inside root path scope p h =
    let (normal, inside) = allowed path scope p h in
    let (named, there, safe) = normalized path p normal in
    let ws = parts (strip path) in
    let good : AreComponents ws = parts-AreComponents (strip path) in
    let same : parts p ≡ ws = ap parts named ∙ parts-join ws there good in
    let relative : is_absolute p ≡ false = ap is_absolute named ∙ is_absolute-join ws there good in
    let no_up : any is_up (parts p) ≡ false = ap (any is_up) same ∙ safe in
    (relative, resolve_inside root p relative no_up, no_up, ap is_empty same ∙ there, inside)
