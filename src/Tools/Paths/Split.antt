-- ===== src/Tools/Paths/Split.antt =====
-- Splitting a text at its slashes and joining the components again, for src/evoci/tools/scope.py.
use Prim.Native.Char.{Char}
use Prim.Native.String.append.{cons, nil}
use evo_ci.Prelude.{
  ◌≡◌, refl, String, List, [], ◌∷◌, Bool, true, false, ◌||◌, ◌⧺◌, arith, All, ap, ◌∙◌, keep,
  is_empty, Bool-cases, inl, inr,
}
use evo_ci.Tools.Paths.{split, is_slash, attach, parts, join, is_component, is_absolute}

-- A text with a slash.
abbrev pub has_slash : String → Bool
has_slash String.[] = false
has_slash (String.◌∷◌ c s) = is_slash c || has_slash s

abbrev Plain : List String → Type 0
Plain ws = All (λ w. has_slash w ≡ false) ws

attach-Plain : (c : Char) (ws : List String) → is_slash c ≡ false → Plain ws → Plain (attach c ws)
attach-Plain c [] h plain = (ground (arith, h), tt)
attach-Plain c (w ∷ ws) h plain = (ground (arith, h, plain.0), plain.1)

split-Plain : (s : String) → Plain (split s)
unfolding split
split-Plain String.[] = (refl, tt)
split-Plain (String.◌∷◌ c s) = elim (Bool-cases (is_slash c)) [
  | inl h ↦ rw h (refl, split-Plain s)
  | inr h ↦ rw h (attach-Plain c (split s) h (split-Plain s))
]

slash_parts :
    (c : Char) (s : String)
    → has_slash (String.◌∷◌ c s) ≡ false
    → (is_slash c ≡ false) × (has_slash s ≡ false)
slash_parts c s h = (ground (arith, h), ground (arith, h))

split_alone : (w : String) → has_slash w ≡ false → split w ≡ w ∷ []
unfolding split
split_alone String.[] h = refl
split_alone (String.◌∷◌ c s) h =
    let (first, rest) = slash_parts c s h in rw (first, split_alone s rest) refl

slash_first : (rest : String) → "/" ⧺ rest ≡ String.◌∷◌ "/" rest
slash_first rest = cons "/" "" rest ∙ ap (String.◌∷◌ "/") (nil rest)

split_joined : (w rest : String) → has_slash w ≡ false → split (w ⧺ "/" ⧺ rest) ≡ w ∷ split rest
unfolding split
split_joined String.[] rest h = ap split (nil ("/" ⧺ rest) ∙ slash_first rest)
split_joined (String.◌∷◌ c s) rest h =
    let (first, later) = slash_parts c s h in
    ap split (cons c s ("/" ⧺ rest)) ∙ rw (first, split_joined s rest later) refl

split-join : (w : String) (ws : List String) → Plain (w ∷ ws) → split (join (w ∷ ws)) ≡ w ∷ ws
unfolding join
split-join w [] plain = split_alone w plain.0
split-join w (v ∷ vs) plain =
    split_joined w (join (v ∷ vs)) plain.0 ∙ ap (λ x. w ∷ x) (split-join v vs plain.1)

-- Components: no slash, not empty, and not ".".
abbrev pub AreComponents : List String → Type 0
AreComponents ws = All (λ w. (has_slash w ≡ false) × (is_component w ≡ true)) ws

keep_components : (ws : List String) → Plain ws → AreComponents (keep is_component ws)
keep_components [] plain = tt
keep_components (w ∷ ws) plain = elim (Bool-cases (is_component w)) [
  | inl h ↦ rw h ((plain.0, h), keep_components ws plain.1)
  | inr h ↦ rw h (keep_components ws plain.1)
]

pub parts-AreComponents : (s : String) → AreComponents (parts s)
unfolding parts
parts-AreComponents s = keep_components (split s) (split-Plain s)

no_slashes : (ws : List String) → AreComponents ws → Plain ws
no_slashes [] h = tt
no_slashes (w ∷ ws) h = (h.0.0, no_slashes ws h.1)

keep_all : (ws : List String) → AreComponents ws → keep is_component ws ≡ ws
keep_all [] h = refl
keep_all (w ∷ ws) h = rw h.0.1 (ap (λ x. w ∷ x) (keep_all ws h.1))

-- Joining components and taking the result apart gives them back.
pub parts-join : (ws : List String) → is_empty ws ≡ false → AreComponents ws → parts (join ws) ≡ ws
unfolding parts
parts-join [] there h = cc
parts-join (w ∷ ws) there h =
    ap (keep is_component) (split-join w ws (no_slashes (w ∷ ws) h)) ∙ keep_all (w ∷ ws) h

absolute_first :
    (w rest : String) → has_slash w ≡ false → is_component w ≡ true → is_absolute (w ⧺ rest) ≡ false
absolute_first String.[] rest plain h = absurd (ground (arith, h))
absolute_first (String.◌∷◌ c s) rest plain h =
    ap is_absolute (cons c s rest) ∙ (slash_parts c s plain).0

absolute_alone : (w : String) → has_slash w ≡ false → is_component w ≡ true → is_absolute w ≡ false
absolute_alone String.[] plain h = refl
absolute_alone (String.◌∷◌ c s) plain h = (slash_parts c s plain).0

pub is_absolute-join :
    (ws : List String) → is_empty ws ≡ false → AreComponents ws → is_absolute (join ws) ≡ false
unfolding join
is_absolute-join [] there h = cc
is_absolute-join (w ∷ []) there h = absolute_alone w h.0.0 h.0.1
is_absolute-join (w ∷ v ∷ vs) there h = absolute_first w ("/" ⧺ join (v ∷ vs)) h.0.0 h.0.1
