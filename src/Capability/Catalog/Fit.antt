-- ===== src/Capability/Catalog/Fit.antt =====
-- What the catalog of src/evoci/capability/retrieval.py holds.
use mathlib.Core.List.{reverse, reverse-append, reverse-reverse, reverse-cons}
use evo_ci.Prelude.{
  ℕ, zero, suc, ◌+◌, ◌-◌, ◌≤◌, ◌≡◌, refl, sym, ◌∙◌, ap, String, List, [], ◌∷◌, ◌++◌, arith, leb,
  ◌⊎◌, inl, inr, length, length-append, map, is_empty, if-either, if-both, Bool-cases,
}
use evo_ci.Tools.Paths.{codes}
use evo_ci.Capability.Catalog.{
  SkillCatalogEntry, SkillCatalog, rstrip_codes, prefix, truncate, ellipsis, total, capped,
  shortened, pop_while, fit_catalog, skill_ids,
}

length-prefix : (n : ℕ) (cs : List ℕ) → length (prefix n cs) ≤ n
unfolding prefix
length-prefix n [] = omega arith
length-prefix zero (c ∷ cs) = omega arith
length-prefix (suc n) (c ∷ cs) = omega (arith, length-prefix n cs)

length-rstrip_codes : (cs : List ℕ) → length (rstrip_codes cs) ≤ length cs
unfolding rstrip_codes
length-rstrip_codes [] = omega arith
length-rstrip_codes (c ∷ cs) = ground (arith, length-rstrip_codes cs)

length-truncate : (text : List ℕ) (n : ℕ) → length (truncate text n) ≤ n
unfolding truncate
length-truncate text n = ground (
  arith,
  length-prefix (n - 1) text,
  length-rstrip_codes (prefix (n - 1) text),
  length-append (rstrip_codes (prefix (n - 1) text)) ellipsis,
)

truncate-zero : (text : List ℕ) (n : ℕ) → n ≡ 0 → truncate text n ≡ []
unfolding truncate
truncate-zero text n h = rw h refl

-- Within the limit, or one entry alone that has lost its description.
abbrev pub Fits : ℕ → List SkillCatalogEntry → Type 0
Fits limit es =
    (total es ≤ limit) ⊎ ((e : SkillCatalogEntry) × (es ≡ e ∷ []) × (e.description ≡ []))

shortened-Fits : (limit : ℕ) (e : SkillCatalogEntry) → Fits limit (shortened limit e ∷ [])
shortened-Fits limit e =
    let room = limit - length (codes e.skill_id) - length e.name in
    elim (Bool-cases (leb (length (codes e.skill_id) + length e.name) limit)) [
      | inl fits ↦ inl (ground (arith, length-truncate e.description room, fits))
      | inr long ↦
          inr (shortened limit e, refl, truncate-zero e.description room (ground (arith, long)))
    ]

pop_while-Fits : (limit o : ℕ) (es : List SkillCatalogEntry) → Fits limit ((pop_while limit o es).0)
unfolding pop_while
pop_while-Fits limit o [] = inl (omega arith)
pop_while-Fits limit o (e ∷ []) =
    if-either (λ (p : List SkillCatalogEntry × ℕ). Fits limit (p.0)) (leb (total (e ∷ [])) limit) _
      _ (λ h. inl (ground (arith, h))) (λ h. shortened-Fits limit e)
pop_while-Fits limit o (e ∷ f ∷ es) =
    if-either (λ (p : List SkillCatalogEntry × ℕ). Fits limit (p.0))
      (leb (total (e ∷ f ∷ es)) limit) _ _ (λ h. inl (ground (arith, h)))
      (λ h. pop_while-Fits limit (o + 1) (f ∷ es))

-- What the loop leaves are the last of the entries, whose number is that of the omitted ones less than before.
abbrev Leaves : ℕ → List SkillCatalogEntry → List SkillCatalogEntry × ℕ → Type 0
Leaves o es (ys, n) =
    (dropped : List String) × (skill_ids es ≡ dropped ++ skill_ids ys)
    × (length ys + n ≡ length es + o)
    × (is_empty ys ≡ is_empty es)

pop_while-Leaves : (limit o : ℕ) (es : List SkillCatalogEntry) → Leaves o es (pop_while limit o es)
unfolding pop_while
pop_while-Leaves limit o [] = ([], refl, refl, refl)
pop_while-Leaves limit o (e ∷ []) =
    if-both (Leaves o (e ∷ [])) (leb (total (e ∷ [])) limit) _ _ ([], refl, refl, refl)
      ([], refl, refl, refl)
pop_while-Leaves limit o (e ∷ f ∷ es) =
    if-both (Leaves o (e ∷ f ∷ es)) (leb (total (e ∷ f ∷ es)) limit) _ _ ([], refl, refl, refl)
      (let (dropped, is, n, same) = pop_while-Leaves limit (o + 1) (f ∷ es) in
        (e.skill_id ∷ dropped, ap (λ xs. e.skill_id ∷ xs) is, omega (arith, n), same))

skill_ids-append :
    (es fs : List SkillCatalogEntry) → skill_ids (es ++ fs) ≡ skill_ids es ++ skill_ids fs
skill_ids-append [] fs = refl
skill_ids-append (e ∷ es) fs = ap (λ xs. e.skill_id ∷ xs) (skill_ids-append es fs)

skill_ids-reverse : (es : List SkillCatalogEntry) → skill_ids (reverse es) ≡ reverse (skill_ids es)
skill_ids-reverse [] = refl
skill_ids-reverse (e ∷ es) =
    rw
      (
        reverse-cons e es,
        reverse-cons e.skill_id (skill_ids es),
        skill_ids-append (reverse es) (e ∷ []),
        skill_ids-reverse es,
      )
      refl

length-reverse : (es : List SkillCatalogEntry) → length (reverse es) ≡ length es
length-reverse [] = refl
length-reverse (e ∷ es) =
    rw (reverse-cons e es) (omega (arith, length-append (reverse es) (e ∷ []), length-reverse es))

total-append : (es fs : List SkillCatalogEntry) → total (es ++ fs) ≡ total es + total fs
total-append [] fs = omega arith
total-append (e ∷ es) fs = omega (arith, total-append es fs)

total-reverse : (es : List SkillCatalogEntry) → total (reverse es) ≡ total es
total-reverse [] = refl
total-reverse (e ∷ es) =
    rw (reverse-cons e es) (omega (arith, total-append (reverse es) (e ∷ []), total-reverse es))

is_empty-length :
    (es fs : List SkillCatalogEntry) → length es ≡ length fs → is_empty es ≡ is_empty fs
is_empty-length [] [] h = refl
is_empty-length [] (f ∷ fs) h = ground (arith, h)
is_empty-length (e ∷ es) [] h = ground (arith, h)
is_empty-length (e ∷ es) (f ∷ fs) h = refl

skill_ids-capped : (es : List SkillCatalogEntry) → skill_ids (map capped es) ≡ skill_ids es
skill_ids-capped [] = refl
skill_ids-capped (e ∷ es) = ap (λ xs. e.skill_id ∷ xs) (skill_ids-capped es)

length-capped : (es : List SkillCatalogEntry) → length (map capped es) ≡ length es
length-capped [] = refl
length-capped (e ∷ es) = ap suc (length-capped es)

Fits-reverse : (limit : ℕ) (es : List SkillCatalogEntry) → Fits limit es → Fits limit (reverse es)
Fits-reverse limit es (inl small) = inl (omega (arith, small, total-reverse es))
Fits-reverse limit es (inr (e, is, cut)) = inr (e, ap reverse is, cut)

-- What a catalog of ranked entries holds: the first of them, the others counted, within the limit or as one.
abbrev pub Holds : ℕ → List SkillCatalogEntry → SkillCatalog → Type 0
Holds limit ranking catalog =
    ((rest : List String) × (skill_ids ranking ≡ skill_ids catalog.entries ++ rest))
    × (length catalog.entries + catalog.omitted_count ≡ length ranking)
    × (is_empty catalog.entries ≡ is_empty ranking)
    × (catalog.context_chars ≡ total catalog.entries)
    × Fits limit catalog.entries

pub fit_catalog-Holds :
    (limit : ℕ) (es : List SkillCatalogEntry) → Holds limit es (fit_catalog es limit)
unfolding fit_catalog
fit_catalog-Holds limit es =
    let start = reverse (map capped es) in
    let ys = (pop_while limit 0 start).0 in
    let (dropped, is, n, same) = pop_while-Leaves limit 0 start in
    let back : skill_ids es ≡ reverse (skill_ids start) =
      sym (skill_ids-capped es)
      ∙ sym (reverse-reverse (skill_ids (map capped es)))
      ∙ ap reverse (sym (skill_ids-reverse (map capped es))) in
    (
      (
        reverse dropped,
        back
            ∙ ap reverse is
            ∙ reverse-append dropped (skill_ids ys)
            ∙ ap (λ xs. xs ++ reverse dropped) (sym (skill_ids-reverse ys)),
      ),
      omega (arith, n, length-reverse ys, length-reverse (map capped es), length-capped es),
      is_empty-length (reverse ys) ys (length-reverse ys)
          ∙ same
          ∙ is_empty-length start es (length-reverse (map capped es) ∙ length-capped es),
      refl,
      Fits-reverse limit ys (pop_while-Fits limit 0 start),
    )
