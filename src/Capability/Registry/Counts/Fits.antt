-- ===== src/Capability/Registry/Counts/Fits.antt =====
-- What `read_skill_memory` of src/evoci/capability/registry.py gives of a skill's memory.
use mathlib.Core.List.{
  reverse, reverse-append, reverse-reverse, append-nil, reverse-cons, append_assoc,
}
use evo_ci.Prelude.{
  ℕ, zero, suc, ◌+◌, ◌≤◌, ◌≡◌, refl, sym, ◌∙◌, ap, List, [], ◌∷◌, ◌++◌, Bool, true, false, arith,
  ltb, ◌⊎◌, inl, inr, length, length-append, Bool-cases, if-either, ◌<◌, ◌&&◌,
}
use evo_ci.Capability.Models.{SkillMemoryEntry}
use evo_ci.Capability.Registry.Counts.{first_entries, newest, entry_size, fitting, selected_entries}

-- The characters that the entries are counted with.
abbrev pub total : List SkillMemoryEntry → ℕ
total [] = 0
total (e ∷ es) = entry_size e + total es

first_entries-prefix :
    (n : ℕ) (es : List SkillMemoryEntry)
    → (rest : List SkillMemoryEntry) × (es ≡ first_entries n es ++ rest)
first_entries-prefix zero es = (es, refl)
first_entries-prefix (suc n) [] = ([], refl)
first_entries-prefix (suc n) (e ∷ es) =
    let (rest, is) = first_entries-prefix n es in (rest, ap (λ xs. e ∷ xs) is)

length-first_entries : (n : ℕ) (es : List SkillMemoryEntry) → length (first_entries n es) ≤ n
length-first_entries zero es = omega arith
length-first_entries (suc n) [] = omega arith
length-first_entries (suc n) (e ∷ es) = omega (arith, length-first_entries n es)

fitting-prefix :
    (m c : ℕ) (taken : Bool) (es : List SkillMemoryEntry)
    → (rest : List SkillMemoryEntry) × (es ≡ fitting m c taken es ++ rest)
fitting-prefix m c taken [] = ([], refl)
fitting-prefix m c taken (e ∷ es) =
    either (Bool-cases (taken && ltb m (c + entry_size e)))
      (fitting-prefix m (c + entry_size e) true es)
  where
    either :
        (taken && ltb m (c + entry_size e) ≡ true) ⊎ (taken && ltb m (c + entry_size e) ≡ false)
        → ((rest : List SkillMemoryEntry) × (es ≡ fitting m (c + entry_size e) true es ++ rest))
        → (rest : List SkillMemoryEntry) × (e ∷ es ≡ fitting m c taken (e ∷ es) ++ rest)
    either (inl full) later = (e ∷ es, rw full refl)
    either (inr room) (rest, is) = (rest, rw room (ap (λ xs. e ∷ xs) is))

fitting-total : (m c : ℕ) (es : List SkillMemoryEntry) → c ≤ m → c + total (fitting m c true es) ≤ m
fitting-total m c [] h = omega arith
fitting-total m c (e ∷ es) h =
    if-either (λ xs. c + total xs ≤ m) (ltb m (c + entry_size e)) []
      (e ∷ fitting m (c + entry_size e) true es) (λ full. omega arith)
      (λ room. omega (arith, fitting-total m (c + entry_size e) es (ground arith)))

fitting_full : (m c : ℕ) (es : List SkillMemoryEntry) → m < c → fitting m c true es ≡ []
fitting_full m c [] h = refl
fitting_full m c (e ∷ es) h =
    if-either (λ xs. xs ≡ []) (ltb m (c + entry_size e)) []
      (e ∷ fitting m (c + entry_size e) true es) (λ full. refl) (λ room. ground arith)

-- The first entry is taken; alone it may be too large.
fitting_first :
    (m : ℕ) (es : List SkillMemoryEntry)
    → (total (fitting m 0 false es) ≤ m) ⊎ (length (fitting m 0 false es) ≡ 1)
fitting_first m [] = inl (omega arith)
fitting_first m (e ∷ es) = either (Bool-cases (ltb m (0 + entry_size e)))
  where
    either :
        (ltb m (0 + entry_size e) ≡ true) ⊎ (ltb m (0 + entry_size e) ≡ false)
        → (total (fitting m 0 false (e ∷ es)) ≤ m) ⊎ (length (fitting m 0 false (e ∷ es)) ≡ 1)
    either (inl full) =
        inr (omega (arith, ap length (fitting_full m (0 + entry_size e) es (ground arith))))
    either (inr room) = inl (omega (arith, fitting-total m (0 + entry_size e) es (ground arith)))

total-append : (xs ys : List SkillMemoryEntry) → total (xs ++ ys) ≡ total xs + total ys
total-append [] ys = omega arith
total-append (x ∷ xs) ys = omega (arith, total-append xs ys)

total-reverse : (xs : List SkillMemoryEntry) → total (reverse xs) ≡ total xs
total-reverse [] = refl
total-reverse (x ∷ xs) =
    ap total (reverse-cons x xs)
    ∙ omega (arith, total-append (reverse xs) (x ∷ []), total-reverse xs)

length-reverse : (xs : List SkillMemoryEntry) → length (reverse xs) ≡ length xs
length-reverse [] = refl
length-reverse (x ∷ xs) =
    ap length (reverse-cons x xs)
    ∙ omega (arith, length-append (reverse xs) (x ∷ []), length-reverse xs)

newest-prefix :
    (n : ℕ) (es : List SkillMemoryEntry)
    → (rest : List SkillMemoryEntry) × (reverse es ≡ newest n es ++ rest)
newest-prefix zero es = ([], sym (append-nil (reverse es)))
newest-prefix (suc n) es = first_entries-prefix (suc n) (reverse es)

length-newest : (n : ℕ) (es : List SkillMemoryEntry) → length (newest (suc n) es) ≤ suc n
length-newest n es = length-first_entries (suc n) (reverse es)

fitting_some :
    (m : ℕ) (es : List SkillMemoryEntry) → 1 ≤ length es → 1 ≤ length (fitting m 0 false es)
fitting_some m [] h = h
fitting_some m (e ∷ es) h = omega arith

first_some :
    (n : ℕ) (es : List SkillMemoryEntry) → 1 ≤ length es → 1 ≤ length (first_entries (suc n) es)
first_some n [] h = h
first_some n (e ∷ es) h = omega arith

newest_some : (n : ℕ) (es : List SkillMemoryEntry) → 1 ≤ length es → 1 ≤ length (newest n es)
newest_some zero es h = omega (arith, length-reverse es, h)
newest_some (suc n) es h = first_some n (reverse es) (omega (arith, length-reverse es, h))

within_limit :
    (limit : ℕ) (es : List SkillMemoryEntry) → 1 ≤ limit → length (newest limit es) ≤ limit
within_limit zero es h = omega arith
within_limit (suc n) es h = length-newest n es

-- What an agent reads of a skill's memory are its last entries, in their order: no more than the limit,
-- if that is not 0, and no more characters than asked for, unless it is one entry alone; a memory that is
-- not empty is never read as empty.
pub selected_entries_bounds :
    (limit max_chars : ℕ) (entries : List SkillMemoryEntry)
    → let read = selected_entries limit max_chars entries in
      ((older : List SkillMemoryEntry) × (entries ≡ older ++ read))
      × (1 ≤ limit → length read ≤ limit)
      × ((total read ≤ max_chars) ⊎ (length read ≡ 1))
      × (1 ≤ length entries → 1 ≤ length read)
unfolding selected_entries
selected_entries_bounds limit max_chars entries =
    let chosen = fitting max_chars 0 false (newest limit entries) in
    let (later, cut) = newest-prefix limit entries in
    let (more, taken) = fitting-prefix max_chars 0 false (newest limit entries) in
    (
      (
        reverse (more ++ later),
        sym (reverse-reverse entries)
            ∙ (ap reverse (cut ∙ (ap (λ xs. xs ++ later) taken ∙ append_assoc chosen more later))
                ∙ reverse-append chosen (more ++ later)),
      ),
      (λ h. omega (
        arith,
        length-reverse chosen,
        ap length taken,
        length-append chosen more,
        within_limit limit entries h,
      )),
      bounded (fitting_first max_chars (newest limit entries)),
      (λ h. omega (
        arith,
        length-reverse chosen,
        fitting_some max_chars (newest limit entries) (newest_some limit entries h),
      )),
    )
  where
    bounded :
        (total (fitting max_chars 0 false (newest limit entries)) ≤ max_chars)
          ⊎ (length (fitting max_chars 0 false (newest limit entries)) ≡ 1)
        → (total (reverse (fitting max_chars 0 false (newest limit entries))) ≤ max_chars)
          ⊎ (length (reverse (fitting max_chars 0 false (newest limit entries))) ≡ 1)
    bounded (inl fits) =
        inl (omega (arith, total-reverse (fitting max_chars 0 false (newest limit entries)), fits))
    bounded (inr one) =
        inr (length-reverse (fitting max_chars 0 false (newest limit entries)) ∙ one)
