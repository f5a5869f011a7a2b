-- ===== src/Agents/ToolLoop/Pages/Whole.antt =====
-- Reading the pages of a cached result of src/evoci/agents/tool_loop.py one after the other.
use evo_ci.Prelude.Dict
use evo_ci.Prelude.{
  ℕ, zero, suc, ◌+◌, ◌≤◌, ◌≡◌, refl, sym, ◌∙◌, String, Option, none, some, List, [], ◌∷◌, ◌++◌,
  Outcome, ok, raise, ◌>>=◌, length, arith, other_error, leb, true, false, Bool-cases, ap, inl, inr,
}
use native.Mathlib.Nat.{zero-add, suc-add}
use mathlib.Core.List.{append-nil}
use evo_ci.Agents.ToolLoop.Pages.{take, drop, page_of, read_tool_result}

-- A client that asks for the page at `next_offset` until there is none.
abbrev pub follow : (ℕ → Outcome (List ℕ)) → List ℕ → Option ℕ → Outcome (List ℕ)
follow more content none = ok content
follow more content (some next) = more next >>= λ rest. ok (content ++ rest)

unfoldable pub read_on : ℕ → List (String × List ℕ) → String → ℕ → ℕ → Outcome (List ℕ)
read_on zero cached id limit offset = raise (other_error "out of requests")
read_on (suc n) cached id limit offset = read_tool_result cached id offset limit >>= λ page.
    follow (read_on n cached id limit) page.content page.next_offset

length-take : (n : ℕ) (xs : List ℕ) → length (take n xs) ≤ n
unfolding take
length-take n [] = omega arith
length-take zero (x ∷ xs) = omega arith
length-take (suc n) (x ∷ xs) = omega (arith, length-take n xs)

take-drop : (n : ℕ) (xs : List ℕ) → take n xs ++ drop n xs ≡ xs
unfolding take drop
take-drop n [] = refl
take-drop zero (x ∷ xs) = refl
take-drop (suc n) (x ∷ xs) = ap (λ ys. x ∷ ys) (take-drop n xs)

-- What a page leaves is what lies behind its end.
drop-rest :
    (m n : ℕ) (xs : List ℕ)
    → take n (drop m xs) ++ drop (m + length (take n (drop m xs))) xs ≡ drop m xs
unfolding take drop
drop-rest m n [] = refl
drop-rest zero zero (x ∷ xs) = refl
drop-rest zero (suc n) (x ∷ xs) =
    rw (zero-add (suc (length (take n xs)))) (ap (λ ys. x ∷ ys) (take_rest n xs))
  where
    take_rest : (n : ℕ) (xs : List ℕ) → take n xs ++ drop (length (take n xs)) xs ≡ xs
    take_rest n [] = refl
    take_rest zero (x ∷ xs) = refl
    take_rest (suc n) (x ∷ xs) = ap (λ ys. x ∷ ys) (take_rest n xs)
drop-rest (suc m) n (x ∷ xs) = rw (suc-add m (length (take n (drop m xs)))) (drop-rest m n xs)

drop_zero : (xs : List ℕ) → drop 0 xs ≡ xs
unfolding drop
drop_zero [] = refl
drop_zero (x ∷ xs) = refl

drop_beyond : (n : ℕ) (xs : List ℕ) → length xs ≤ n → drop n xs ≡ []
unfolding drop
drop_beyond n [] h = refl
drop_beyond zero (x ∷ xs) h = ground arith
drop_beyond (suc n) (x ∷ xs) h = drop_beyond n xs (omega arith)

-- A page that is asked for inside of the text is not empty.
page_progress : (m n : ℕ) (xs : List ℕ) → suc m ≤ length xs → 1 ≤ length (take (suc n) (drop m xs))
unfolding take drop
page_progress m n [] h = omega arith
page_progress zero n (x ∷ xs) h = omega arith
page_progress (suc m) n (x ∷ xs) h = page_progress m n xs (omega arith)

-- The rest of a text from a place inside of it: a page that is the last one, or one that another follows.
last_page :
    (m l : ℕ) (raw : List ℕ)
    → leb (length raw) (m + length (take l (drop m raw))) ≡ true
    → take l (drop m raw) ≡ drop m raw
last_page m l raw done =
    sym (append-nil (take l (drop m raw)))
    ∙ (ap (λ ys. take l (drop m raw) ++ ys)
          (sym (drop_beyond (m + length (take l (drop m raw))) raw (ground arith)))
        ∙ drop-rest m l raw)

page_read :
    (l m : ℕ) (id : String) (raw : List ℕ) (cached : List (String × List ℕ))
    → Dict.lookup id cached ≡ some raw
    → read_tool_result cached id m l ≡ ok (page_of id m l raw)
unfolding read_tool_result
page_read l m id raw cached held = rw held refl

one_page :
    (n l m : ℕ) (id : String) (raw : List ℕ) (cached : List (String × List ℕ))
    → Dict.lookup id cached ≡ some raw
    → leb (length raw) (m + length (take l (drop m raw))) ≡ true
    → read_on (suc n) cached id l m ≡ ok (drop m raw)
unfolding read_on
one_page n l m id raw cached held done =
    rw (page_read l m id raw cached held, done) (ap ok (last_page m l raw done))

more_pages :
    (n l m : ℕ) (id : String) (raw : List ℕ) (cached : List (String × List ℕ))
    → Dict.lookup id cached ≡ some raw
    → leb (length raw) (m + length (take l (drop m raw))) ≡ false
    → let next = m + length (take l (drop m raw)) in
      read_on n cached id l next ≡ ok (drop next raw)
      → read_on (suc n) cached id l m ≡ ok (drop m raw)
unfolding read_on
more_pages n l m id raw cached held more rest =
    rw (page_read l m id raw cached held, more, rest) (ap ok (drop-rest m l raw))

-- From any place inside a cached text, pages of any positive size, joined, give the rest of it.
read_on-rest :
    (n l m : ℕ) (id : String) (raw : List ℕ) (cached : List (String × List ℕ))
    → Dict.lookup id cached ≡ some raw
    → length raw ≤ m + n
    → read_on (suc n) cached id (suc l) m ≡ ok (drop m raw)
read_on-rest zero l m id raw cached held enough =
    one_page zero (suc l) m id raw cached held (ground arith)
read_on-rest (suc n) l m id raw cached held enough =
    elim (Bool-cases (leb (length raw) (m + length (take (suc l) (drop m raw))))) [
      | inl done ↦ one_page (suc n) (suc l) m id raw cached held done
      | inr more ↦ more_pages (suc n) (suc l) m id raw cached held more (
          read_on-rest n l (m + length (take (suc l) (drop m raw))) id raw cached held
            (ground (arith, page_progress m l raw (ground arith))))
    ]

-- A cached result is read whole: its text has at most so many pages as characters and one more, and the
-- pages that a client gets by following `next_offset` from 0, of any size above 0, joined, are the text.
pub read_on-whole :
    (l : ℕ) (id : String) (raw : List ℕ) (cached : List (String × List ℕ))
    → 1 ≤ l
    → Dict.lookup id cached ≡ some raw
    → read_on (suc (length raw)) cached id l 0 ≡ ok raw
read_on-whole zero id raw cached positive held = ground arith
read_on-whole (suc l) id raw cached positive held =
    read_on-rest (length raw) l 0 id raw cached held (omega arith) ∙ ap ok (drop_zero raw)
