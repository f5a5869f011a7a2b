-- ===== src/Tools/Registry/Changes.antt =====
-- The changed paths that a worker of src/evoci/tools/registry.py reports at its end.
use evo_ci.Prelude.{
  ◌≡◌, ap, refl, sym, ◌∙◌, String, Option, none, some, List, [], ◌∷◌, Bool, true, false, not, ◌&&◌,
  ◌||◌, ◌==◌, arith, eq_iff, contains, contains_eq, or_else, if◌then◌else◌, is_some, eqb, ℤ, pos,
  negsuc, Bool-cases, inl, inr,
}
use evo_ci.Prelude.Sorted.{sorted_set-contains}
use evo_ci.Tools.Policy.{WorkerCapabilities}
use evo_ci.Tools.Registry.{
  Fields, Payload, nothing, mapping, data_class, plain, ToolResult, ToolRegistry, add, add_paths,
  reported, script_counts, exit_is_good, has_path_key, changed_after, changed_paths,
  record_changed_paths, write_path_tools,
}

-- The tools that write files themselves.
abbrev is_writer : String → Bool
is_writer name =
    "apply_patch" == name
    || "replace_text" == name
    || "create_file" == name
    || "delete_file" == name

-- A script that ended with exit code 0, or tells none, and in time.
abbrev exited_well : Option ℤ → Bool
exited_well none = true
exited_well (some (pos n)) = eqb n 0
exited_well (some (negsuc n)) = false

abbrev ended_well : Fields → Bool
ended_well f = exited_well f.exit_code && not f.timed_out

-- Whether a tool's result may name changed paths: a dict or a pydantic model of a tool that writes, or of a
-- script, where the worker may write and the script ended well.
abbrev pub counts : WorkerCapabilities → String → Payload → Bool
counts c name (mapping f) =
    is_writer name || (name == "run_skill_script" && (c.write_files && ended_well f))
counts c name nothing = false
counts c name (data_class f) = false
counts c name plain = false

abbrev in_field : Option (List String) → String → Bool
in_field none p = false
in_field (some ps) p = contains ps p

-- The paths that a result names: the empty text is none.
abbrev pub names_path : Payload → String → Bool
names_path (mapping f) p =
    not (p == "")
    && (in_field f.created_files p || in_field f.modified_files p || in_field f.deleted_files p)
names_path (data_class f) p = false
names_path nothing p = false
names_path plain p = false

pub add-contains :
    (q : String) (xs : List String) (p : String) → contains (add q xs) p ≡ (contains xs p || q == p)
add-contains q xs p = ground (arith, contains_eq xs q p)

add_paths-contains :
    (ps xs : List String) (p : String)
    → contains (add_paths ps xs) p ≡ (contains xs p || (not (p == "") && contains ps p))
add_paths-contains [] xs p = ground arith
add_paths-contains (q ∷ ps) xs p = ground (
  arith,
  add_paths-contains ps (if q == "" then xs else add q xs) p,
  add-contains q xs p,
  eq_iff q p,
  eq_iff q "",
  eq_iff p "",
)

or_else-contains :
    (o : Option (List String)) (p : String) → contains (or_else o []) p ≡ in_field o p
or_else-contains none p = refl
or_else-contains (some ps) p = refl

reported-contains :
    (f : Fields) (xs : List String) (p : String)
    → contains (reported f xs) p ≡ (contains xs p || names_path (mapping f) p)
reported-contains f xs p =
    let c = or_else f.created_files [] in
    let m = or_else f.modified_files [] in
    let d = or_else f.deleted_files [] in
    ground (
      arith,
      add_paths-contains d (add_paths m (add_paths c xs)) p,
      add_paths-contains m (add_paths c xs) p,
      add_paths-contains c xs p,
      or_else-contains f.created_files p,
      or_else-contains f.modified_files p,
      or_else-contains f.deleted_files p,
    )

exit_agrees : (o : Option ℤ) → exit_is_good o ≡ exited_well o
exit_agrees none = refl
exit_agrees (some (pos n)) = ground arith
exit_agrees (some (negsuc n)) = ground arith

-- A result without the keys of the paths names none.
no_path_key : (f : Fields) (p : String) → has_path_key f ≡ false → names_path (mapping f) p ≡ false
no_path_key f p h = by_fields f.created_files f.modified_files f.deleted_files h
  where
    by_fields :
        (a b c : Option (List String))
        → (is_some a || is_some b || is_some c) ≡ false
        → (not (p == "") && (in_field a p || in_field b p || in_field c p)) ≡ false
    by_fields none none none h = ground arith
    by_fields (some a) b c h = ground (arith, h)
    by_fields none (some b) c h = ground (arith, h)
    by_fields none none (some c) h = ground (arith, h)

after_script :
    (c : WorkerCapabilities) (f : Fields) (xs : List String) (p : String)
    → contains (changed_after c "run_skill_script" (mapping f) xs) p
      ≡ (contains xs p || (counts c "run_skill_script" (mapping f) && names_path (mapping f) p))
after_script c f xs p =
    by_tests c.write_files (exit_is_good f.exit_code) f.timed_out (exit_agrees f.exit_code)
  where
    by_tests :
        (w x t : Bool)
        → x ≡ exited_well f.exit_code
        → contains (if not (w && (x && not t) && has_path_key f) then xs else reported f xs) p ≡ (
            contains xs p
            || ((w && (exited_well f.exit_code && not t)) && names_path (mapping f) p))
    by_tests w x t h = ground (arith, h, reported-contains f xs p, no_path_key f p)

any_writer : (a b c d : Bool) → (a || (b || (c || (d || (false || false))))) ≡ (a || b || c || d)
any_writer a b c d = ground arith

after_tool :
    (c : WorkerCapabilities) (name : String) (f : Fields) (xs : List String) (p : String)
    → name == "run_skill_script" ≡ false
    → contains (changed_after c name (mapping f) xs) p
      ≡ (contains xs p || (counts c name (mapping f) && names_path (mapping f) p))
after_tool c name f xs p other =
    let flipped : ("run_skill_script" == name) ≡ false =
      elim (Bool-cases ("run_skill_script" == name)) [
        | inl is ↦ cc (
          other,
          (eq_iff name "run_skill_script").1 (sym ((eq_iff "run_skill_script" name).0 is)),
        )
        | inr differs ↦ differs
      ] in
    let any_of =
      any_writer ("apply_patch" == name) ("replace_text" == name) ("create_file" == name)
        ("delete_file" == name) in
    by_writer (contains write_path_tools name) (is_writer name) (rw flipped any_of)
  where
    by_writer :
        (w v : Bool)
        → w ≡ v
        → contains
            (if not w
              then xs
              else if name == "run_skill_script" && not (script_counts c f)
              then xs
              else reported f xs)
            p
          ≡ (contains xs p
              || ((v || (name == "run_skill_script" && (c.write_files && ended_well f)))
                  && names_path (mapping f) p))
    by_writer true v h = rw (other, sym h) (reported-contains f xs p)
    by_writer false v h = rw (other, sym h) (ground arith)

changed_after-contains :
    (c : WorkerCapabilities) (name : String) (payload : Payload) (xs : List String) (p : String)
    → contains (changed_after c name payload xs) p
      ≡ (contains xs p || (counts c name payload && names_path payload p))
changed_after-contains c name nothing xs p = ground arith
changed_after-contains c name (data_class f) xs p = ground arith
changed_after-contains c name plain xs p = ground arith
changed_after-contains c name (mapping f) xs p = elim (Bool-cases (name == "run_skill_script")) [
  | inl is ↦ rw ((eq_iff name "run_skill_script").0 is) (after_script c f xs p)
  | inr other ↦ after_tool c name f xs p other
]

module _ {S : Type 0} where
  -- After a call the worker reports what it reported before, and the paths that the result names if it is
  -- a dict or a pydantic model of "apply_patch", "replace_text", "create_file" or "delete_file", or of a script
  -- that ended with exit code 0, or tells none, and in time, of a worker that may write; and nothing else.
  pub record_changed_paths-adds :
      (r : ToolRegistry S) (name : String) (result : ToolResult) (p : String)
      → contains (changed_paths (record_changed_paths name result r)) p ≡ (
          contains (changed_paths r) p
          || (counts r.capabilities name result.payload && names_path result.payload p))
  unfolding changed_paths record_changed_paths
  record_changed_paths-adds r name result p =
      sorted_set-contains p (changed_after r.capabilities name result.payload r.changed)
      ∙ (changed_after-contains r.capabilities name result.payload r.changed p
          ∙ ap
              (λ b. b || (counts r.capabilities name result.payload && names_path result.payload p))
              (sym (sorted_set-contains p r.changed)))
