-- ===== src/Tools/Patch/Restore/Attempt.antt =====
-- src/evoci/tools/patch.py, `restore_attempt_writes`: an attempt that is taken back.
use evo_ci.Prelude.{
  ◌≡◌, refl, String, Option, some, none, List, [], ◌∷◌, Bool, true, false, ◌==◌, eq_iff, arith, ap,
  sym, ◌∙◌, ok, Bool-cases, inl, inr, ◌⊎◌, if◌then◌else◌, All, or_else, >>=-ok, ok_inj, eq_refl,
}
use mathlib.Core.Path.{subst}
use evo_ci.Prelude.Dict
use evo_ci.Tools.Paths.{resolve}
use evo_ci.Tools.Filesystem.{Place, Files, read_back}
use evo_ci.Tools.Filesystem.Views.{Texts, texts, same_place-eq}
use evo_ci.Tools.Patch.{FileBaseline, same_text}
use evo_ci.Tools.Patch.Restore.{
  Restored, restore_all, eligible, no_baseline, restore_attempt_writes,
}
use evo_ci.Tools.Patch.Restore.Returns.{
  and_then-ok, hits, leads, AllBring, reaches, restore_all-texts,
}

module _ (root : List String) where
  -- The content that a restoration takes for a path.
  abbrev pub content_for : List (String × FileBaseline) → String → Option String
  content_for baseline path = (or_else (Dict.lookup path baseline) (no_baseline root)).content

  entry : List (String × FileBaseline) → String → String × FileBaseline
  entry baseline path = (path, or_else (Dict.lookup path baseline) (no_baseline root))

  if-AllBring :
      (p : Place) (t : Option String) (test : Bool) (e : String × FileBaseline)
      (more bs : List (String × FileBaseline))
      → ok (if test then e ∷ more else more) ≡ ok bs
      → (leads root e.0 p ≡ true → e.1.content ≡ t)
      → AllBring root p t more
      → AllBring root p t bs
  if-AllBring p t true e more bs h one all = subst (AllBring root p t) (ok_inj _ _ h) (one, all)
  if-AllBring p t false e more bs h one all = subst (AllBring root p t) (ok_inj _ _ h) all

  pub eligible-AllBring :
      (fs : Files) (baseline : List (String × FileBaseline))
      (written : List (String × Option String)) (bs : List (String × FileBaseline)) (p : Place)
      (t : Option String)
      → eligible root fs baseline written ≡ ok bs
      → All (λ w. leads root w.0 p ≡ true → content_for baseline w.0 ≡ t) written
      → AllBring root p t bs
  unfolding eligible entry
  eligible-AllBring fs baseline [] bs p t h all = subst (AllBring root p t) (ok_inj _ _ h) tt
  eligible-AllBring fs baseline ((path, applied) ∷ rest) bs p t h all =
      let (at, inner, _) = >>=-ok (resolve root path) _ h in
      let (more, last, later) = >>=-ok (eligible root fs baseline rest) _ inner in
      if-AllBring p t (same_text (texts fs at) applied) (entry baseline path) more bs last all.0
        (eligible-AllBring fs baseline rest more p t later all.1)

  if-reaches :
      (p : Place) (test : Bool) (e : String × FileBaseline) (more bs : List (String × FileBaseline))
      → ok (if test then e ∷ more else more) ≡ ok bs
      → (test ≡ true) × (leads root e.0 p ≡ true) ⊎ (reaches root p more ≡ true)
      → reaches root p bs ≡ true
  if-reaches p true e more bs h (inl (t, led)) =
      subst (λ x. reaches root p x ≡ true) (ok_inj _ _ h) (ground (arith, led))
  if-reaches p true e more bs h (inr r) =
      subst (λ x. reaches root p x ≡ true) (ok_inj _ _ h) (ground (arith, r))
  if-reaches p false e more bs h (inl (t, led)) = cc t
  if-reaches p false e more bs h (inr r) = subst (λ x. reaches root p x ≡ true) (ok_inj _ _ h) r

  same_text_refl : (a b : Option String) → a ≡ b → same_text a b ≡ true
  same_text_refl none b h = subst (λ x. same_text none x ≡ true) h refl
  same_text_refl (some a) b h = subst (λ x. same_text (some a) x ≡ true) h (eq_refl a)

  pub eligible-reaches :
      (fs : Files) (baseline : List (String × FileBaseline))
      (written : List (String × Option String)) (bs : List (String × FileBaseline)) (p : Place)
      (path : String) (v : Option String)
      → eligible root fs baseline written ≡ ok bs
      → Dict.lookup path written ≡ some v
      → leads root path p ≡ true
      → texts fs p ≡ v
      → reaches root p bs ≡ true
  unfolding eligible entry
  eligible-reaches fs baseline [] bs p path v h there led same = cc
  eligible-reaches fs baseline ((key, applied) ∷ rest) bs p path v h there led same =
      let (at, inner, to) = >>=-ok (resolve root key) _ h in
      let (more, last, later) = >>=-ok (eligible root fs baseline rest) _ inner in
      if-reaches p (same_text (texts fs at) applied) (entry baseline key) more bs last
        (elim (Bool-cases (key == path)) [
          | inl hit ↦
              let key_led : leads root key p ≡ true =
                ap (λ k. leads root k p) ((eq_iff key path).0 hit) ∙ led in
              let here : at ≡ p = same_place-eq at p (sym (ap (λ r. hits root r p) to) ∙ key_led) in
              let value : applied ≡ v = cc (rw hit at there) in
              inl (
                same_text_refl (texts fs at) applied (ap (texts fs) here ∙ same ∙ sym value),
                key_led,
              )
          | inr miss ↦
              inr
                (eligible-reaches fs baseline rest more p path v later (rw miss at there) led same)
        ])

  -- The texts are the original ones, or written under an entry that leads root to their place.
  abbrev pub Tracked : Texts → List (String × Option String) → Texts → Place → Type 0
  Tracked original written ts p =
      (ts p ≡ original p)
      ⊎ ((path : String) × (Dict.lookup path written ≡ some (ts p)) × (leads root path p ≡ true))

  -- The baseline has the original text of every path that was written.
  abbrev pub KnowsAll :
      List (String × FileBaseline) → Texts → List (String × Option String) → Place → Type 0
  KnowsAll baseline original written p =
      All (λ w. leads root w.0 p ≡ true → content_for baseline w.0 ≡ original p) written

  settled :
      (original : Texts) (fs after : Files) (bs : List (String × FileBaseline)) (p : Place)
      → (texts fs p ≡ original p) ⊎ (reaches root p bs ≡ true)
      → texts after p ≡ (if reaches root p bs then original p else texts fs p)
      → texts after p ≡ original p
  settled original fs after bs p h a = elim (Bool-cases (reaches root p bs)) [
    | inl r ↦ rw r at a
    | inr n ↦ elim h [ inl same ↦ (rw n at a) ∙ same | inr r ↦ cc (n, r) ]
  ]

  pub restore_attempt_writes-texts :
      (baseline : List (String × FileBaseline)) (written : List (String × Option String))
      (fs after : Files) (res : Restored) (original : Texts) (p : Place)
      → restore_attempt_writes root baseline written fs ≡ (after, ok res)
      → read_back (original p) ≡ original p
      → Tracked original written (texts fs) p
      → KnowsAll baseline original written p
      → texts after p ≡ original p
  unfolding restore_attempt_writes
  restore_attempt_writes-texts baseline written fs after res original p done read tracked knows =
      let (mid, bs, chosen_bs, rest) =
        and_then-ok (fs, eligible root fs baseline written) _ after res done in
      let elig : eligible root fs baseline written ≡ ok bs = ap (λ r. r.1) chosen_bs in
      let here : fs ≡ mid = ap (λ r. r.0) chosen_bs in
      settled original fs after bs p
        (elim tracked [
          | inl same ↦ inl same
          | inr (path, there, led) ↦
              inr (eligible-reaches fs baseline written bs p path (texts fs p) elig there led refl)
        ])
        (restore_all-texts root bs ([], []) res fs after p (original p)
          (subst (λ x. restore_all root bs ([], []) x ≡ (after, ok res)) (sym here) rest) read
          (eligible-AllBring fs baseline written bs p (original p) elig knows))
