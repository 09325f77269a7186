-- ===== src/Engine/Manual/Refs.antt =====
-- The references of src/engine/providers.manual.ts: what `refOf` writes, `taskIdOf` reads.
use qrib.Common.{
  ◌≡◌, length, ◌++◌, some, true, ◌↔◌, codes, drop, ◌+◌, sym, ap, ◌∙◌, Bool-cases, length-append,
  ◌&&◌, starts_with-append, ℕ, drop-length-append, inl, ◌∷◌, refl, arith, ==_iff, inr,
}
use qrib.Engine.Manual.{ref_of, task_id_of, is_task_id, Text, starts_with}
use mathlib.Core.List.{append_assoc, []}

starts_with-split : (ref p : Text) → starts_with ref p ≡ true → ref ≡ p ++ drop (length p) ref
starts_with-split ref [] h = refl
starts_with-split [] (d ∷ p) h = absurd (ground (arith, h))
starts_with-split (c ∷ ref) (d ∷ p) h =
    let same : c ≡ d = (==_iff c d).0 (ground (arith, h)) in
    ap (λ (s : Text). c ∷ s) (starts_with-split ref p (ground (arith, h)))
    ∙ ap (λ (e : ℕ). e ∷ (p ++ drop (length p) ref)) same

dash_length : (prefix : Text) → length (prefix ++ codes "-") ≡ length prefix + 1
dash_length prefix = length-append prefix (codes "-")

read_back :
    (prefix id : Text) → is_task_id id ≡ true → task_id_of (ref_of prefix id) prefix ≡ some id
unfolding task_id_of
read_back prefix id h =
    let split : ref_of prefix id ≡ (prefix ++ codes "-") ++ id =
      sym (append_assoc prefix (codes "-") id) in
    let starts : starts_with (ref_of prefix id) (prefix ++ codes "-") ≡ true =
      ap (λ (s : Text). starts_with s (prefix ++ codes "-")) split
      ∙ starts_with-append (prefix ++ codes "-") id in
    let cut : drop (length prefix + 1) (ref_of prefix id) ≡ id =
      ap (λ (s : Text). drop (length prefix + 1) s) split
      ∙ ap (λ (n : ℕ). drop n ((prefix ++ codes "-") ++ id)) (sym (dash_length prefix))
      ∙ drop-length-append (prefix ++ codes "-") id in
    rw (starts, cut, h) refl

reads :
    (ref prefix id : Text)
    → task_id_of ref prefix ≡ some id
    → (is_task_id id ≡ true) × (ref ≡ ref_of prefix id)
unfolding task_id_of
reads ref prefix id e =
    let p = prefix ++ codes "-" in
    let rest = drop (length prefix + 1) ref in
    elim (Bool-cases (starts_with ref p && is_task_id rest)) [
      | inl good ↦
          let same : rest ≡ id = ground (arith, e, good) in
          let whole : ref ≡ p ++ rest =
            starts_with-split ref p (ground (arith, good))
            ∙ ap (λ (n : ℕ). p ++ drop n ref) (dash_length prefix) in
          (
            ap is_task_id (sym same) ∙ ground (arith, good),
            whole ∙ append_assoc prefix (codes "-") rest ∙ ap (ref_of prefix) same,
          )
      | inr bad ↦ absurd (ground (arith, e, bad))
    ]

-- `taskIdOf` reads a task from a reference exactly where the reference is what `refOf` writes for a
-- task whose id is 36 hexadecimal digits and dashes.
pub task_id_of_iff :
    (ref prefix id : Text)
    → (task_id_of ref prefix ≡ some id) ↔ ((is_task_id id ≡ true) × (ref ≡ ref_of prefix id))
task_id_of_iff ref prefix id =
    (reads ref prefix id, λ h. ap (λ (s : Text). task_id_of s prefix) h.1 ∙ read_back prefix id h.0)
