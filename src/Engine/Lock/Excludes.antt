-- ===== src/Engine/Lock/Excludes.antt =====
-- `withPaymentLock` of src/engine/service.ts lets one call at a time run for a payment.
use qrib.Common.{
  ◌≡◌, ◌++◌, ◌≤◌, arith, text_eq, ◌+◌, ◌∷◌, Bool-cases, sym, ap, ◌∙◌, inl, refl, text_eq_sound, inr,
  ◌||◌, if◌then◌else◌, List, ℕ, Text, Bool, true, false, [],
}
use qrib.Engine.Lock.{
  Locks, Step, Steps, Caller, Phase, caller, is_held, release, count_running, is_running, no_calls,
  arrive, enter, leave, none_yet, then_step,
}

abbrev one_if : Bool → ℕ
one_if true = 1
one_if false = 0

-- As many calls run for a payment as its lock is held.
record IsExact (s : Locks) : Type 0 where
  at : (id : Text) → count_running id s.callers ≡ one_if (is_held id s.held)

count_running-append :
    (id : Text) (xs ys : List Caller)
    → count_running id (xs ++ ys) ≡ count_running id xs + count_running id ys
count_running-append id [] ys = omega arith
count_running-append id (c ∷ xs) ys = omega (arith, count_running-append id xs ys)

-- The call in the middle counts by itself.
count_running_middle :
    (id : Text) (before after : List Caller) (c : Caller)
    → count_running id (before ++ c ∷ after)
      ≡ count_running id before + count_running id after + (if is_running id c then 1 else 0)
count_running_middle id before after c = omega (arith, count_running-append id before (c ∷ after))

is_held-release : (id : Text) (held : List Text) → is_held id (release id held) ≡ false
is_held-release id [] = refl
is_held-release id (k ∷ held) = ground (arith, is_held-release id held)

is_held-release_other :
    (key id : Text) (held : List Text)
    → text_eq key id ≡ false
    → is_held key (release id held) ≡ is_held key held
is_held-release_other key id [] ne = refl
is_held-release_other key id (k ∷ held) ne = elim (Bool-cases (text_eq id k)) [
  | inl same ↦
      let other : text_eq key k ≡ false = ap (text_eq key) (sym (text_eq_sound id k same)) ∙ ne in
      rw (same, other) (is_held-release_other key id held ne)
  | inr kept ↦
      rw kept (ap (λ (b : Bool). text_eq key k || b) (is_held-release_other key id held ne))
]

module _ (s : Locks) (h : IsExact s) (before after : List Caller) where
  -- The count after the call of `id` in the middle has changed its phase.
  IsExact-enter :
      (id : Text)
      → s.callers ≡ before ++ caller id Phase.waiting ∷ after
      → is_held id s.held ≡ false
      → (key : Text)
      → count_running key (before ++ caller id Phase.running ∷ after)
        ≡ one_if (is_held key (id ∷ s.held))
  IsExact-enter id same free key =
      let old = sym (ap (count_running key) same) ∙ h.at key in
      elim (Bool-cases (text_eq key id)) [
        | inl own ↦
            let unheld : is_held key s.held ≡ false =
              ap (λ (k : Text). is_held k s.held) (text_eq_sound key id own) ∙ free in
            ground (
              arith,
              own,
              unheld,
              old,
              count_running_middle key before after (caller id Phase.waiting),
              count_running_middle key before after (caller id Phase.running),
            )
        | inr other ↦ ground (
          arith,
          other,
          old,
          count_running_middle key before after (caller id Phase.waiting),
          count_running_middle key before after (caller id Phase.running),
        )
      ]

  IsExact-leave :
      (id : Text)
      → s.callers ≡ before ++ caller id Phase.running ∷ after
      → (key : Text)
      → count_running key (before ++ caller id Phase.left ∷ after)
        ≡ one_if (is_held key (release id s.held))
  IsExact-leave id same key =
      let old = sym (ap (count_running key) same) ∙ h.at key in
      elim (Bool-cases (text_eq key id)) [
        | inl own ↦
            let freed : is_held key (release id s.held) ≡ false =
              ap (λ (k : Text). is_held k (release id s.held)) (text_eq_sound key id own)
              ∙ is_held-release id s.held in
            ground (
              arith,
              own,
              freed,
              old,
              count_running_middle key before after (caller id Phase.running),
              count_running_middle key before after (caller id Phase.left),
            )
        | inr other ↦
            let kept = is_held-release_other key id s.held other in
            ground (
              arith,
              other,
              kept,
              old,
              count_running_middle key before after (caller id Phase.running),
              count_running_middle key before after (caller id Phase.left),
            )
      ]

Step-IsExact : (s t : Locks) → Step s t → IsExact s → IsExact t
Step-IsExact s t (arrive s' id) h = record {
  at = λ key.
      ground (arith, h.at key, count_running_middle key s.callers [] (caller id Phase.waiting));
}
Step-IsExact s t (enter s' before after id same free) h = record {
  at = IsExact-enter s h before after id same free;
}
Step-IsExact s t (leave s' before after id same) h = record {
  at = IsExact-leave s h before after id same;
}

Steps-IsExact : (s t : Locks) → Steps s t → IsExact s → IsExact t
Steps-IsExact s t (none_yet s') h = h
Steps-IsExact s t (then_step s' m t' before last) h =
    Step-IsExact m t last (Steps-IsExact s m before h)

one_if_bounded : (b : Bool) → one_if b ≤ 1
one_if_bounded true = omega arith
one_if_bounded false = omega arith

-- However calls arrive, wake up and leave, at most one of them at a time runs its function for a
-- payment.
pub lock_excludes : (s : Locks) → Steps no_calls s → (id : Text) → count_running id s.callers ≤ 1
lock_excludes s steps id =
    let exact = Steps-IsExact no_calls s steps (record { at = λ key. refl }) in
    rw (exact.at id) (one_if_bounded (is_held id s.held))
