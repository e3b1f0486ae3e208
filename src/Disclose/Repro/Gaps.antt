-- ===== src/Disclose/Repro/Gaps.antt =====
-- repro.rs: the verdict on a bundle and its lists of gaps agree.
use solinv.Base.{
  ltb, nat_eq, if◌then◌else◌, Bool-cases, Option-cases, is_some, length, all, concat_map, Bytes,
  Text, codes, ℕ, ◌≡◌, refl, ◌∙◌, inl, inr, Bool, true, false, not, ◌&&◌, none, some, List, [], ◌∷◌,
  ◌++◌, arith,
}
use solinv.Disclose.Inputs.{
  ProgramRef, AccountRef, is_carried, is_replayable, is_intact, is_complete,
}
use solinv.Disclose.Repro.{
  ReproBundle, inputs_carried, identified_only, incomplete, corrupt, when_text, is_stated,
  covers_signers, defines_a_comparison, missing, program_gap, lacks_metadata, account_gap,
  action_gap, context_gap, not_carried, program_failure, account_failure, integrity_failures,
  all_carried, completeness,
}

abbrev pub is_nil {ℓ} : {A : Type ℓ} → List A → Bool
is_nil [] = true
is_nil (x ∷ xs) = false

is_nil-append {ℓ} : {A : Type ℓ} (xs ys : List A) → is_nil (xs ++ ys) ≡ (is_nil xs && is_nil ys)
is_nil-append [] ys = refl
is_nil-append (x ∷ xs) ys = refl

is_nil-when_text : (c : Bool) (t : Text) → is_nil (when_text c t) ≡ not c
is_nil-when_text true t = refl
is_nil-when_text false t = refl

is_nil-concat_map {ℓ κ} :
    {A : Type ℓ} {B : Type κ} (f : A → List B) (p : A → Bool)
    → ((x : A) → is_nil (f x) ≡ p x)
    → (xs : List A) → is_nil (concat_map f xs) ≡ all p xs
is_nil-concat_map f p h [] = refl
is_nil-concat_map f p h (x ∷ xs) =
    is_nil-append (f x) (concat_map f xs) ∙ rw (h x, is_nil-concat_map f p h xs) refl

length_positive {ℓ} : {A : Type ℓ} (xs : List A) → ltb 0 (length xs) ≡ not (is_nil xs)
length_positive [] = ground arith
length_positive (x ∷ xs) = ground arith

not-not : (c : Bool) → not (not c) ≡ c
not-not true = refl
not-not false = refl

abbrev has_state : AccountRef → Bool
has_state a = is_carried a.pre_state && not (lacks_metadata a)

account_gap-has_state : (a : AccountRef) → is_nil (account_gap a) ≡ has_state a
unfolding account_gap
account_gap-has_state a = elim (Bool-cases (is_carried a.pre_state)) [
  | inl carried ↦ rw (account_gap, carried) (is_nil-when_text (lacks_metadata a) _)
  | inr left ↦ rw (account_gap, left) refl
]

abbrev can_run : ReproBundle → Bool
can_run b = elim b.context [ none ↦ false | some c ↦ is_stated c && covers_signers c b.actions ]

context_gap-can_run : (b : ReproBundle) → is_nil (context_gap b) ≡ can_run b
unfolding context_gap
context_gap-can_run b = elim (Option-cases b.context) [
  | inl unknown ↦ rw (context_gap, unknown) refl
  | inr (c, known) ↦ elim (Bool-cases (is_stated c)) [
    | inl stated ↦
        rw (context_gap, known, stated)
          (is_nil-when_text (not (covers_signers c b.actions)) _
            ∙ not-not (covers_signers c b.actions))
    | inr vague ↦ rw (context_gap, known, vague) refl
  ]
]

three_gaps :
    (a b c : Bool) (s t u : Text)
    → is_nil (when_text a s ++ (when_text b t ++ when_text c u)) ≡ (not a && (not b && not c))
three_gaps true b c s t u = refl
three_gaps false true c s t u = refl
three_gaps false false c s t u = is_nil-when_text c u

missing-defines : (b : ReproBundle) → is_nil (missing b) ≡ defines_a_comparison b
unfolding missing defines_a_comparison
missing-defines b =
    three_gaps (ltb (length b.programs) 2) (not (is_some b.feature_set))
      (nat_eq (length b.actions) 0) _ _ _
    ∙ ground arith

five_gaps {ℓ} :
    {A : Type ℓ} (a b c d e : List A)
    → is_nil (a ++ (b ++ (c ++ (d ++ e))))
      ≡ (is_nil a && (is_nil b && (is_nil c && (is_nil d && is_nil e))))
five_gaps a b c d e =
    rw
      (
        is_nil-append a (b ++ (c ++ (d ++ e))),
        is_nil-append b (c ++ (d ++ e)),
        is_nil-append c (d ++ e),
        is_nil-append d e,
      )
      refl

reordered :
    (p : Bool) (n : ℕ) (a r c : Bool)
    → (p && (not (nat_eq n 0) && (a && (r && c)))) ≡ (p && (a && (r && (ltb 0 n && c))))
reordered p n a r c = ground arith

module _ (hasher : Bytes → Bytes) where
  failures-intact :
      (b : ReproBundle)
      → is_nil (integrity_failures hasher b) ≡ (
          all (λ (p : ProgramRef). is_intact hasher p.code) b.programs
          && all (λ (a : AccountRef). is_intact hasher a.pre_state) b.accounts)
  unfolding integrity_failures program_failure account_failure
  failures-intact b =
      is_nil-append (concat_map (program_failure hasher) b.programs)
        (concat_map (account_failure hasher) b.accounts)
      ∙ rw
          (
            is_nil-concat_map (program_failure hasher) (λ p. is_intact hasher p.code)
                (λ p.
                  is_nil-when_text (not (is_intact hasher p.code)) _
                  ∙ not-not (is_intact hasher p.code))
                b.programs,
            is_nil-concat_map (account_failure hasher) (λ a. is_intact hasher a.pre_state)
                (λ a.
                  is_nil-when_text (not (is_intact hasher a.pre_state)) _
                  ∙ not-not (is_intact hasher a.pre_state))
                b.accounts,
          )
          refl

  complete-has_state :
      (accounts : List AccountRef)
      → all (λ (a : AccountRef). is_intact hasher a.pre_state) accounts ≡ true
      → all (is_complete hasher) accounts ≡ all has_state accounts
  unfolding is_complete
  complete-has_state [] h = refl
  complete-has_state (a ∷ accounts) h =
      let intact : is_intact hasher a.pre_state ≡ true = ground (arith, h) in
      let later = complete-has_state accounts (ground (arith, h)) in
      rw (is_complete, intact, later) (ground arith)

  not_carried-all_carried :
      (b : ReproBundle)
      → is_nil (integrity_failures hasher b) ≡ true
      → is_nil (not_carried b) ≡ all_carried hasher b
  unfolding not_carried all_carried program_gap action_gap
  not_carried-all_carried b h =
      let sound = failures-intact b in
      five_gaps (concat_map program_gap b.programs)
        (when_text (nat_eq (length b.accounts) 0) (codes "account pre-state"))
        (concat_map account_gap b.accounts) (concat_map action_gap b.actions) (context_gap b)
      ∙ rw
          (
            is_nil-concat_map program_gap (λ p. is_carried p.code)
                (λ p. is_nil-when_text (not (is_carried p.code)) _ ∙ not-not (is_carried p.code))
                b.programs,
            is_nil-when_text (nat_eq (length b.accounts) 0) (codes "account pre-state"),
            is_nil-concat_map account_gap has_state account_gap-has_state b.accounts,
            is_nil-concat_map action_gap is_replayable
                (λ a. is_nil-when_text (not (is_replayable a)) _ ∙ not-not (is_replayable a))
                b.actions,
            context_gap-can_run b,
            complete-has_state b.accounts (ground (arith, h, sound)),
          )
          (reordered (all (λ (p : ProgramRef). is_carried p.code) b.programs) (length b.accounts)
            (all has_state b.accounts) (all is_replayable b.actions) (can_run b))

  -- The verdict on a bundle is decided by the three lists that a report prints: `corrupt` where the
  -- bundle has an integrity failure, else `incomplete` where something is missing, else
  -- `identified_only` where some input is not carried, and only else `inputs_carried`.
  pub completeness_lem :
      (b : ReproBundle)
      → completeness hasher b ≡ (
          if not (is_nil (integrity_failures hasher b))
          then corrupt
          else if not (is_nil (missing b))
          then incomplete
          else if is_nil (not_carried b)
          then inputs_carried
          else identified_only)
  unfolding completeness
  completeness_lem b = elim (Bool-cases (is_nil (integrity_failures hasher b))) [
    | inr bad ↦ rw (completeness, length_positive (integrity_failures hasher b), bad) refl
    | inl sound ↦
        rw
          (
            completeness,
            length_positive (integrity_failures hasher b),
            sound,
            missing-defines b,
            not_carried-all_carried b sound,
          )
          refl
  ]
