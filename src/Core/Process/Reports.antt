-- ===== src/Core/Process/Reports.antt =====
-- Steps of a detector that report exactly when something is not fine, and how they compose.
use solinv.Base.{length, ◌<◌, ◌≡◌, refl, ap, ◌∙◌, ◌↔◌, ◌⊎◌, inl, inr, Bool, true, false, arith}
use solinv.Core.Process.{Violation, Process, fuzz_assert}

module _ {Ctx : Type 0} where
  -- From `p` to `p'` the context stays, and a violation is added exactly where `Fine` fails.
  abbrev pub Judges : Type 0 → Process Ctx → Process Ctx → Type 0
  Judges Fine p p' =
      (p'.ctx ≡ p.ctx)
      × ((Fine × (p'.violations ≡ p.violations))
          ⊎ ((¬ Fine) × (length p.violations < length p'.violations)))

  pub Judges-skip : (p : Process Ctx) → Judges Unit p p
  Judges-skip p = (refl, inl (tt, refl))

  pub Judges-then :
      {F G : Type 0} (p q r : Process Ctx) → Judges F p q → Judges G q r → Judges (F × G) p r
  Judges-then p q r (c, inl (f, s)) (d, inl (g, t)) = (d ∙ c, inl ((f, g), t ∙ s))
  Judges-then p q r (c, inl (f, s)) (d, inr (n, l)) = (d ∙ c, inr ((λ h. n h.1), rw s at l))
  Judges-then p q r (c, inr (n, l)) (d, inl (g, t)) = (d ∙ c, inr ((λ h. n h.0), rw (← t) at l))
  Judges-then p q r (c, inr (n, l)) (d, inr (m, k)) = (d ∙ c, inr ((λ h. n h.0), omega arith))

  pub Judges-silent_iff :
      {F : Type 0} (p q : Process Ctx) → Judges F p q → (q.violations ≡ p.violations) ↔ F
  Judges-silent_iff p q (c, inl (f, s)) = ((λ _. f), (λ _. s))
  Judges-silent_iff p q (c, inr (n, l)) =
      ((λ s. absurd (omega (arith, ap length s))), (λ f. absurd (n f)))

  pub Judges-iff : {F G : Type 0} (p q : Process Ctx) → F ↔ G → Judges F p q → Judges G p q
  Judges-iff p q e (c, inl (f, s)) = (c, inl (e.0 f, s))
  Judges-iff p q e (c, inr (n, l)) = (c, inr ((λ g. n (e.1 g)), l))

  pub fuzz_assert-Judges :
      (b : Bool) (v : Violation) (p : Process Ctx) → Judges (b ≡ true) p (fuzz_assert b v p)
  unfolding fuzz_assert
  fuzz_assert-Judges true v p = (refl, inl (refl, refl))
  fuzz_assert-Judges false v p = (refl, inr ((λ h. cc h), omega arith))
