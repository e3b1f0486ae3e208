-- ===== src/Core/Process/Restored.antt =====
-- Every detector ends by restoring what it saved: what that leaves in the context.
use solinv.Base.{
  if◌then◌else◌, contains, ◌≡◌, Bool, true, false, Option, none, some, List, ℕ_eq, list_eq,
  option_eq,
}
use solinv.Solana.{Pubkey, Account}
use solinv.Core.Runtime.{Runtime, StoresAccounts, IsTaken}
use solinv.Core.Harness.{save_accounts}
use solinv.Core.Harness.Restore.{restore_accounts-get}
use solinv.Core.Process.{Process, restore}

-- From `p` to `p'` the accounts of the list that were there, and whose writing back no context refuses,
-- read as they did.
pub record Restored (rt : Runtime) (pks : List Pubkey) (p p' : Process rt.Ctx) : Type 0 where
  pub same :
      (q : Pubkey) (a : Account)
      → contains pks q ≡ true
      → IsTaken rt q a
      → rt.get_account p.ctx q ≡ some a
      → rt.get_account p'.ctx q ≡ some a

module _ (rt : Runtime) (laws : StoresAccounts rt) where
  pub restore-Restored :
      (pks : List Pubkey) (p x : Process rt.Ctx)
      → Restored rt pks p (restore rt (save_accounts rt p.ctx pks) x)
  unfolding restore
  restore-Restored pks p x = record {
    same = λ q a m w g. restore_accounts-get rt laws p.ctx x.ctx pks q a m w g;
  }

module _ (rt : Runtime) (pks : List Pubkey) where
  pub Restored-refl : (p : Process rt.Ctx) → Restored rt pks p p
  Restored-refl p = record { same = λ q a m w g. g }

  pub Restored-then :
      (p q r : Process rt.Ctx) → Restored rt pks p q → Restored rt pks q r → Restored rt pks p r
  Restored-then p q r f g = record { same = λ k a m w h. g.same k a m w (f.same k a m w h) }

  pub Restored-if :
      (b : Bool) (p x y : Process rt.Ctx)
      → Restored rt pks p x
      → Restored rt pks p y
      → Restored rt pks p (if b then x else y)
  Restored-if true p x y f g = f
  Restored-if false p x y f g = g

  pub Restored-option {ℓ} :
      {A : Type ℓ} (o : Option A) (p x : Process rt.Ctx) (f : A → Process rt.Ctx)
      → Restored rt pks p x
      → ((a : A) → Restored rt pks p (f a))
      → Restored rt pks p (elim o [ none ↦ x | some a ↦ f a ])
  Restored-option none p x f h k = h
  Restored-option (some a) p x f h k = k a
