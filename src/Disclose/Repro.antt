-- ===== src/Disclose/Repro.antt =====
-- repro.rs: the bundle of a compared run's inputs, and how completely they travel.
pub mod Gaps
use solinv.Base.{
  ltb, leb, nat_eq, if◌then◌else◌, is_some, length, all, filter, concat_map, contains, Bytes, Text,
  codes, trim, is_empty_text, ℕ, Bool, true, false, not, ◌&&◌, ◌||◌, Option, none, some, List, [],
  ◌∷◌, ◌++◌, ℕ_eq, list_eq, option_eq,
}
use solinv.Disclose.Inputs.{
  ProgramRef, AccountRef, ActionAccount, ActionRef, is_carried, is_replayable, is_intact,
  is_complete,
}

pub data SignerPolicy : Type 0 where
  sigverify_disabled : SignerPolicy
  keys_supplied_out_of_band : List Text → SignerPolicy

-- `clock_unix_timestamp`, an i64, is kept as its 64 bits.
pub record ExecutionContext : Type 0 where
  pub runtime : Text
  pub clock_slot : Option ℕ
  pub clock_unix_timestamp : Option ℕ
  pub signer_policy : SignerPolicy

pub record ReproBundle : Type 0 where
  pub programs : List ProgramRef
  pub accounts : List AccountRef
  pub slot : Option ℕ
  pub feature_set : Option Text
  pub actions : List ActionRef
  pub context : Option ExecutionContext

pub data Completeness : Type 0 where
  inputs_carried identified_only incomplete corrupt : Completeness

-- A gap or a failure, where there is one.
abbrev pub when_text : Bool → Text → List Text
when_text c t = if c then t ∷ [] else []

unfoldable pub new_context : Text → SignerPolicy → ExecutionContext
new_context runtime policy = record {
  runtime = runtime;
  clock_slot = none;
  clock_unix_timestamp = none;
  signer_policy = policy;
}

unfoldable pub with_clock : ℕ → ℕ → ExecutionContext → ExecutionContext
with_clock slot timestamp c = record c {
  clock_slot = some slot;
  clock_unix_timestamp = some timestamp;
}

unfoldable pub is_stated : ExecutionContext → Bool
unfolding trim
is_stated c =
    not (is_empty_text (trim c.runtime)) && (is_some c.clock_slot && is_some c.clock_unix_timestamp)

-- Whether the policy names every account that some action says must sign.
unfoldable pub covers_signers : ExecutionContext → List ActionRef → Bool
covers_signers c actions = elim c.signer_policy [
  | sigverify_disabled ↦ true
  | keys_supplied_out_of_band signers ↦
      all (λ (a : ActionAccount). contains signers a.pubkey)
        (filter (λ (a : ActionAccount). a.is_signer)
          (concat_map (λ (a : ActionRef). a.accounts) actions))
]

unfoldable pub new_bundle : ReproBundle
new_bundle = record {
  programs = [];
  accounts = [];
  slot = none;
  feature_set = none;
  actions = [];
  context = none;
}

unfoldable pub with_program : ProgramRef → ReproBundle → ReproBundle
with_program program b = record b { programs = b.programs ++ (program ∷ []) }

unfoldable pub with_account : AccountRef → ReproBundle → ReproBundle
with_account account b = record b { accounts = b.accounts ++ (account ∷ []) }

unfoldable pub with_slot : ℕ → ReproBundle → ReproBundle
with_slot slot b = record b { slot = some slot }

unfoldable pub with_feature_set : Text → ReproBundle → ReproBundle
with_feature_set features b = record b { feature_set = some features }

unfoldable pub with_action : ActionRef → ReproBundle → ReproBundle
with_action action b = record b { actions = b.actions ++ (action ∷ []) }

unfoldable pub with_context : ExecutionContext → ReproBundle → ReproBundle
with_context context b = record b { context = some context }

unfoldable pub defines_a_comparison : ReproBundle → Bool
defines_a_comparison b =
    leb 2 (length b.programs) && (is_some b.feature_set && ltb 0 (length b.actions))

unfoldable pub missing : ReproBundle → List Text
missing b =
    when_text (ltb (length b.programs) 2) (codes "a program binary for each side")
    ++ (when_text (not (is_some b.feature_set)) (codes "the activated feature set")
        ++ when_text (nat_eq (length b.actions) 0) (codes "the action sequence"))

unfoldable pub program_gap : ProgramRef → List Text
unfolding is_carried
program_gap p = when_text (not (is_carried p.code)) (p.side ++ codes " program bytes")

abbrev pub lacks_metadata : AccountRef → Bool
lacks_metadata a =
    not (is_some a.owner)
    || (not (is_some a.lamports) || (not (is_some a.executable) || not (is_some a.rent_epoch)))

unfoldable pub account_gap : AccountRef → List Text
unfolding is_carried
account_gap a =
    if not (is_carried a.pre_state)
    then (codes "`" ++ (a.label ++ codes "` account data")) ∷ []
    else when_text (lacks_metadata a) (
        codes "`" ++ (a.label ++ codes "` account metadata (owner/lamports/executable/rent_epoch)"))

unfoldable pub action_gap : ActionRef → List Text
unfolding is_replayable
action_gap a =
    when_text (not (is_replayable a)) (codes "encoding for action `" ++ (a.label ++ codes "`"))

unfoldable pub context_gap : ReproBundle → List Text
unfolding is_stated covers_signers
context_gap b = elim b.context [
  | none ↦ codes "the execution context and signer policy" ∷ []
  | some c ↦
      if not (is_stated c)
      then codes "a stated execution context (runtime description and clock)" ∷ []
      else when_text (not (covers_signers c b.actions))
          (codes "a signer policy covering every signer the actions declare")
]

unfoldable pub not_carried : ReproBundle → List Text
unfolding program_gap account_gap action_gap context_gap
not_carried b =
    concat_map program_gap b.programs
    ++ (when_text (nat_eq (length b.accounts) 0) (codes "account pre-state")
        ++ (concat_map account_gap b.accounts
            ++ (concat_map action_gap b.actions ++ context_gap b)))

module _ (hasher : Bytes → Bytes) where
  unfoldable pub program_failure : ProgramRef → List Text
  unfolding is_intact
  program_failure p = when_text (not (is_intact hasher p.code)) (p.side ++ codes " program bytes")

  unfoldable pub account_failure : AccountRef → List Text
  unfolding is_intact
  account_failure a =
      when_text (not (is_intact hasher a.pre_state))
        (codes "`" ++ (a.label ++ codes "` account data"))

  unfoldable pub integrity_failures : ReproBundle → List Text
  unfolding program_failure account_failure
  integrity_failures b =
      concat_map program_failure b.programs ++ concat_map account_failure b.accounts

  -- Everything that a reader needs to run it again, apart from the keys of signers.
  unfoldable pub all_carried : ReproBundle → Bool
  unfolding is_carried is_complete is_replayable is_stated covers_signers
  all_carried b =
      all (λ (p : ProgramRef). is_carried p.code) b.programs
      && (all (is_complete hasher) b.accounts
          && (all is_replayable b.actions
              && (ltb 0 (length b.accounts) && (elim b.context [
                | none ↦ false
                | some c ↦ is_stated c && covers_signers c b.actions
              ]))))

  unfoldable pub completeness : ReproBundle → Completeness
  unfolding integrity_failures defines_a_comparison all_carried
  completeness b =
      if ltb 0 (length (integrity_failures b))
      then corrupt
      else if not (defines_a_comparison b)
      then incomplete
      else if all_carried b
      then inputs_carried
      else identified_only

  unfoldable pub carries_its_inputs : ReproBundle → Bool
  unfolding completeness
  carries_its_inputs b = elim (completeness b) [
    | inputs_carried ↦ true
    | identified_only ↦ false
    | incomplete ↦ false
    | corrupt ↦ false
  ]
