-- ===== src/Lib.antt =====
-- Verification of the solinv libraries: detectors that attack a Solana program under a fuzzer, the
-- declarations and byte helpers that a fixture is written with, the scoring of a mutation campaign,
-- and the comparison of two versions of a program, by its IDL or by its source.
--
-- How the parts interact. A fixture declares each instruction of a program as an `InstructionSpec`
-- (crates/solinv-fuzz). A detector (crates/solinv-core) takes that declaration, saves the accounts of
-- the instruction, sends an attack or the plain instruction through the test context, compares what it
-- finds with the declaration, records a violation, and restores the accounts. A mutation campaign
-- (crates/solinv-mutate) plants small bugs in the program's source and scores how many of them the
-- detectors kill. The IDL comparison (crates/solinv-static) needs no run: it reports the checks that a
-- new version of a program's interface has lost. The source comparison does the same for what the
-- source declares, slot by slot, once a reader has found the slots. A specification can also be built
-- from a program's IDL and completed from the fixture's state (crates/solinv-fuzz). What two compared
-- runs disagree on leaves the fuzzer with the inputs of the runs (crates/solinv-disclose).
--
-- Files, and the code that each is about:
--   Base/             types and lemmas that the parts share: native numbers, lists, options, results,
--                     byte buffers, the strings' operations, decimal digits, maps as lists of pairs
--   Solana            the structs of the Solana crates that the code builds and reads
--   Fuzz/Relation, Fuzz/Guard, Fuzz/Capability   crates/solinv-fuzz/src/capability.rs
--   Fuzz/Coverage     crates/solinv-fuzz/src/state_coverage.rs
--   Fuzz/Schema       crates/solinv-fuzz/src/schema.rs; the code's `field`, `monotonic`, `bounded`,
--                     `sum_conservation` and `relation` are `declare`, `monotonic_over`,
--                     `bounded_over`, `sum_conservation_over` and `relate`
--   Fuzz/Bytepoke     crates/solinv-fuzz/src/bytepoke.rs
--   Fuzz/Differential crates/solinv-fuzz/src/differential.rs; `raw`, `SideResult`'s and `SendFailure`'s
--                     `check` are `raw_pair`, `check_parity` and `check_sent`, the `From` conversions
--                     `of_body`, `of_parity` and `of_cu`
--   Fuzz/IdlSpec      crates/solinv-fuzz/src/idl.rs: Slots has the builder's bindings and the account in a
--                     slot, Build the method `build`, Infer and Candidates what the fixture's state adds, Log
--                     the log of the leads; `spec` is `start_spec`, `account`, `signer` and `args` are
--                     `bind_account`, `bind_signer` and `with_args`, and the stages of `build` are
--                     `resolve_all`, `finish` and `built`
--   Disclose/Base64, Inputs, Repro   crates/solinv-disclose/src/repro.rs; `digest`, `inline`, `bytes`
--                     and `data` are `digest_of`, `inline_of`, `bytes_of` and `payload_of`
--   Disclose/Divergence   crates/solinv-disclose/src/divergence.rs
--   Core/Runtime, Core/Recorded   what the detectors use of code outside the repository, and the same with
--                     a record of what they send
--   Core/Harness, Core/Process   crates/solinv-core/src/invariants/util.rs and reachability.rs
--   Core/UncheckedMath, CuDos, PreconditionSkip, ReallocRace, SignerSkip, OwnerSkip,
--   DiscriminatorSkip, PdaForge, AccountSwap, CpiReentrancy, BumpSeed
--                     the file of that name under crates/solinv-core/src/invariants (BumpSeed is
--                     bump_seed_canonicalization.rs); `run_attempt` and `check` are the code's
--   Core/Trace        crates/solinv-core/src/trace.rs, without the rendering
--   Core/Substitute   the steps that owner_skip.rs, discriminator_skip.rs and pda_forge.rs share
--   Mutate/Score, Mutate/Campaign   crates/solinv-mutate/src/score.rs
--   Mutate/Mutant     crates/solinv-mutate/src/mutant.rs, and the types of operator.rs
--   Static/Idl        crates/solinv-static/src/idl.rs
--   Static/Change     the changes that both comparisons report, of crates/solinv-static/src/diff.rs
--   Static/Source     crates/solinv-static/src/source.rs, without the reader of the text
--   Static/SourceDiff crates/solinv-static/src/diff.rs. Checks has what a slot checks; Keys, Restated
--                     and Gates the equalities and gates that a constraint declares; Instead a handler
--                     check that became a declaration; Slots and Constraints the sections of `diff` on
--                     one slot, in its order, and the merge of a placeholder's; Renamed the renames of
--                     instructions; Whole `diff` itself; Render the two reports. `sibling` is `beside`,
--                     `count` is `copies`, and the closures of `diff` are functions of the same names
--                     where they have one
--   Static/Renames, Static/IdlDiff   crates/solinv-static/src/idl_diff.rs
--   Tests/            concrete runs
-- The modules below one of these hold its theorems.
--
-- State and errors. The state that the detectors share is the record `Process`: the test context, the
-- keys reached, the fingerprints and warnings already given, and the violations. `fuzz_assert!`
-- records a violation and goes on. A step takes a process and returns one. Fallible code returns an
-- `Option` or a `Result` with an error type of the model. A panic of the source, such as an assertion
-- of the schema builder, is an error of the model.
--
-- Numbers. All numbers are natural numbers. Where the source adds on `usize`, `u64` or `u128` the wrap
-- or the failure is written out: `wrapping_sum` is modulo 2 ^ 128, `sum_terms` and the byte offsets
-- are checked, the digest multiplies modulo 2 ^ 64, and the end of a compared body (`body_of`) wraps, so
-- that its slice panics.
--
-- Fuel. The recursion is structural everywhere, but for the functions named here. The digits of a
-- number in decimal take the number itself as fuel, and every step divides it by ten. The recursion
-- over the frames of a call tree takes the number of frames as fuel, since a frame's children stand
-- behind it in the arena. The clauses of a constraint take one more than its length, and every call is
-- on a shorter text. The removal of `(*` takes the length of the text, of which each round takes three
-- characters; the removal of `!` and brackets takes one more than the length.
--
-- Parameters. Crucible's `TestContext`, the derivation of addresses, the text of a key, and the hasher
-- are the record `Runtime`; that a context reads back what an accepted write stored is its law
-- `StoresAccounts`. A write may be refused, and what is said of accounts put back is said of those that
-- no context refuses (`IsTaken`). `recorded` is any runtime with a record of what is sent through it.
-- The regex crate, Unicode's letters and digits, floating point and SHA-256 are
-- parameters too, and so are a key's text and the derivation of addresses (`Keys`) of the
-- specification that is built from an IDL; the score of a rename of instructions, a float in the
-- source, is an exact fraction, which orders and equates alike for counts below 2 ^ 26. The witnesses
-- run on concrete ones.
--
-- Not modelled: printing, environment variables, files and JSON; the command line; the reader of
-- source text, the unscoped entries and the lint; the legacy IDL conversion; the JSON, digests and
-- rendering of a disclosure report; the account corpus; the rendering of a call tree; the example
-- programs and their fixtures.
pub mod Base
pub mod Solana
pub mod Disclose
pub mod Fuzz
pub mod Core
pub mod Mutate
pub mod Static
pub mod Tests
