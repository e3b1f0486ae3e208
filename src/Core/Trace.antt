-- ===== src/Core/Trace.antt =====
-- crates/solinv-core/src/trace.rs: the tree of calls that is rebuilt from a transaction's log lines.
pub mod Frames
pub mod Forest
pub mod Builds
pub mod Annotated
pub mod Notes
use solinv.Base.{
  nat_eq, if◌then◌else◌, ◌>>=◌, ◌==◌, length, get_elem?, modify, u64_mod, Text, codes,
  is_whitespace, trim_start, trim, strip_prefix, starts_with, split_once, parse_unsigned, ℕ, zero,
  suc, Bool, true, false, Option, none, some, List, [], ◌∷◌, ℕ_eq, list_eq, option_eq,
}
use solinv.Solana.{Pubkey}
use solinv.Core.CpiReentrancy.{parse_depth, pop, push}

mutual
  pub data CpiNode : Type 0 where
    -- The program, the depth, the name of the instruction, the units, whether it failed, the note.
    node : Pubkey → ℕ → Option Text → Option ℕ → Bool → Option Text → Nodes → CpiNode

  pub data Nodes : Type 0 where
    leaf : Nodes
    child : CpiNode → Nodes → Nodes

-- A frame under construction; its children are places in the arena.
pub record Raw : Type 0 where
  pub program : Pubkey
  pub depth : ℕ
  pub instruction : Option Text
  pub compute_units : Option ℕ
  pub failed : Bool
  pub children : List ℕ

-- The state of the loop over the lines.
pub record Building : Type 0 where
  pub arena : List Raw
  pub roots : List ℕ
  pub stack : List ℕ

unfoldable pub last {ℓ} : {A : Type ℓ} → List A → Option A
last [] = none
last (x ∷ []) = some x
last (x ∷ y ∷ s) = last (y ∷ s)

-- A change to the innermost open frame.
unfoldable pub at_top : (Raw → Raw) → Building → Building
unfolding last
at_top f b = elim (last b.stack) [
  | none ↦ b
  | some top ↦ record { arena = modify b.arena top f; roots = b.roots; stack = b.stack }
]

abbrev pub named : Text → Raw → Raw
named name r = elim r.instruction [
  | some given ↦ r
  | none ↦ record {
    program = r.program;
    depth = r.depth;
    instruction = some (trim name);
    compute_units = r.compute_units;
    failed = r.failed;
    children = r.children;
  }
]

abbrev pub fail : Raw → Raw
fail r = record {
  program = r.program;
  depth = r.depth;
  instruction = r.instruction;
  compute_units = r.compute_units;
  failed = true;
  children = r.children;
}

abbrev pub consume : Pubkey → ℕ → Raw → Raw
consume pid units r =
    if nat_eq r.program pid
    then record {
      program = r.program;
      depth = r.depth;
      instruction = r.instruction;
      compute_units = some units;
      failed = r.failed;
      children = r.children;
    }
    else r

abbrev pub adopt : ℕ → Raw → Raw
adopt idx r = record {
  program = r.program;
  depth = r.depth;
  instruction = r.instruction;
  compute_units = r.compute_units;
  failed = r.failed;
  children = push r.children idx;
}

abbrev pub new_frame : Pubkey → ℕ → Raw
new_frame pid depth = record {
  program = pid;
  depth = depth;
  instruction = none;
  compute_units = none;
  failed = false;
  children = [];
}

-- The new frame goes under the innermost open one, or else among the roots.
unfoldable pub open_frame : Pubkey → ℕ → Building → Building
unfolding last
open_frame pid depth b =
    let idx = length b.arena in
    let arena = push b.arena (new_frame pid depth) in
    elim (last b.stack) [
      | some parent ↦ record {
        arena = modify arena parent (adopt idx);
        roots = b.roots;
        stack = push b.stack idx;
      }
      | none ↦ record { arena = arena; roots = push b.roots idx; stack = push b.stack idx }
    ]

unfoldable pub close_frame : Building → Building
close_frame b = record { arena = b.arena; roots = b.roots; stack = pop b.stack }

-- The first word of a text: `split_whitespace().next()`.
unfoldable pub take_word : Text → Text
take_word [] = []
take_word (c ∷ s) = let rest = take_word s in if is_whitespace c then [] else c ∷ rest

unfoldable pub first_word : Text → Option Text
unfolding take_word
first_word s = elim (take_word (trim_start s)) [ [] ↦ none | c ∷ w ↦ some (c ∷ w) ]

-- The units of `consumed <N> of <M> compute units`.
unfoldable pub parse_units : Text → Option ℕ
unfolding first_word
parse_units tail = do
  units ← strip_prefix (codes "consumed ") tail
  word ← first_word units
  parse_unsigned u64_mod word

unfoldable pub trace_verb : Pubkey → Text → Building → Building
unfolding at_top open_frame close_frame parse_units
trace_verb pid tail b = elim (strip_prefix (codes "invoke [") tail >>= parse_depth) [
  | some depth ↦ open_frame pid depth b
  | none ↦
      if tail == codes "success"
      then close_frame b
      else if starts_with (codes "failed") tail
      then close_frame (at_top fail b)
      else elim (parse_units tail) [ none ↦ b | some units ↦ at_top (consume pid units) b ]
]

-- A `Program log: ` line, behind that prefix.
unfoldable pub trace_log : Text → Building → Building
unfolding at_top
trace_log msg b = elim (strip_prefix (codes "Instruction: ") msg) [
  | none ↦ b
  | some name ↦ at_top (named name) b
]

unfoldable pub trace_call : (Text → Option Pubkey) → Text → Building → Building
unfolding trace_verb
trace_call parse_key rest b = elim (split_once b' ' rest) [
  | none ↦ b
  | some (pid_str, tail) ↦ elim (parse_key pid_str) [ none ↦ b | some pid ↦ trace_verb pid tail b ]
]

unfoldable pub trace_line : (Text → Option Pubkey) → Text → Building → Building
unfolding trace_log trace_call
trace_line parse_key line b = elim (strip_prefix (codes "Program ") (trim line)) [
  | none ↦ b
  | some rest ↦ elim (strip_prefix (codes "log: ") rest) [
    | some msg ↦ trace_log msg b
    | none ↦ trace_call parse_key rest b
  ]
]

unfoldable pub trace_lines : (Text → Option Pubkey) → List Text → Building → Building
unfolding trace_line
trace_lines parse_key [] b = b
trace_lines parse_key (line ∷ logs) b = trace_lines parse_key logs (trace_line parse_key line b)

abbrev pub nothing_built : Building
nothing_built = record { arena = []; roots = []; stack = [] }

-- The nodes of several places, where each has one.
unfoldable pub collect : (ℕ → Option CpiNode) → List ℕ → Option Nodes
collect at [] = some leaf
collect at (c ∷ cs) = do first ← at c; others ← collect at cs; some (child first others)

-- The tree below a place of the arena; `none` where a place is out of range or the fuel runs out.
unfoldable pub to_node : ℕ → List Raw → ℕ → Option CpiNode
unfolding collect
to_node zero arena idx = none
to_node (suc fuel) arena idx = do
  r ← get_elem? arena idx
  children ← collect (to_node fuel arena) r.children
  some (node r.program r.depth r.instruction r.compute_units r.failed none children)

unfoldable pub build_tree : (Text → Option Pubkey) → List Text → Option Nodes
unfolding trace_lines to_node
build_tree parse_key logs =
    let b = trace_lines parse_key logs nothing_built in
    collect (to_node (length b.arena) b.arena) b.roots
