-- ===== src/Core/Trace/Annotated.antt =====
-- crates/solinv-core/src/trace.rs: the notes on the frames of a tree, and the count of its frames.
use solinv.Base.{
  nat_eq, if◌then◌else◌, is_some, ◌>>=◌, Text, codes, show, ℕ, ◌+◌, not, ◌&&◌, Option, none, some,
  List, [], ◌++◌,
}
use solinv.Solana.{Pubkey}
use solinv.Core.CpiReentrancy.{parse_cpi_events, detect_reentry}
use solinv.Core.Trace.{CpiNode, node, Nodes, leaf, child, build_tree}

-- `annotate`: the tree with the note on the first frame of the program and the depth that has none;
-- `none` where there is no such frame, and the tree stays as it is.
unfoldable mutual
  pub annotate_node : CpiNode → Pubkey → ℕ → Text → Option CpiNode
  annotate_node (node p d instruction units fails given children) program depth text =
      let below = annotate children program depth text >>= λ marked.
      some (node p d instruction units fails given marked) in
      if nat_eq p program && (nat_eq d depth && not (is_some given))
      then some (node p d instruction units fails (some text) children)
      else below

  pub annotate : Nodes → Pubkey → ℕ → Text → Option Nodes
  annotate leaf program depth text = none
  annotate (child first others) program depth text =
      let later = annotate others program depth text >>= λ marked. some (child first marked) in
      elim (annotate_node first program depth text) [
        | some marked ↦ some (child marked others)
        | none ↦ later
      ]

unfoldable mutual
  pub count_node : CpiNode → ℕ
  count_node (node p d instruction units fails given children) = 1 + frame_count children

  pub frame_count : Nodes → ℕ
  frame_count leaf = 0
  frame_count (child first others) = count_node first + frame_count others

unfoldable pub build_annotated_tree : (Text → Option Pubkey) → List Text → Option Nodes
unfolding build_tree annotate
build_annotated_tree parse_key logs = do
  tree ← build_tree parse_key logs
  elim (detect_reentry (parse_cpi_events parse_key logs) []) [
    | none ↦ some tree
    | some r ↦
        let text =
          codes "cpi-reentrancy: re-entered (already open at depth "
          ++ (show r.outer_depth ++ codes ")") in
        some (elim (annotate tree r.pid r.inner_depth text) [ none ↦ tree | some marked ↦ marked ])
  ]
