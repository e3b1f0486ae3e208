-- ===== src/Core/Trace/Builds.antt =====
-- `build_tree` of trace.rs always gives a tree: the places that it follows are in the arena, and a
-- frame's children stand behind it.
use solinv.Base.{
  is_some, length, All, All-map, Text, ℕ, zero, suc, ◌+◌, ◌≤◌, ◌<◌, ◌≡◌, refl, true, Option, List,
  [], ◌∷◌, arith,
}
use solinv.Solana.{Pubkey}
use solinv.Core.Trace.{CpiNode, Raw, trace_lines, nothing_built, collect, to_node, build_tree}
use solinv.Core.Trace.Forest.{Behind, Places, Places-get, trace_lines-IsForest}

collect-is_some :
    (at : ℕ → Option CpiNode) (cs : List ℕ)
    → All (λ c. is_some (at c) ≡ true) cs
    → is_some (collect at cs) ≡ true
unfolding collect
collect-is_some at [] tt = refl
collect-is_some at (c ∷ cs) (h, hs) = ground (arith, collect-is_some at cs hs)

-- The fuel of a place is the number of frames from it on.
to_node-is_some :
    (fuel : ℕ) (arena : List Raw) (idx : ℕ)
    → Places (length arena) 0 arena
    → length arena ≤ fuel + idx
    → idx < length arena
    → is_some (to_node fuel arena idx) ≡ true
unfolding to_node
to_node-is_some zero arena idx places enough h = ground arith
to_node-is_some (suc fuel) arena idx places enough h =
    let n = length arena in
    let (r, found, children) = Places-get n 0 idx idx arena (omega arith) places h in
    let nodes = collect-is_some (to_node fuel arena) r.children (
      All-map (Behind n idx) (λ c. is_some (to_node fuel arena c) ≡ true) r.children
        (λ c b. to_node-is_some fuel arena c places (omega arith) b.1) children) in
    ground (arith, found, nodes)

-- `build_tree` gives a tree for every list of log lines, truncated or malformed ones among them: it
-- follows no place outside its arena, and its recursion ends.
pub build_tree-is_some :
    (parse_key : Text → Option Pubkey) (logs : List Text)
    → is_some (build_tree parse_key logs) ≡ true
unfolding build_tree
build_tree-is_some parse_key logs =
    let b = trace_lines parse_key logs nothing_built in
    let (places, (roots, stack)) =
      trace_lines-IsForest parse_key logs nothing_built (tt, (tt, tt)) in
    collect-is_some (to_node (length b.arena) b.arena) b.roots (
      All-map (λ i. i < length b.arena) (λ i. is_some (to_node (length b.arena) b.arena i) ≡ true)
        b.roots (λ i h. to_node-is_some (length b.arena) b.arena i places (omega arith) h) roots)
