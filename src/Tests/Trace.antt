-- ===== src/Tests/Trace.antt =====
-- The call tree of a transaction's log.
use solinv.Base.{
  ltb, if◌then◌else◌, is_some, All, Text, codes, trim, strip_prefix, starts_with, strip_last,
  split_once, parse_unsigned, ℕ, ◌+◌, ◌-◌, ◌^◌, ◌≡◌, refl, true, false, Option, none, some, List,
  [], ◌∷◌, ◌++◌, map, arith,
}
use solinv.Core.CpiReentrancy.{parse_depth, parse_cpi_events, detect_reentry}
use solinv.Core.Trace.{node, Nodes, leaf, child, trace_lines, nothing_built, build_tree}
use solinv.Core.Trace.Frames.{frames, invocations, frames-trace_lines}
use solinv.Core.Trace.Builds.{build_tree-is_some}
use solinv.Core.CpiReentrancy.Calls.{call, Calls, done, next, events_of_all, first_reentry_all}
use solinv.Core.CpiReentrancy.Calls.Logged.{
  ReadsKeys, LogLine, begins, succeeds, fails_for, consumes, logs, text_of, FitsDepth,
  detect_reentry-parse_cpi_events,
}
use solinv.Core.Trace.Annotated.{annotate}

-- Keys are written as numbers.
abbrev read_key : Text → Option ℕ
read_key = parse_unsigned (2 ^ 256)

abbrev transfer_logs : List Text
transfer_logs =
    codes "Program 60 invoke [1]"
    ∷ codes "Program log: Instruction: Swap"
    ∷ codes "Program 61 invoke [2]"
    ∷ codes "Program 61 consumed 46 of 200 compute units"
    ∷ codes "Program 61 success"
    ∷ codes "Program 60 failed: custom program error"
    ∷ []

log_is_no_key : read_key (codes "log:") ≡ none
unfolding parse_unsigned
log_is_no_key = refl

frames-trace_lines_example :
    frames (trace_lines read_key transfer_logs nothing_built)
    ≡ invocations (parse_cpi_events read_key transfer_logs)
frames-trace_lines_example = frames-trace_lines read_key log_is_no_key transfer_logs

build_tree-is_some_example : is_some (build_tree read_key transfer_logs) ≡ true
build_tree-is_some_example = build_tree-is_some read_key transfer_logs

built_tree :
    build_tree read_key transfer_logs
    ≡ some (
        child
          (node 60 1
            (some (codes "Swap"))
            none
            true
            none
            (child (node 61 2 none (some 46) false none leaf) leaf))
          leaf)
unfolding build_tree strip_prefix trim split_once parse_unsigned starts_with parse_depth strip_last
built_tree = refl

-- A key is written as one character behind the colon.
abbrev write_sign : ℕ → Text
write_sign pid = (pid + 59) ∷ []

abbrev read_sign : Text → Option ℕ
read_sign [] = none
read_sign (c ∷ []) = if ltb c 59 then none else some (c - 59)
read_sign (c ∷ d ∷ s) = none

colon_read : (s t : Text) → read_sign (s ++ (b':' ∷ t)) ≡ none
colon_read [] [] = refl
colon_read [] (c ∷ t) = refl
colon_read (c ∷ []) t = refl
colon_read (c ∷ d ∷ s) t = refl

signs : ReadsKeys write_sign read_sign
signs = record { back = λ pid. ground arith; solid = λ pid. (ground arith, tt); colon = colon_read }

-- Program 60 calls 61, which calls 60 again.
abbrev reentering : Calls
reentering =
    next (call 60 1 false (next (call 61 2 false (next (call 60 3 true done) done)) done)) done

-- The log of it, with a print that looks like an event.
abbrev printed_lines : List LogLine
printed_lines =
    begins 60 1
    ∷ (logs (codes "Program 61 invoke [2]")
        ∷ (begins 61 2
            ∷ (begins 60 3
                ∷ (fails_for 60 (codes "custom program error: 0x1 ")
                    ∷ (consumes 61 46 200 ∷ (succeeds 61 ∷ (succeeds 60 ∷ [])))))))

depths_fit : All FitsDepth printed_lines
depths_fit = (ground arith, (tt, (ground arith, (ground arith, (tt, (tt, (tt, (tt, tt))))))))

detect_reentry-parse_cpi_events_example :
    detect_reentry (parse_cpi_events read_sign (map (text_of write_sign) printed_lines)) []
    ≡ first_reentry_all [] [] reentering
unfolding events_of_all
detect_reentry-parse_cpi_events_example =
    detect_reentry-parse_cpi_events write_sign read_sign signs [] reentering printed_lines
      depths_fit refl

abbrev swap_tree : Nodes
swap_tree =
    child (node 60 1 none none true none (child (node 61 2 none (some 46) false none leaf) leaf))
      leaf

abbrev marked_tree : Nodes
marked_tree =
    child
      (node 60 1 none none true none
        (child (node 61 2 none (some 46) false (some (codes "here")) leaf) leaf))
      leaf

marked_swap : annotate swap_tree 61 2 (codes "here") ≡ some marked_tree
unfolding annotate
marked_swap = refl
