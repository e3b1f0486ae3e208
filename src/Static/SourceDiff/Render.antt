-- ===== src/Static/SourceDiff/Render.antt =====
-- diff.rs: a report as text, and as GitHub workflow commands.
pub mod Lines
use solinv.Base.{
  nat_eq, if◌then◌else◌, length, concat_map, count, Text, codes, show, is_empty_text, ℕ, ◌-◌, Bool,
  true, false, List, [], ◌∷◌, ◌++◌,
}
use solinv.Static.Change.{Severity, regression, warning, Change}

-- `slot`: `ix.path`, or `ix` for a change to the instruction as a whole.
unfoldable pub slot_of : Change → Text
slot_of c = if is_empty_text c.path then c.ix else c.ix ++ (codes "." ++ c.path)

abbrev pub is_regression : Change → Bool
is_regression c = elim c.severity [ regression ↦ true | warning ↦ false ]

abbrev pub tag : Severity → Text
tag regression = codes "REMOVED"
tag warning = codes "WARNING"

unfoldable pub text_line : Change → Text
unfolding slot_of show
text_line c =
    let at =
      if is_empty_text c.file
      then []
      else codes " (" ++ (c.file ++ (codes ":" ++ (show c.line ++ codes ")"))) in
    tag c.severity
    ++ (codes " " ++ (slot_of c ++ (at ++ (codes ": " ++ (c.message ++ codes "\n")))))

unfoldable pub render_text : List Change → Text
unfolding text_line show
render_text changes =
    let regressions = count is_regression changes in
    codes "solinv diff: "
    ++ (show regressions
        ++ (codes " removed check(s), "
            ++ (show (length changes - regressions)
                ++ (codes " warning(s)\n" ++ concat_map text_line changes))))

-- `replace` of one character.
unfoldable pub replace_char : ℕ → Text → Text → Text
replace_char c with_text [] = []
replace_char c with_text (x ∷ s) =
    let rest = replace_char c with_text s in if nat_eq x c then with_text ++ rest else x ∷ rest

unfoldable pub escape : Text → Text
unfolding replace_char
escape s =
    replace_char 10 (codes "%0A")
      (replace_char 13 (codes "%0D") (replace_char b'%' (codes "%25") s))

-- The properties of a command also reserve `:` and `,`.
unfoldable pub escape_property : Text → Text
unfolding replace_char escape
escape_property s = replace_char b',' (codes "%2C") (replace_char b':' (codes "%3A") (escape s))

abbrev pub level : Severity → Text
level regression = codes "error"
level warning = codes "warning"

-- A change read from an IDL has no line to point at.
unfoldable pub place_of : Change → Text
unfolding escape_property show
place_of c =
    if is_empty_text c.file
    then []
    else codes "file=" ++ (escape_property c.file ++ (codes ",line=" ++ (show c.line ++ codes ",")))

unfoldable pub github_line : Change → Text
unfolding escape escape_property slot_of place_of
github_line c =
    codes "::"
    ++ (level c.severity
        ++ (codes " "
            ++ (place_of c
                ++ (codes "title="
                    ++ (escape_property (codes "solinv: " ++ slot_of c)
                        ++ (codes "::" ++ (escape c.message ++ codes "\n")))))))

unfoldable pub render_github : List Change → Text
unfolding github_line
render_github changes = concat_map github_line changes
