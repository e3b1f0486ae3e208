-- ===== src/Disclose/Divergence.antt =====
-- crates/solinv-disclose/src/divergence.rs: where two executions that were to agree did not.
use solinv.Base.{
  ltb, if◌then◌else◌, Text, codes, show, starts_with, ℕ, ◌+◌, ◌-◌, ◌/◌, ◌%◌, Bool, true, false,
  ◌||◌, Option, none, some, [], ◌∷◌, ◌++◌,
}

pub record Sides : Type 0 where
  pub left : Text
  pub right : Text

unfoldable pub anchor_pinocchio : Sides
anchor_pinocchio = record { left = codes "anchor"; right = codes "pinocchio" }

pub data Divergence : Type 0 where
  -- `Body { label, first_byte, left_byte, right_byte, body_size }`
  body : Text → ℕ → ℕ → ℕ → ℕ → Divergence
  -- `Parity { label, left_ok, right_ok, left_error, right_error, left_reason, right_reason }`
  parity : Text → Bool → Bool → Option ℕ → Option ℕ → Option Text → Option Text → Divergence
  -- `Cu { label, left_cu, right_cu }`
  cu : Text → Option ℕ → Option ℕ → Divergence

unfoldable pub label : Divergence → Text
label (body at first_byte left_byte right_byte body_size) = at
label (parity at left_ok right_ok left_error right_error left_reason right_reason) = at
label (cu at left_cu right_cu) = at

unfoldable pub is_fault : Divergence → Bool
is_fault (body at first_byte left_byte right_byte body_size) = true
is_fault (parity at left_ok right_ok left_error right_error left_reason right_reason) = true
is_fault (cu at (some l) (some r)) = ltb l r
is_fault (cu at none none) = false
is_fault (cu at (some l) none) = true
is_fault (cu at none (some r)) = true

abbrev pub is_builtin : Option Text → Bool
is_builtin none = false
is_builtin (some r) = starts_with (codes "builtin:") r

unfoldable pub has_build_scoped_token : Divergence → Bool
unfolding starts_with
has_build_scoped_token (body at first_byte left_byte right_byte body_size) = false
has_build_scoped_token
      (parity at left_ok right_ok left_error right_error left_reason right_reason) =
    is_builtin left_reason || is_builtin right_reason
has_build_scoped_token (cu at left_cu right_cu) = false

-- The two lowest hexadecimal digits: `{:02x}` of a byte.
abbrev hex_digit : ℕ → ℕ
hex_digit n = if ltb n 10 then b'0' + n else b'a' + (n - 10)

unfoldable pub hex_byte : ℕ → Text
hex_byte b = hex_digit (b / 16) ∷ (hex_digit (b % 16) ∷ [])

-- `{:?}` of an `Option<u64>`.
unfoldable pub debug_units : Option ℕ → Text
unfolding show
debug_units none = codes "None"
debug_units (some n) = codes "Some(" ++ (show n ++ codes ")")

unfoldable pub render_side : Bool → Option Text → Text
render_side true reason = codes "accepted"
render_side false (some r) = codes "rejected (" ++ (r ++ codes ")")
render_side false none = codes "rejected"

unfoldable pub headline : Divergence → Text
unfolding hex_byte debug_units render_side show
headline (body at first_byte left_byte right_byte body_size) =
    codes "`"
    ++ (at
        ++ (codes "` state diverged at byte "
            ++ (show first_byte
                ++ (codes " of "
                    ++ (show body_size
                        ++ (codes ": left=0x"
                            ++ (hex_byte left_byte
                                ++ (codes " right=0x" ++ hex_byte right_byte))))))))
headline (parity at left_ok right_ok left_error right_error left_reason right_reason) =
    codes "`"
    ++ (at
        ++ (codes "` outcome diverged: left "
            ++ (render_side left_ok left_reason
                ++ (codes ", right " ++ render_side right_ok right_reason))))
headline (cu at (some l) (some r)) =
    if ltb l r
    then codes "`"
      ++ (at
          ++ (codes "` CU regressed: "
              ++ (show l
                  ++ (codes " → " ++ (show r ++ (codes " (+" ++ (show (r - l) ++ codes ")")))))))
    else codes "`"
      ++ (at
          ++ (codes "` CU: "
              ++ (show l
                  ++ (codes " → " ++ (show r ++ (codes " (-" ++ (show (l - r) ++ codes ")")))))))
headline (cu at none right_cu) =
    codes "`"
    ++ (at
        ++ (codes "` CU: left=" ++ (debug_units none ++ (codes " right=" ++ debug_units right_cu))))
headline (cu at (some l) none) =
    codes "`"
    ++ (at
        ++ (codes "` CU: left=" ++ (debug_units (some l) ++ (codes " right=" ++ debug_units none))))
