-- ===== src/Static/SourceDiff/Messages.antt =====
-- The messages of diff.rs.
use solinv.Base.{Text, codes, show, ℕ, ◌++◌}

pub renamed_message : Text → Text
renamed_message n =
    codes "instruction renamed to `" ++ (n ++ codes "` (its slots match): compared with it")

pub removed_ix_message : ℕ → Text
removed_ix_message n =
    codes "instruction removed, or renamed past recognition: its "
    ++ (show n
        ++ codes " check(s) are not compared — confirm no remaining instruction relied on them")

pub slot_gone_message : Text → Text
slot_gone_message checks =
    codes "slot removed or renamed; its checks ("
    ++ (checks ++ codes ") are not compared — confirm the replacement keeps them")

pub loosened_message : Text → Text → Text
loosened_message was now =
    codes "was "
    ++ (was ++ (codes ", now " ++ (now ++ codes ": Anchor no longer checks its owner and type")))

pub handed_message : Text → Text → Text → Text
handed_message was now at =
    codes "was "
    ++ (was
        ++ (codes ", now "
            ++ (now
                ++ (codes ": Anchor no longer checks its owner and type. The handler passes it to "
                    ++ (at
                        ++ codes
                            ", which compares an owner and a discriminator: if they are this account's, the check moved there")))))

pub type_message : Text → Text → Text
type_message was now =
    codes "type changed from "
    ++ (was ++ (codes " to " ++ (now ++ codes ": confirm it still validates what the old one did")))

pub optional_message : Text
optional_message = codes "now optional: the instruction runs without it"

unfoldable pub signature_message : Text → Text → Text
signature_message was now =
    codes "was " ++ (was ++ (codes ", now " ++ (now ++ codes ": no longer required to sign")))

pub seeds_replaced_message : Text
seeds_replaced_message = codes "`seeds` replaced by `address`: confirm it names the same account"

pub seeds_message : Text
seeds_message = codes "`seeds` constraint removed: any address is accepted"

pub address_replaced_message : Text
address_replaced_message = codes "`address` replaced by `seeds`: confirm it names the same account"

pub address_restated_message : Text → Text
address_restated_message r =
    codes "`address` is still declared in other words once "
    ++ (r ++ codes " is read as a rename: confirm it is the same account")

pub address_message : Text
address_message = codes "`address` constraint removed"

pub address_changed_message : Text → Text → Text
address_changed_message x y =
    codes "`address` changed from `"
    ++ (x ++ (codes "` to `" ++ (y ++ codes "`: confirm it names the account it should")))

pub token_restated_message : Text → Text → Text → Text
token_restated_message key x r =
    codes "`"
    ++ (key
        ++ (codes " = "
            ++ (x
                ++ (codes "` is still declared in other words once "
                    ++ (r ++ codes " is read as a rename: confirm it is the same account")))))

pub token_changed_message : Text → Text → Text → Text
token_changed_message key x y =
    codes "`"
    ++ (key
        ++ (codes "` changed from `"
            ++ (x ++ (codes "` to `" ++ (y ++ codes "`: confirm it names the account it should")))))

pub token_message : Text → Text → Text → Text
token_message key x what =
    codes "`"
    ++ (key ++ (codes " = " ++ (x ++ (codes "` removed: any " ++ (what ++ codes " is accepted")))))

pub owner_replaced_message : Text
owner_replaced_message =
    codes
      "`owner` constraint replaced by a fixed address: confirm that account has the owner expected"

pub owner_message : Text
owner_message = codes "`owner` constraint removed"

pub has_one_moved_message : Text → Text → Text
has_one_moved_message target other =
    codes "`has_one = "
    ++ (target
        ++ (codes "` moved to `" ++ (other ++ codes "`: confirm it checks the same account")))

pub has_one_restated_message : Text → Text → Text
has_one_restated_message target r =
    codes "`has_one = "
    ++ (target
        ++ (codes "` is still declared in other words once "
            ++ (r ++ codes " is read as a rename: confirm it is the same account")))

pub has_one_handed_message : Text → Text → Text
has_one_handed_message target at =
    codes "`has_one = "
    ++ (target
        ++ (codes "` removed: it no longer has to match `"
            ++ (target
                ++ (codes "`. The handler passes it and `"
                    ++ (target
                        ++ (codes "` to "
                            ++ (at
                                ++ (codes ", which compares `"
                                    ++ (target
                                        ++ codes
                                            "`'s key: if with this account's, the check moved there")))))))))

pub has_one_message : Text → Text
has_one_message target =
    codes "`has_one = "
    ++ (target ++ (codes "` removed: it no longer has to match `" ++ (target ++ codes "`")))

pub constraint_moved_message : Text → Text → Text
constraint_moved_message expr other =
    codes "`constraint = " ++ (expr ++ (codes "` moved to `" ++ (other ++ codes "`")))

pub constraint_restated_message : Text → Text → Text
constraint_restated_message expr r =
    codes "`constraint = "
    ++ (expr
        ++ (codes "` is still declared in other words once "
            ++ (r ++ codes " is read as a rename: confirm it is the same account")))

pub gate_message : Text → Text → Text
gate_message expr e =
    codes "`constraint = "
    ++ (expr
        ++ (codes "` replaced by `constraint = "
            ++ (e ++ codes "` on the same account: confirm the new gate is as strict")))

pub constraint_handed_message : Text → Text → Text
constraint_handed_message expr at =
    codes "`constraint = "
    ++ (expr
        ++ (codes "` removed. The handler passes the accounts it names to "
            ++ (at
                ++ codes
                    ", which compares their keys: if with this account's, the check moved there")))

pub constraint_message : Text → Text
constraint_message expr = codes "`constraint = " ++ (expr ++ codes "` removed")

pub close_message : Text → Text
close_message t =
    codes "`close = "
    ++ (t
        ++ codes
            "` removed: the account is no longer emptied and handed back to the system program when the instruction ends")

pub close_changed_message : Text → Text → Text
close_changed_message t u =
    codes "`close` target changed from `"
    ++ (t ++ (codes "` to `" ++ (u ++ codes "`: that is where its lamports go")))

pub moved_message : Text → Text → Text
moved_message check slot =
    codes "`"
    ++ (check
        ++ (codes "` removed from the handler, and `"
            ++ (slot ++ codes "` now declares a check: confirm the declaration covers it")))

pub handler_message : Text → Text
handler_message check = codes "`" ++ (check ++ codes "` removed from the handler")

pub validate_moved_message : Text → Text → Text
validate_moved_message check other =
    codes "`" ++ (check ++ (codes "` in validate() moved to `" ++ (other ++ codes "`")))

pub validate_message : Text → Text
validate_message check = codes "`" ++ (check ++ codes "` removed from validate()")

pub placeholder_message : Text → Text → Text
placeholder_message what name =
    codes "now a placeholder its `/// CHECK:` calls deprecated, and with it: "
    ++ (what
        ++ (codes ". If nothing reads `"
            ++ (name
                ++ codes
                    "` these guard nothing of its own — confirm none of them pinned another account still in use")))

pub unsigned_message : Text
unsigned_message =
    codes
      "new instruction with no signer writes this account: permissionless by design, or a missing authority check?"

pub at_message : Text → Text → ℕ → Text
at_message call file line =
    codes "`" ++ (call ++ (codes "` (" ++ (file ++ (codes ":" ++ (show line ++ codes ")")))))
