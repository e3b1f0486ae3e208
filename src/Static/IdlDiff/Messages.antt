-- ===== src/Static/IdlDiff/Messages.antt =====
-- The messages of idl_diff.rs.
use solinv.Base.{Text, codes, show, ℕ, List, ◌++◌}
use solinv.Static.Idl.{join}

pub guess_message : Text → Text
guess_message hp =
    codes "taken to be renamed to `"
    ++ (hp
        ++ codes
            "`, a guess from its shape: its checks and the has_one that name it are compared through that guess — confirm it")

pub slot_gone_message : List Text → Text
slot_gone_message gone =
    codes "slot removed or renamed; its checks ("
    ++ (join (codes ", ") gone ++ codes ") are not compared — confirm the replacement keeps them")

pub no_signer_message : Text
no_signer_message = codes "no longer a signer"

pub no_seeds_message : Text
no_seeds_message = codes "seeds removed"

pub no_address_message : Text
no_address_message = codes "fixed address removed"

pub seeds_message : Text
seeds_message = codes "seeds changed: the slot now resolves to a different address"

pub address_message : Text → Text → Text
address_message x y = codes "fixed address changed from " ++ (x ++ (codes " to " ++ y))

pub has_one_message : Text → Text → Text
has_one_message now leaf =
    codes "`" ++ (now ++ (codes "` no longer declares `has_one = " ++ (leaf ++ codes "`")))

pub moved_message : Text → Text
moved_message message = message ++ codes " (that slot was removed or renamed)"

pub optional_message : Text
optional_message = codes "now optional: a caller may leave it out"

pub now_path : Text → Text → Text
now_path path hp = path ++ (codes " (now " ++ (hp ++ codes ")"))

pub fewer_signers_message : ℕ → ℕ → Text
fewer_signers_message sh sb =
    codes "takes "
    ++ (show sh
        ++ (codes " signer(s), down from "
            ++ (show sb ++ codes ": confirm no required signature was dropped")))

pub unsigned_message : Text
unsigned_message = codes "now has no signer and writes an account the IDL leaves unchecked"

pub unresolved_message : Text
unresolved_message =
    codes
      "the new IDL gives no fixed address, seeds or has_one anywhere, even for slots that had one: built without account resolution? Only signer, optional and writable are compared"

pub replaced_message : Text → ℕ → Text
replaced_message name shared =
    codes "removed; if `"
    ++ (name
        ++ (codes "` (shares "
            ++ (show shared ++ codes " slot name(s)) replaces it, its checks are not compared")))

pub compared_message : Text → Text → Text
compared_message message name =
    message ++ (codes " (compared with `" ++ (name ++ codes "`, which this may replace)"))

pub new_unsigned_message : Text
new_unsigned_message =
    codes
      "new instruction with no signer that writes an account the IDL leaves unchecked: confirm it is meant to be callable by anyone"
