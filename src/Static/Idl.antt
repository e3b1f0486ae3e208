-- ===== src/Static/Idl.antt =====
-- crates/solinv-static/src/idl.rs: the part of an Anchor IDL that the comparison reads, with the
-- accounts of an instruction in wire order.
use solinv.Base.{
  nat_eq, if◌then◌else◌, is_some, length, any, Bytes, Text, codes, Bool, not, ◌&&◌, Option, List,
  [], ◌∷◌, ◌++◌,
}

pub data IdlSeed : Type 0 where
  -- `Const { value }`
  const_seed : Bytes → IdlSeed
  -- `Account { path, account }`
  account_seed : Text → Option Text → IdlSeed
  -- `Arg { path }`
  arg_seed : Text → IdlSeed

pub record IdlPda : Type 0 where
  pub seeds : List IdlSeed
  pub program : Option IdlSeed

pub record IdlAccount : Type 0 where
  pub name : Text
  pub writable : Bool
  pub signer : Bool
  pub optional : Bool
  pub address : Option Text
  pub pda : Option IdlPda
  pub relations : List Text

mutual
  pub data IdlAccountItem : Type 0 where
    -- `Composite { name, accounts }`
    composite : Text → IdlAccountItems → IdlAccountItem
    single : IdlAccount → IdlAccountItem

  pub data IdlAccountItems : Type 0 where
    no_items : IdlAccountItems
    more_items : IdlAccountItem → IdlAccountItems → IdlAccountItems

-- The type of an argument, kept as raw JSON and never read here, is left out.
pub record IdlArg : Type 0 where
  pub name : Text

pub record IdlInstruction : Type 0 where
  pub name : Text
  pub discriminator : Bytes
  pub accounts : IdlAccountItems
  pub args : List IdlArg

pub record IdlAccountType : Type 0 where
  pub name : Text
  pub discriminator : Bytes

pub record Idl : Type 0 where
  pub address : Text
  pub instructions : List IdlInstruction
  pub accounts : List IdlAccountType
  pub legacy : Bool

pub record FlatAccount : Type 0 where
  pub account : IdlAccount
  pub prefix : Text

-- `[a, b].join(sep)`.
abbrev pub join : Text → List Text → Text
join sep [] = []
join sep (t ∷ []) = t
join sep (t ∷ u ∷ ts) = t ++ (sep ++ join sep (u ∷ ts))

unfoldable mutual
  -- `walk` of `flat_accounts`, with the names of the enclosing composites.
  pub walk_item : List Text → IdlAccountItem → List FlatAccount
  walk_item prefix (single a) = record { account = a; prefix = join (codes ".") prefix } ∷ []
  walk_item prefix (composite name accounts) = walk_items (prefix ++ (name ∷ [])) accounts

  pub walk_items : List Text → IdlAccountItems → List FlatAccount
  walk_items prefix no_items = []
  walk_items prefix (more_items item items) = walk_item prefix item ++ walk_items prefix items

unfoldable pub flat_accounts : IdlInstruction → List FlatAccount
unfolding walk_items
flat_accounts ix = walk_items [] ix.accounts

unfoldable pub path_of : FlatAccount → Text
path_of f =
    if nat_eq (length f.prefix) 0 then f.account.name else f.prefix ++ (codes "." ++ f.account.name)

unfoldable pub is_silent : IdlAccount → Bool
is_silent a = not a.signer && (not (is_some a.pda) && not (is_some a.address))

unfoldable pub is_unsigned_writer : IdlInstruction → Bool
unfolding flat_accounts is_silent
is_unsigned_writer ix =
    let flat = flat_accounts ix in
    not (any (λ (f : FlatAccount). f.account.signer) flat)
    && any (λ (f : FlatAccount). f.account.writable && is_silent f.account) flat
