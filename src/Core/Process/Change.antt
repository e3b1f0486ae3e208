-- ===== src/Core/Process/Change.antt =====
-- What the hash of saved accounts (`hash_accounts` of util.rs) tells apart.
use mathlib.Core.List.{append_assoc}
use solinv.Base.{
  if◌then◌else◌, length, take, drop, All, Bytes, le_bytes, from_le, length-le_bytes,
  from_le-le_bytes, take_append, drop_append, ℕ, ◌^◌, ◌<◌, ◌≡◌, refl, sym, ap, ◌∙◌, ◌↔◌, Bool, true,
  false, List, [], ◌∷◌, ◌++◌, arith,
}
use solinv.Solana.{Pubkey, Account}
use solinv.Core.Runtime.{Runtime}
use solinv.Core.Harness.{account_bytes, saved_bytes, hash_accounts}

append-injective :
    (xs xs' ys ys' : Bytes)
    → length xs ≡ length xs'
    → xs ++ ys ≡ xs' ++ ys'
    → (xs ≡ xs') × (ys ≡ ys')
append-injective xs xs' ys ys' same e = (
  sym (take_append (length xs) xs ys refl)
      ∙ (ap (take (length xs)) e ∙ take_append (length xs) xs' ys' (sym same)),
  sym (drop_append (length xs) xs ys refl)
      ∙ (ap (drop (length xs)) e ∙ drop_append (length xs) xs' ys' (sym same)),
)

le_bytes-injective :
    (width v w : ℕ) (rest rest' : Bytes)
    → v < 256 ^ width
    → w < 256 ^ width
    → le_bytes width v ++ rest ≡ le_bytes width w ++ rest'
    → (v ≡ w) × (rest ≡ rest')
le_bytes-injective width v w rest rest' small small' e =
    let (front, back) =
      append-injective (le_bytes width v) (le_bytes width w) rest rest'
        (length-le_bytes width v ∙ sym (length-le_bytes width w)) e in
    (
      sym (from_le-le_bytes width v small) ∙ (ap from_le front ∙ from_le-le_bytes width w small'),
      back,
    )

flag-injective :
    (a b : Bool) (rest rest' : Bytes)
    → (if a then 1 else 0) ∷ rest ≡ (if b then 1 else 0) ∷ rest'
    → (a ≡ b) × (rest ≡ rest')
flag-injective true true rest rest' e = (refl, cc)
flag-injective false false rest rest' e = (refl, cc)
flag-injective true false rest rest' e = absurd (ground (arith, e))
flag-injective false true rest rest' e = absurd (ground (arith, e))

-- The integers of an account are of their types' widths, and its key and owner have 32 bytes.
abbrev pub InRange : Pubkey × Account → Type 0
InRange (q, a) =
    (q < 256 ^ 32) × (a.lamports < 256 ^ 8) × (a.owner < 256 ^ 32) × (a.rent_epoch < 256 ^ 8)

-- As many accounts, each with as much data.
abbrev pub SameSizes : List (Pubkey × Account) → List (Pubkey × Account) → Type 0
SameSizes [] [] = Unit
SameSizes [] (s ∷ ss) = ⊥
SameSizes (s ∷ ss) [] = ⊥
SameSizes ((q, a) ∷ ss) ((r, b) ∷ ts) = (length a.contents ≡ length b.contents) × SameSizes ss ts

account_bytes-then :
    (q : Pubkey) (a : Account) (rest : Bytes)
    → account_bytes q a ++ rest
      ≡ le_bytes 32 q
        ++ (a.contents
            ++ (le_bytes 8 a.lamports
                ++ (le_bytes 32 a.owner
                    ++ ((if a.executable then 1 else 0) ∷ (le_bytes 8 a.rent_epoch ++ rest)))))
unfolding account_bytes
account_bytes-then q a rest = simp append_assoc

account_bytes-injective :
    (q r : Pubkey) (a b : Account) (rest rest' : Bytes)
    → InRange (q, a)
    → InRange (r, b)
    → length a.contents ≡ length b.contents
    → account_bytes q a ++ rest ≡ account_bytes r b ++ rest'
    → (◌≡◌ {A = Pubkey × Account} (q, a) (r, b)) × (rest ≡ rest')
account_bytes-injective q r a b rest rest' (k, l, o, t) (k', l', o', t') same e =
    let (key, e1) =
      le_bytes-injective 32 q r _ _ k k'
        (sym (account_bytes-then q a rest) ∙ (e ∙ account_bytes-then r b rest')) in
    let (held, e2) = append-injective a.contents b.contents _ _ same e1 in
    let (paid, e3) = le_bytes-injective 8 a.lamports b.lamports _ _ l l' e2 in
    let (owned, e4) = le_bytes-injective 32 a.owner b.owner _ _ o o' e3 in
    let (runs, e5) = flag-injective a.executable b.executable _ _ e4 in
    let (rent, e6) = le_bytes-injective 8 a.rent_epoch b.rent_epoch rest rest' t t' e5 in
    (
      λ i. (
        key i,
        record {
          lamports = paid i;
          contents = held i;
          owner = owned i;
          executable = runs i;
          rent_epoch = rent i;
        },
      ),
      e6,
    )

saved_bytes-injective :
    (ss ts : List (Pubkey × Account))
    → All InRange ss
    → All InRange ts
    → SameSizes ss ts
    → saved_bytes ss ≡ saved_bytes ts
    → ss ≡ ts
unfolding saved_bytes
saved_bytes-injective [] [] fit fit' same e = refl
saved_bytes-injective [] (t ∷ ts) fit fit' same e = absurd same
saved_bytes-injective (s ∷ ss) [] fit fit' same e = absurd same
saved_bytes-injective ((q, a) ∷ ss) ((r, b) ∷ ts) (fit, fits) (fit', fits') (same, sames) e =
    let (front, back) =
      account_bytes-injective q r a b (saved_bytes ss) (saved_bytes ts) fit fit' same e in
    λ i. front i ∷ saved_bytes-injective ss ts fits fits' sames back i

-- Unless the hasher collides on the two, the hashes of two lists of saved accounts with the same sizes of
-- data, all of whose fields fit their types, are the same exactly if the lists are: no key, data,
-- lamports, owner, flag or rent epoch that differs goes unseen.
pub hash_accounts-same_iff :
    (rt : Runtime) (old new : List (Pubkey × Account))
    → All InRange old
    → All InRange new
    → SameSizes old new
    → (rt.finish (saved_bytes old) ≡ rt.finish (saved_bytes new)
        → saved_bytes old ≡ saved_bytes new)
    → (hash_accounts rt old ≡ hash_accounts rt new) ↔ (old ≡ new)
unfolding hash_accounts
hash_accounts-same_iff rt old new fits fits' sizes no_collision = (
  λ e. saved_bytes-injective old new fits fits' sizes (no_collision e),
  ap (λ s. rt.finish (saved_bytes s)),
)
