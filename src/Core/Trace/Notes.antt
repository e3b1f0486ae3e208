-- ===== src/Core/Trace/Notes.antt =====
-- `annotate` of trace.rs: which frame takes the note, and what the note leaves alone.
use solinv.Base.{
  nat_eq, Option-cases, is_some, any, Text, ℕ, ◌≡◌, refl, inl, inr, Bool, ◌&&◌, ◌||◌, none, some,
  List, [], ◌∷◌, ◌++◌, arith,
}
use solinv.Solana.{Pubkey}
use solinv.Core.Trace.{CpiNode, node, Nodes, leaf, child}
use solinv.Core.Trace.Annotated.{annotate_node, annotate, count_node, frame_count}

-- The programs and depths of the frames that have no note, in the order of the log.
unfoldable mutual
  pub unnoted_node : CpiNode → List (Pubkey × ℕ)
  unnoted_node (node p d instruction units fails none children) = (p, d) ∷ unnoted children
  unnoted_node (node p d instruction units fails (some note) children) = unnoted children

  pub unnoted : Nodes → List (Pubkey × ℕ)
  unnoted leaf = []
  unnoted (child first others) = unnoted_node first ++ unnoted others

abbrev pub is_frame : Pubkey → ℕ → (Pubkey × ℕ) → Bool
is_frame program depth f = nat_eq f.0 program && nat_eq f.1 depth

any-append {ℓ} :
    {A : Type ℓ} (p : A → Bool) (xs ys : List A) → any p (xs ++ ys) ≡ (any p xs || any p ys)
any-append p [] ys = refl
any-append p (x ∷ xs) ys = rw (any-append p xs ys) (ground arith)

module _ (program : Pubkey) (depth : ℕ) (text : Text) where
  mutual
    unfolding annotate unnoted

    annotate_node-is_some :
        (n : CpiNode)
        → is_some (annotate_node n program depth text)
          ≡ any (is_frame program depth) (unnoted_node n)
    annotate_node-is_some (node p d instruction units fails none children) =
        ground (arith, annotate-some children)
    annotate_node-is_some (node p d instruction units fails (some note) children) =
        ground (arith, annotate-some children)

    annotate-some :
        (t : Nodes)
        → is_some (annotate t program depth text) ≡ any (is_frame program depth) (unnoted t)
    annotate-some leaf = refl
    annotate-some (child first others) = ground (
      arith,
      any-append (is_frame program depth) (unnoted_node first) (unnoted others),
      annotate_node-is_some first,
      annotate-some others,
    )

  mutual
    unfolding annotate frame_count

    count_node-annotate_node :
        (n n' : CpiNode)
        → annotate_node n program depth text ≡ some n'
        → count_node n' ≡ count_node n
    count_node-annotate_node (node p d instruction units fails given children) n' h =
        elim (Option-cases (annotate children program depth text)) [
          | inl e ↦ ground (arith, h, e)
          | inr (marked, e) ↦ ground (arith, h, e, frame_count-marked children marked e)
        ]

    frame_count-marked :
        (t t' : Nodes) → annotate t program depth text ≡ some t' → frame_count t' ≡ frame_count t
    frame_count-marked leaf t' h = ground (arith, h)
    frame_count-marked (child first others) t' h =
        elim (Option-cases (annotate_node first program depth text)) [
          | inr (marked, e) ↦ ground (arith, h, e, count_node-annotate_node first marked e)
          | inl e ↦ elim (Option-cases (annotate others program depth text)) [
            | inl n ↦ ground (arith, h, e, n)
            | inr (marked, m) ↦ ground (arith, h, e, m, frame_count-marked others marked m)
          ]
        ]

-- `annotate` marks a frame exactly if the tree has a frame of that program at that depth without a
-- note, anywhere below its roots.
pub annotate-is_some :
    (t : Nodes) (program : Pubkey) (depth : ℕ) (text : Text)
    → is_some (annotate t program depth text) ≡ any (is_frame program depth) (unnoted t)
annotate-is_some t program depth text = annotate-some program depth text t

-- A tree that `annotate` has marked has as many frames as before.
pub frame_count-annotate :
    (t t' : Nodes) (program : Pubkey) (depth : ℕ) (text : Text)
    → annotate t program depth text ≡ some t'
    → frame_count t' ≡ frame_count t
frame_count-annotate t t' program depth text = frame_count-marked program depth text t t'
