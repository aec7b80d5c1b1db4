-- ===== src/BTree/Codec/RoundTrip.antt =====
-- The bytes of a node are read back as the node.
use leafdb.Prelude.{
  ℕ, ◌+◌, ◌*◌, ◌≡◌, ◌≢◌, refl, ap, ◌∙◌, List, [], ◌∷◌, ◌++◌, Option, none, some, ◌==◌, ==_iff,
  Bool-cases, if◌then◌else◌, length, drop, append_assoc, take-append, arith, inl, inr,
}
use leafdb.Prelude.Int.{ℤ}
use leafdb.Prelude.Errors.{ok, >>=-eq-ok}
use leafdb.Bytes.{Bytes, pack, unpack_from, pack_q, unpack_q}
use leafdb.Bytes.RoundTrip.{unpack_from-be, pack_q-eq-ok, unpack_q-pack_q, drop-past, pack-eq-ok}
use leafdb.BTree.Codec.{
  Node, leaf, internal, Cell, no_page, page_or_none, pack_cells, pack_keys, pack_children, to_bytes,
  unpack_cells, unpack_keys, unpack_children, leaf_from, internal_from, node_from_bytes,
}

-- A packed field at an offset is read, and the rest stands behind it.
read_u :
    (v : ℕ) (a buf : Bytes) (off : ℕ) (rest : Bytes)
    → pack 4 v ≡ ok a
    → drop off buf ≡ a ++ rest
    → (unpack_from 4 buf off ≡ ok v) × (drop (off + 4) buf ≡ rest)
read_u v a buf off rest p at_off =
    let (lt, e) = pack-eq-ok 4 v a p in unpack_from-be 4 v buf off rest lt (rw (← e) at_off)

read_q :
    (z : ℤ) (a buf : Bytes) (off : ℕ) (rest : Bytes)
    → pack_q z ≡ ok a
    → drop off buf ≡ a ++ rest
    → (unpack_q buf off ≡ ok z) × (drop (off + 8) buf ≡ rest)
read_q z a buf off rest p at_off =
    let (fits, e) = pack_q-eq-ok z a p in unpack_q-pack_q z buf off rest fits (rw (← e) at_off)

regroup : (a b c d e : Bytes) → a ++ b ++ c ++ d ++ e ≡ a ++ (b ++ (c ++ (d ++ e)))
regroup a b c d e =
    append_assoc (a ++ b ++ c) d e
    ∙ append_assoc (a ++ b) c (d ++ e)
    ∙ append_assoc a b (c ++ (d ++ e))

unpack_cells-pack_cells :
    (cells : List Cell) (bs buf : Bytes) (off : ℕ) (rest : Bytes)
    → pack_cells cells ≡ ok bs
    → drop off buf ≡ bs ++ rest
    → unpack_cells (length cells) buf off ≡ ok cells
unfolding unpack_cells pack_cells
unpack_cells-pack_cells [] bs buf off rest p at_off = refl
unpack_cells-pack_cells ((k, v) ∷ r) bs buf off rest p at_off =
    let (a, p₁, q₁) = >>=-eq-ok (pack_q k) _ p in
    let (b, p₂, q₂) = >>=-eq-ok (pack 4 (length v)) _ q₁ in
    let (more, p₃, q₃) = >>=-eq-ok (pack_cells r) _ q₂ in
    let e : bs ≡ a ++ b ++ v ++ more = cc in
    let d : drop off buf ≡ a ++ (b ++ (v ++ (more ++ rest))) =
      at_off ∙ ap (λ xs. xs ++ rest) e ∙ regroup a b v more rest in
    let (u, d₁) = read_q k a buf off (b ++ (v ++ (more ++ rest))) p₁ d in
    let (w, d₂) = read_u (length v) b buf (off + 8) (v ++ (more ++ rest)) p₂ d₁ in
    rw
      (
        u,
        w,
        d₂,
        take-append v (more ++ rest),
        unpack_cells-pack_cells r more buf (off + 8 + 4 + length v) rest p₃
            (drop-past buf (off + 8 + 4) v (more ++ rest) d₂),
      )
      refl

unpack_keys-pack_keys :
    (keys : List ℤ) (bs buf : Bytes) (off : ℕ) (rest : Bytes)
    → pack_keys keys ≡ ok bs
    → drop off buf ≡ bs ++ rest
    → (unpack_keys (length keys) buf off ≡ ok keys) × (drop (off + 8 * length keys) buf ≡ rest)
unfolding unpack_keys pack_keys
unpack_keys-pack_keys [] bs buf off rest p at_off =
    let e : bs ≡ [] = cc in let o : off + 8 * 0 ≡ off = omega arith in (refl, rw (o, at_off, e))
unpack_keys-pack_keys (k ∷ r) bs buf off rest p at_off =
    let (a, p₁, q₁) = >>=-eq-ok (pack_q k) _ p in
    let (more, p₂, q₂) = >>=-eq-ok (pack_keys r) _ q₁ in
    let e : bs ≡ a ++ more = cc in
    let d : drop off buf ≡ a ++ (more ++ rest) = at_off ∙ rw (e) (append_assoc a more rest) in
    let (u, d₁) = read_q k a buf off (more ++ rest) p₁ d in
    let (w, d₂) = unpack_keys-pack_keys r more buf (off + 8) rest p₂ d₁ in
    let o : off + 8 * length (k ∷ r) ≡ off + 8 + 8 * length r = omega arith in
    (rw (u, w) refl, rw (o) d₂)

unpack_children-pack_children :
    (children : List ℕ) (bs buf : Bytes) (off : ℕ) (rest : Bytes)
    → pack_children children ≡ ok bs
    → drop off buf ≡ bs ++ rest
    → unpack_children (length children) buf off ≡ ok children
unfolding unpack_children pack_children
unpack_children-pack_children [] bs buf off rest p at_off = refl
unpack_children-pack_children (k ∷ r) bs buf off rest p at_off =
    let (a, p₁, q₁) = >>=-eq-ok (pack 4 k) _ p in
    let (more, p₂, q₂) = >>=-eq-ok (pack_children r) _ q₁ in
    let e : bs ≡ a ++ more = cc in
    let d : drop off buf ≡ a ++ (more ++ rest) = at_off ∙ rw (e) (append_assoc a more rest) in
    let (u, d₁) = read_u k a buf off (more ++ rest) p₁ d in
    rw (u, unpack_children-pack_children r more buf (off + 4) rest p₂ d₁) refl

-- The number that stands for no page is not a page's.
abbrev pub LinkIsPage : Node → Type 0
LinkIsPage (leaf cells nxt) = nxt ≢ some no_page
LinkIsPage (internal keys children) = Unit {0}

link_back :
    (nxt : Option ℕ)
    → nxt ≢ some no_page
    → (if page_or_none nxt == no_page then none else some (page_or_none nxt)) ≡ nxt
link_back none h = refl
link_back (some n) h = elim (Bool-cases (n == no_page)) [
  | inl e ↦ absurd (h (ap some ((==_iff n no_page).0 e)))
  | inr e ↦ rw (e) refl
]

leaf_round :
    (cells : List Cell) (nxt : Option ℕ) (bs rest : Bytes)
    → nxt ≢ some no_page
    → to_bytes (leaf cells nxt) ≡ ok bs
    → node_from_bytes (bs ++ rest) ≡ ok (leaf cells nxt)
unfolding to_bytes node_from_bytes leaf_from
leaf_round cells nxt bs rest h p =
    let (a, p₁, q₁) = >>=-eq-ok (pack 4 (page_or_none nxt)) _ p in
    let (b, p₂, q₂) = >>=-eq-ok (pack 4 (length cells)) _ q₁ in
    let (body, p₃, q₃) = >>=-eq-ok (pack_cells cells) _ q₂ in
    let e : bs ≡ (0 ∷ a) ++ b ++ body = cc in
    let buf : Bytes = ((0 ∷ a) ++ b ++ body) ++ rest in
    let d : drop 1 buf ≡ a ++ (b ++ (body ++ rest)) =
      append_assoc (a ++ b) body rest ∙ append_assoc a b (body ++ rest) in
    let (u, d₁) = read_u (page_or_none nxt) a buf 1 (b ++ (body ++ rest)) p₁ d in
    let (w, d₂) = read_u (length cells) b buf 5 (body ++ rest) p₂ d₁ in
    let c : unpack_cells (length cells) buf 9 ≡ ok cells =
      unpack_cells-pack_cells cells body buf 9 rest p₃ d₂ in
    rw (e) (rw (u, w, c) (ap (λ (n : Option ℕ). ok (leaf cells n)) (link_back nxt h)))

internal_round :
    (keys : List ℤ) (children : List ℕ) (bs rest : Bytes)
    → to_bytes (internal keys children) ≡ ok bs
    → node_from_bytes (bs ++ rest) ≡ ok (internal keys children)
unfolding to_bytes node_from_bytes internal_from
internal_round keys children bs rest p =
    let (a, p₁, q₁) = >>=-eq-ok (pack 4 (length keys)) _ p in
    let (b, p₂, q₂) = >>=-eq-ok (pack 4 (length children)) _ q₁ in
    let (ks, p₃, q₃) = >>=-eq-ok (pack_keys keys) _ q₂ in
    let (cs, p₄, q₄) = >>=-eq-ok (pack_children children) _ q₃ in
    let e : bs ≡ (1 ∷ a) ++ b ++ ks ++ cs = cc in
    let buf : Bytes = ((1 ∷ a) ++ b ++ ks ++ cs) ++ rest in
    let d : drop 1 buf ≡ a ++ (b ++ (ks ++ (cs ++ rest))) = regroup a b ks cs rest in
    let (u, d₁) = read_u (length keys) a buf 1 (b ++ (ks ++ (cs ++ rest))) p₁ d in
    let (w, d₂) = read_u (length children) b buf 5 (ks ++ (cs ++ rest)) p₂ d₁ in
    let (x, d₃) = unpack_keys-pack_keys keys ks buf 9 (cs ++ rest) p₃ d₂ in
    let y : unpack_children (length children) buf (9 + 8 * length keys) ≡ ok children =
      unpack_children-pack_children children cs buf (9 + 8 * length keys) rest p₄ d₃ in
    rw (e) (rw (u, w, x, y) refl)

-- What `to_bytes` makes of a node `node_from_bytes` reads back as that node, whatever bytes stand
-- behind it on the page, provided that a leaf's link is not the number that stands for no page.
pub node_from_bytes-to_bytes :
    (node : Node) (bs rest : Bytes)
    → LinkIsPage node
    → to_bytes node ≡ ok bs
    → node_from_bytes (bs ++ rest) ≡ ok node
node_from_bytes-to_bytes (leaf cells nxt) bs rest h p = leaf_round cells nxt bs rest h p
node_from_bytes-to_bytes (internal keys children) bs rest h p =
    internal_round keys children bs rest p
