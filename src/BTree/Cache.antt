-- ===== src/BTree/Cache.antt =====
-- The cache of nodes of `_load` in leafdb/btree.py. A bytes object is a number, its identity, and
-- `heap` says what its bytes are, which never change; the cache keeps the node that was read from
-- an object by page number. The nodes are mutable in the code: that they still are what their
-- bytes say is `IsFresh`, which a node that was changed in place breaks.
use leafdb.Prelude.{
  ℕ, suc, ◌≤◌, ◌≡◌, refl, sym, ap, ◌∙◌, List, [], ◌∷◌, Option, none, some, ltb, ◌==◌, ==_iff,
  if◌then◌else◌, inl, inr, Bool-cases, Option-cases, arith, length,
}
use mathlib.Core.Path.{subst}
use leafdb.Prelude.Errors.{Result, ok, err, ◌>>=◌, >>=-eq-ok}
use leafdb.Bytes.{Bytes}
use leafdb.BTree.Codec.{Node, node_from_bytes}

abbrev pub Cache : Type 0
Cache = List (ℕ × (ℕ × Node))

-- self._ncache.get(n)
unfoldable pub find_node : ℕ → Cache → Option (ℕ × Node)
find_node n [] = none
find_node n ((m, x) ∷ c) = if m == n then some x else find_node n c

-- self._ncache[n] = (data, node)
unfoldable pub put_node : ℕ → ℕ × Node → Cache → Cache
put_node n x [] = (n, x) ∷ []
put_node n x ((m, y) ∷ c) = if m == n then (m, x) ∷ c else (m, y) ∷ put_node n x c

module _ (heap : ℕ → Bytes) where
  -- The part of `_load` behind the test of the cache.
  unfoldable pub load_miss : ℕ → ℕ → Cache → Result (Node × Cache)
  unfolding put_node
  load_miss n data_ c = do
    node ← node_from_bytes (heap data_)
    ok (node, put_node n (data_, node) (if ltb 512 (length c) then [] else c))

  -- _load on the object that the pager returned for page `n`
  unfoldable pub load_cached : ℕ → ℕ → Cache → Result (Node × Cache)
  unfolding find_node load_miss
  load_cached n data_ c = elim (find_node n c) [
    | none ↦ load_miss n data_ c
    | some (old, node) ↦ if old == data_ then ok (node, c) else load_miss n data_ c
  ]

  unfoldable pub IsFresh : Cache → Type 0
  IsFresh [] = Unit {0}
  IsFresh ((n, (o, node)) ∷ c) = (node_from_bytes (heap o) ≡ ok node) × IsFresh c

  find_node-IsFresh :
      (n o : ℕ) (node : Node) (c : Cache)
      → IsFresh c
      → find_node n c ≡ some (o, node)
      → node_from_bytes (heap o) ≡ ok node
  unfolding IsFresh find_node
  find_node-IsFresh n o node [] fresh h = absurd (cc h)
  find_node-IsFresh n o node ((m, (o', node')) ∷ c) fresh h = elim (Bool-cases (m == n)) [
    | inl same ↦
        let x : ℕ × Node = (o', node') in
        let y : ℕ × Node = (o, node) in
        let e : x ≡ y = cc (rw same at h) in
        subst (λ x. node_from_bytes (heap x.0) ≡ ok x.1) e (fresh.0)
    | inr other ↦ find_node-IsFresh n o node c fresh.1 (rw other at h)
  ]

  put_node-IsFresh :
      (n o : ℕ) (node : Node) (c : Cache)
      → IsFresh c
      → node_from_bytes (heap o) ≡ ok node
      → IsFresh (put_node n (o, node) c) × (length (put_node n (o, node) c) ≤ suc (length c))
  unfolding IsFresh put_node
  put_node-IsFresh n o node [] fresh reads = ((reads, tt), omega arith)
  put_node-IsFresh n o node ((m, (o', node')) ∷ c) fresh reads = elim (Bool-cases (m == n)) [
    | inl same ↦ rw same ((reads, fresh.1), omega arith)
    | inr other ↦
        let (rest, long) = put_node-IsFresh n o node c (fresh.1) reads in
        rw other ((fresh.0, rest), omega (arith, long))
  ]

  load_miss-IsFresh :
      (n o : ℕ) (c c' : Cache) (node : Node)
      → IsFresh c
      → load_miss n o c ≡ ok (node, c')
      → IsFresh c' × (length c' ≤ 513)
  unfolding load_miss IsFresh
  load_miss-IsFresh n o c c' node fresh h =
      let (found, reads, h') = >>=-eq-ok (node_from_bytes (heap o)) _ h in
      elim (Bool-cases (ltb 512 (length c))) [
        | inl full ↦
            let (rest, long) = put_node-IsFresh n o found [] tt reads in
            let e : put_node n (o, found) [] ≡ c' = cc (rw full at h') in
            rw (sym e) (rest, omega (arith, long))
        | inr room ↦
            let (rest, long) = put_node-IsFresh n o found c fresh reads in
            let e : put_node n (o, found) c ≡ c' = cc (rw room at h') in
            rw (sym e) (rest, ground (arith, long, room))
      ]

  load_miss-node :
      (n o : ℕ) (c : Cache) → (load_miss n o c >>= λ r. ok (r.0)) ≡ node_from_bytes (heap o)
  unfolding load_miss
  load_miss-node n o c = settle (node_from_bytes (heap o)) _
    where
      settle :
          (m : Result Node) (f : Node → Cache)
          → ((m >>= λ node. ok (node, f node)) >>= λ (r : Node × Cache). ok (r.0)) ≡ m
      settle (ok node) f = refl
      settle (err e) f = refl

  -- With a cache of at most 513 nodes that are what their bytes say, a load returns or raises what
  -- reading the page's bytes does, and leaves such a cache.
  pub load_cached-node_from_bytes :
      (n o : ℕ) (c : Cache)
      → IsFresh c
      → length c ≤ 513
      → ((load_cached n o c >>= λ r. ok (r.0)) ≡ node_from_bytes (heap o))
        × ((node : Node) (c' : Cache)
            → load_cached n o c ≡ ok (node, c')
            → IsFresh c' × (length c' ≤ 513))
  unfolding load_cached
  load_cached-node_from_bytes n o c fresh small = elim (Option-cases (find_node n c)) [
    | inl missing ↦
        let e : load_cached n o c ≡ load_miss n o c = rw (missing, load_cached) refl in
        (
          ap (λ m. m >>= λ r. ok (r.0)) e ∙ load_miss-node n o c,
          λ node c' h. load_miss-IsFresh n o c c' node fresh (sym e ∙ h),
        )
    | inr ((old, node), found) ↦ elim (Bool-cases (old == o)) [
      | inl same ↦
          let e : load_cached n o c ≡ ok (node, c) = rw (found, same, load_cached) refl in
          let reads : node_from_bytes (heap o) ≡ ok node =
            ap (λ j. node_from_bytes (heap j)) (sym ((==_iff old o).0 same))
            ∙ find_node-IsFresh n old node c fresh found in
          (
            ap (λ m. m >>= λ r. ok (r.0)) e ∙ sym reads,
            λ node' c' h.
                let e' : c ≡ c' = cc (sym e ∙ h) in
                subst (λ d. IsFresh d × (length d ≤ 513)) e' (fresh, small),
          )
      | inr other ↦
          let e : load_cached n o c ≡ load_miss n o c = rw (found, other, load_cached) refl in
          (
            ap (λ m. m >>= λ r. ok (r.0)) e ∙ load_miss-node n o c,
            λ node' c' h. load_miss-IsFresh n o c c' node' fresh (sym e ∙ h),
          )
    ]
  ]
