-- ===== src/Pager/Written.antt =====
-- The pages that a transaction collects at its commit.
use leafdb.Prelude.{
  ℕ, ◌≡◌, refl, ap, ◌∙◌, List, [], ◌∷◌, none, some, ◌==◌, inl, inr, Bool-cases, if◌then◌else◌,
}
use mathlib.Core.Path.{ap₂}
use leafdb.Prelude.Errors.{ok}
use leafdb.Bytes.{Bytes}
use leafdb.Pager.Pool.{find_page, member}
use leafdb.Pager.View.{view}
use leafdb.Pager.Txn.{Call, run}
use leafdb.Pager.Pool.{Pages}
use leafdb.Prelude.{map, ==_iff}
use leafdb.Pager.Rollback.{begin_txn-eq-ok, collect_commit-view, member-sort_numbers}
use leafdb.Pager.{begin_txn, collect_commit, sort_numbers, Pager, touched_pages}
use leafdb.Pager.Calls.{last_write, last_count, seen, run-seen}

-- The pages that a transaction has written are those that its calls wrote, and are seen as the last
-- such call left them.
pub seen-last_write :
    (p q : Pager) (cs : List Call)
    → begin_txn p ≡ ok q
    → (k : ℕ)
    → (if member k (touched_pages (run cs q).touched) then some (view (run cs q) k) else none)
      ≡ last_write p.num_pages cs k none
unfolding seen member
seen-last_write p q cs begins k =
    let q_is = (begin_txn-eq-ok p q begins).1 in
    let active : q.touched ≡ some [] = ap (λ r. r.touched) q_is in
    (run-seen cs q [] active).1 k
    ∙ ap₂ (λ c w. last_write c cs k (if member k (touched_pages w) then some (view q k) else none))
        (ap (λ r. r.num_pages) q_is) active

abbrev images_by : (ℕ → Bytes) → List ℕ → Pages
images_by g ns = map (λ n. (n, g n)) ns

find_page-images_by :
    (g : ℕ → Bytes) (k : ℕ) (s : List ℕ)
    → find_page k (images_by g s) ≡ (if member k s then some (g k) else none)
unfolding find_page member
find_page-images_by g k [] = refl
find_page-images_by g k (n ∷ r) = elim (Bool-cases (n == k)) [
  | inl same ↦ rw same (ap (λ j. some (g j)) ((==_iff n k).0 same))
  | inr other ↦ rw other (find_page-images_by g k r)
]

-- After any calls in a transaction the commit collects without an exception, for each page that
-- was allocated or written with at most 4096 bytes, the bytes of the last such call, and no other
-- page; it collects the page count that the calls leave, and it ends the transaction.
pub collect_commit-run :
    (p q : Pager) (cs : List Call)
    → begin_txn p ≡ ok q
    → (images : Pages) × (r : Pager) × (collect_commit (run cs q)
        ≡ ok (images, last_count p.num_pages cs, r))
      × ((k : ℕ) → find_page k images ≡ last_write p.num_pages cs k none)
      × (r.touched ≡ none)
unfolding seen member
collect_commit-run p q cs begins =
    let q_is = (begin_txn-eq-ok p q begins).1 in
    let active : q.touched ≡ some [] = ap (λ r. r.touched) q_is in
    let count : q.num_pages ≡ p.num_pages = ap (λ r. r.num_pages) q_is in
    let counted = (run-seen cs q [] active).0 in
    let ns = sort_numbers (touched_pages (run cs q).touched) in
    (
      images_by (view (run cs q)) ns,
      record (run cs q) { touched = none; shadow = [] },
      collect_commit-view p q cs begins
          ∙ ap
              (λ c. ok (
                images_by (view (run cs q)) ns,
                c,
                record (run cs q) { touched = none; shadow = [] },
              ))
              (counted ∙ ap (λ c. last_count c cs) count),
      λ k.
          find_page-images_by (view (run cs q)) k ns
          ∙ ap (λ b. if b then some (view (run cs q) k) else none)
              (member-sort_numbers k (touched_pages (run cs q).touched))
          ∙ seen-last_write p q cs begins k,
      refl,
    )
