-- ===== src/Pager/Reads.antt =====
-- Calls of leafdb/pager.py that change nothing that a session in a transaction sees.
use leafdb.Prelude.{
  ℕ, ◌+◌, ◌≡◌, refl, sym, ap, ◌∙◌, List, false, none, some, leb, not, ◌&&◌, ◌==◌, ==_iff, inl, inr,
  Option-cases, Bool-cases,
}
use leafdb.Prelude.Errors.{ok}
use leafdb.Pager.Pool.{find_page, pool_get}
use leafdb.Pager.View.{or_file, view, find_page-pool_get, find_page-pool_put, pool_get-eq-find_page}
use leafdb.Pager.Active.{noted, remember_active, loaded, load_active}
use leafdb.Pager.{Pager, read_page, get, remember, has_shadow}

-- The second pager has the transaction, the page count and the pages of the first.
pub record Reads (p q : Pager) : Type 0 where
  pub touched_same : q.touched ≡ p.touched
  pub count_same : q.num_pages ≡ p.num_pages
  pub view_same : (k : ℕ) → view q k ≡ view p k

pub remember-Reads : (n : ℕ) (p : Pager) (t : List ℕ) → p.touched ≡ some t → Reads p (remember n p)
unfolding noted view
remember-Reads n p t active = elim (Bool-cases (has_shadow n p.shadow)) [
  | inl old ↦
      let e : remember n p ≡ p = remember_active n p t active ∙ rw old refl in
      rw e (record { touched_same = refl; count_same = refl; view_same = λ k. refl })
  | inr new ↦
      let e : remember n p ≡ noted n p = remember_active n p t active ∙ rw new refl in
      rw e (record {
        touched_same = refl;
        count_same = refl;
        view_same = λ k. ap (or_file k p.file) (find_page-pool_get n k p.pool);
      })
]

loaded-Reads : (n : ℕ) (p : Pager) → find_page n p.pool.pages ≡ none → Reads p (loaded n p)
unfolding loaded view
loaded-Reads n p missing = record {
  touched_same = refl;
  count_same = refl;
  view_same = λ k.
      ap (or_file k p.file) (find_page-pool_put n k (read_page n p.file) false p.pool)
      ∙ (elim (Bool-cases (n == k)) [
        | inl same ↦ rw same (
            ap (λ j. read_page j p.file) ((==_iff n k).0 same)
            ∙ sym (
                ap (or_file k p.file)
                  (sym (ap (λ j. find_page j p.pool.pages) ((==_iff n k).0 same)) ∙ missing)))
        | inr other ↦ rw other refl
      ]);
}

-- A page in range is read as it is seen.
pub get_active :
    (n : ℕ) (p : Pager) (t : List ℕ)
    → p.touched ≡ some t
    → (leb p.num_pages n && not (n == 0)) ≡ false
    → (q : Pager) × (get n p ≡ ok (view p n, q)) × Reads p q
unfolding get view
get_active n p t active inside = elim (Option-cases (find_page n p.pool.pages)) [
  | inl missing ↦ (
    loaded n p,
    rw (inside, pool_get-eq-find_page n p.pool ∙ missing, missing) (load_active n p t active),
    loaded-Reads n p missing,
  )
  | inr (b, found) ↦ (
    record p { pool = (pool_get n p.pool).1; hits = p.hits + 1 },
    rw (inside, pool_get-eq-find_page n p.pool ∙ found, found) refl,
    record {
      touched_same = refl;
      count_same = refl;
      view_same = λ k. ap (or_file k p.file) (find_page-pool_get n k p.pool);
    },
  )
]
