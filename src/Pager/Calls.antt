-- ===== src/Pager/Calls.antt =====
-- What the calls of a transaction leave of each page, said of the calls alone (`last_write`), and
-- the steps of leafdb/pager.py beside it.
use leafdb.Prelude.{
  ℕ, ◌+◌, ◌≡◌, refl, sym, ap, ◌∙◌, List, [], ◌∷◌, true, Option, none, some, ltb, leb, ◌==◌, inl,
  inr, Bool-cases, if◌then◌else◌, arith, length, not, ◌&&◌,
}
use mathlib.Core.Path.{ap₂, subst}
use leafdb.Prelude.Errors.{ok, err, ◌>>=◌, value_error}
use leafdb.Bytes.{Bytes}
use leafdb.Pager.Pool.{page_size, member, add_member, member-add_member}
use leafdb.Pager.View.{or_file, view, find_page-pool_put}
use leafdb.Pager.Active.{stored, write_active}
use leafdb.Pager.Reads.{Reads, remember-Reads, get_active}
use leafdb.Pager.Txn.{Call, run, step, after_get, after_write, after_allocate}
use leafdb.Pager.{Pager, get, write, allocate, remember, touch, touched_pages, pad, empty_page}

-- The page count after a write of page `n`.
abbrev pub grown : ℕ → ℕ → ℕ
grown n count = if leb count n then n + 1 else count

-- The page count after a call.
abbrev pub next_count : ℕ → Call → ℕ
next_count count (Call.fetch n) = count
next_count count (Call.store n data_) =
    if ltb page_size (length data_) then count else grown n count
next_count count Call.grow = count + 1

unfoldable pub last_count : ℕ → List Call → ℕ
last_count count [] = count
last_count count (c ∷ cs) = last_count (next_count count c) cs

-- The bytes of the last write to page `k`, of calls that begin with `count` pages: of a page that
-- fits, filled up with zeros, or of a new page.
unfoldable pub last_write : ℕ → List Call → ℕ → Option Bytes → Option Bytes
last_write count [] k last = last
last_write count (Call.fetch n ∷ cs) k last = last_write count cs k last
last_write count (Call.store n data_ ∷ cs) k last =
    let fits = last_write (grown n count) cs k (if n == k then some (pad data_) else last) in
    let big = last_write count cs k last in if ltb page_size (length data_) then big else fits
last_write count (Call.grow ∷ cs) k last =
    last_write (count + 1) cs k (if count == k then some (pad empty_page) else last)

-- What a session in a transaction sees of a page that it has written.
unfoldable pub seen : Pager → ℕ → Option Bytes
seen p k = if member k (touched_pages p.touched) then some (view p k) else none

seen-Reads : (p q : Pager) (k : ℕ) → Reads p q → seen q k ≡ seen p k
unfolding seen
seen-Reads p q k r =
    ap₂ (λ w v. if member k (touched_pages w) then some v else none) (r.touched_same)
      (r.view_same k)

stored-seen :
    (n k : ℕ) (b : Bytes) (p : Pager) (t : List ℕ)
    → p.touched ≡ some t
    → seen (stored n b p) k ≡ (if n == k then some (pad b) else seen p k)
unfolding seen stored touch view
stored-seen n k b p t active =
    let page = ap (or_file k p.file) (find_page-pool_put n k (pad b) true p.pool) in
    let there = ap (λ w. member k (touched_pages (touch n w))) active ∙ member-add_member n k t in
    elim (Bool-cases (n == k)) [
      | inl same ↦ rw (there, page, same) refl
      | inr other ↦ rw (there, page, other, active) refl
    ]

-- A call in a transaction: the transaction goes on, and the rest of the calls leave what they
-- leave behind the call.
record Follows (c : Call) (p p' : Pager) : Type 0 where
  pages : List ℕ
  active : p'.touched ≡ some pages
  count_is : p'.num_pages ≡ next_count p.num_pages c
  leaves :
      (cs : List Call) (k : ℕ)
      → last_write p.num_pages (c ∷ cs) k (seen p k) ≡ last_write p'.num_pages cs k (seen p' k)

fetch-Follows :
    (n : ℕ) (p q : Pager) (t : List ℕ) → p.touched ≡ some t → Reads p q → Follows (Call.fetch n) p q
unfolding last_write
fetch-Follows n p q t active r = record {
  pages = t;
  active = r.touched_same ∙ active;
  count_is = r.count_same;
  leaves = λ cs k. sym (ap₂ (λ c s. last_write c cs k s) (r.count_same) (seen-Reads p q k r));
}

step-fetch :
    (n : ℕ) (p : Pager) (t : List ℕ)
    → p.touched ≡ some t
    → Follows (Call.fetch n) p (step (Call.fetch n) p)
unfolding step after_get get
step-fetch n p t active = elim (Bool-cases (leb p.num_pages n && not (n == 0))) [
  | inl outside ↦
      let e : step (Call.fetch n) p ≡ p = rw outside refl in
      subst (Follows (Call.fetch n) p) (sym e) (
        fetch-Follows n p p t active
          (record { touched_same = refl; count_same = refl; view_same = λ k. refl }))
  | inr inside ↦
      let (q, gets, r) = get_active n p t active inside in
      let e : step (Call.fetch n) p ≡ q = ap (after_get p) gets in
      subst (Follows (Call.fetch n) p) (sym e) (fetch-Follows n p q t active r)
]

step-store :
    (n : ℕ) (b : Bytes) (p : Pager) (t : List ℕ)
    → p.touched ≡ some t
    → Follows (Call.store n b) p (step (Call.store n b) p)
unfolding step after_write last_write touch stored
step-store n b p t active =
    let r = remember-Reads n p t active in
    let still = r.touched_same ∙ active in
    let e = write_active n b p t still in
    elim (Bool-cases (ltb page_size (length b))) [
      | inl big ↦
          let refused : write n b p ≡ err value_error = e ∙ rw big refl in
          let e' : step (Call.store n b) p ≡ p = ap (after_write p) refused in
          subst (Follows (Call.store n b) p) (sym e') (record {
            pages = t;
            active = active;
            count_is = rw big refl;
            leaves = λ cs k. rw big refl;
          })
      | inr fits ↦
          let written : write n b p ≡ ok (stored n b (remember n p)) = e ∙ rw fits refl in
          let e' : step (Call.store n b) p ≡ stored n b (remember n p) =
            ap (after_write p) written in
          subst (Follows (Call.store n b) p) (sym e') (record {
            pages = add_member n t;
            active = ap (touch n) still;
            count_is = ap (grown n) (r.count_same) ∙ rw fits refl;
            leaves = λ cs k. rw fits (
                sym (
                  ap₂ (λ c s. last_write (grown n c) cs k s) (r.count_same)
                    (stored-seen n k b (remember n p) t still
                      ∙ ap (λ s. if n == k then some (pad b) else s)
                          (seen-Reads p (remember n p) k r))));
          })
    ]

step-grow : (p : Pager) (t : List ℕ) → p.touched ≡ some t → Follows Call.grow p (step Call.grow p)
unfolding step after_allocate allocate last_write touch stored empty_page seen view
step-grow p t active =
    let n = p.num_pages in
    let p' : Pager = record p { num_pages = n + 1 } in
    let r = remember-Reads n p' t active in
    let still = r.touched_same ∙ active in
    let wrote : write n empty_page p' ≡ ok (stored n empty_page (remember n p')) =
      write_active n empty_page p' t still in
    let e : step Call.grow p ≡ stored n empty_page (remember n p') =
      ap (λ m. after_allocate p (m >>= λ q. ok (n, q))) wrote in
    let count : grown n (remember n p').num_pages ≡ n + 1 =
      ap (grown n) (r.count_same) ∙ ground arith in
    subst (Follows Call.grow p) (sym e) (record {
      pages = add_member n t;
      active = ap (touch n) still;
      count_is = count;
      leaves = λ cs k. sym (
          ap₂ (λ c s. last_write c cs k s) count
            (stored-seen n k empty_page (remember n p') t still
              ∙ ap (λ s. if n == k then some (pad empty_page) else s)
                  (seen-Reads p' (remember n p') k r)));
    })

step-Follows : (c : Call) (p : Pager) (t : List ℕ) → p.touched ≡ some t → Follows c p (step c p)
step-Follows (Call.fetch n) p t active = step-fetch n p t active
step-Follows (Call.store n b) p t active = step-store n b p t active
step-Follows Call.grow p t active = step-grow p t active

pub run-seen :
    (cs : List Call) (p : Pager) (t : List ℕ)
    → p.touched ≡ some t
    → ((run cs p).num_pages ≡ last_count p.num_pages cs)
      × ((k : ℕ) → seen (run cs p) k ≡ last_write p.num_pages cs k (seen p k))
unfolding run last_write last_count
run-seen [] p t active = (refl, λ k. refl)
run-seen (c ∷ cs) p t active =
    let f = step-Follows c p t active in
    let (count, pages) = run-seen cs (step c p) f.pages f.active in
    (count ∙ ap (λ n. last_count n cs) (f.count_is), λ k. pages k ∙ sym (f.leaves cs k))
