-- ===== src/Pager/LostCommit.antt =====
-- A page that was committed and not yet written to the data file is dirty. When a later transaction
-- writes it and rolls back, it is marked clean, and the next flush leaves it out.
use leafdb.Prelude.{
  ℕ, ◌≡◌, refl, sym, ap, ◌∙◌, [], ◌∷◌, Option, none, some, ltb, ==_refl, if◌then◌else◌, length, inl,
  inr, Bool-cases,
}
use leafdb.Prelude.Errors.{ok, err, value_error}
use leafdb.Bytes.{Bytes}
use leafdb.Pager.Pool.{BufferPool, page_size, discard, member, add_member, pool_put}
use leafdb.Pager.View.{dirty-pool_get}
use leafdb.Pager.Active.{stored, noted, remember_active, write_active}
use leafdb.Pager.Rollback.{begin_txn-eq-ok}
use leafdb.Pager.{
  Pager, begin_txn, write, remember, has_shadow, rollback_txn, restore_page, restore_all, flush,
  flush_pages, sort_numbers,
}

dirty-restore_page :
    (n : ℕ) (i : Option Bytes) (pool : BufferPool)
    → (restore_page n i pool).dirty ≡ discard n pool.dirty
unfolding restore_page pool_put
dirty-restore_page n none pool = refl
dirty-restore_page n (some b) pool = refl

dirty-add-discard : (n : ℕ) → discard n (add_member n (n ∷ [])) ≡ []
unfolding discard add_member member
dirty-add-discard n = rw (==_refl n) (rw (==_refl n))

module _ (p : Pager) (n : ℕ) (b : Bytes) where
  abbrev begun : Pager
  begun = record p { touched = some []; shadow = [] }

  write-begun : (r : Pager) → write n b begun ≡ ok r → r ≡ stored n b (noted n begun)
  unfolding has_shadow noted
  write-begun r h = elim (Bool-cases (ltb page_size (length b))) [
    | inl big ↦ absurd (cc (rw (writes, big) at h))
    | inr fits ↦ ok_injective (rw (writes, fits) at h)
  ]
    where
      noting : remember n begun ≡ noted n begun
      noting = remember_active n begun [] refl

      writes :
          write n b begun
          ≡ (if ltb page_size (length b) then err value_error else ok (stored n b (noted n begun)))
      writes =
          write_active n b begun [] (ap (λ (s : Pager). s.touched) noting)
          ∙ ap (λ s. if ltb page_size (length b) then err value_error else ok (stored n b s)) noting

      ok_injective : {s t : Pager} → ok s ≡ ok t → t ≡ s
      ok_injective e = cc

  clean : p.pool.dirty ≡ n ∷ [] → (rollback_txn (stored n b (noted n begun))).pool.dirty ≡ []
  unfolding rollback_txn restore_all stored noted pool_put
  clean d =
      dirty-restore_page n _ _
      ∙ ap (λ s. discard n (add_member n s)) (dirty-pool_get n p.pool ∙ d)
      ∙ dirty-add-discard n

-- Page `n` is the only dirty page. A transaction writes it and rolls back. The flush that follows
-- (a checkpoint makes one before it empties the log) leaves the data file as it was: the committed
-- image of the page does not reach it.
pub flush-rollback_txn :
    (p q r : Pager) (n : ℕ) (b : Bytes)
    → p.pool.dirty ≡ n ∷ []
    → begin_txn p ≡ ok q
    → write n b q ≡ ok r
    → (s : Pager) × (flush (rollback_txn r) ≡ ok s) × (s.file ≡ p.file)
unfolding flush flush_pages sort_numbers rollback_txn stored noted
flush-rollback_txn p q r n b d h w =
    let (_, e) = begin_txn-eq-ok p q h in
    let e' : r ≡ stored n b (noted n (begun p n b)) =
      write-begun p n b r (ap (write n b) (sym e) ∙ w) in
    let back = rollback_txn r in
    let none_dirty : back.pool.dirty ≡ [] =
      ap (λ (s : Pager). (rollback_txn s).pool.dirty) e' ∙ clean p n b d in
    (
      record back { pool = record back.pool { dirty = [] } },
      rw none_dirty,
      ap (λ (s : Pager). (rollback_txn s).file) e',
    )
