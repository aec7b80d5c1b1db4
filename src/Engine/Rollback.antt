-- ===== src/Engine/Rollback.antt =====
-- ROLLBACK of a session whose statements took the snapshot (`_ensure_snapshot`).
use leafdb.Prelude.{ℕ, ◌≡◌, refl, List, [], true, false, none, inl, inr, Bool-cases}
use leafdb.Prelude.Errors.{ok, >>=-eq-ok}
use leafdb.Pager.{Pager, begin_txn}
use leafdb.Pager.View.{view}
use leafdb.Pager.Txn.{Call, run}
use leafdb.Pager.Rollback.{rollback_txn-view}
use leafdb.Engine.{Session, begin, ensure_snapshot, restored, rollback}

module _ {M H : Type 0} where
  begin-eq-ok :
      (s t : Session M H)
      → begin s ≡ ok t
      → (s.in_txn ≡ false)
        × ((p : Pager) × (begin_txn s.pager ≡ ok p)
            × (t ≡ record s { pager = p; snapshot = none; in_txn = true }))
  unfolding begin
  begin-eq-ok s t h = elim (Bool-cases s.in_txn) [
    | inl busy ↦ absurd (cc (rw busy at h))
    | inr idle ↦
        let (p, e, h') = >>=-eq-ok (begin_txn s.pager) _ (rw idle at h) in
        (idle, (p, e, ok_injective h'))
  ]
    where
      ok_injective : {a b : Session M H} → ok a ≡ ok b → b ≡ a
      ok_injective e = cc

  -- A session begins a transaction and takes the snapshot; its calls change the pages and what is
  -- kept in memory in any way. Then the rollback succeeds, shows every page as before, has
  -- the tables and indexes of before, leaves the data file as it was, and ends the transaction. The
  -- dicts that the snapshot refers to stay as the transaction left them, and the list of free
  -- pages is empty.
  pub rollback-begin :
      (s t : Session M H) (cs : List Call) (m : M) (h : H) (free : List ℕ)
      → begin s ≡ ok t
      → (u : Session M H) × (rollback (record (ensure_snapshot t) {
        pager = run cs t.pager;
        memory = m;
        objects = h;
        free_pages = free;
      })
          ≡ ok u)
        × ((k : ℕ) → view u.pager k ≡ view s.pager k)
        × (u.memory ≡ s.memory)
        × (u.objects ≡ h)
        × (u.free_pages ≡ [])
        × (u.pager.file ≡ s.pager.file)
        × (u.in_txn ≡ false)
  unfolding rollback ensure_snapshot restored
  rollback-begin s t cs m h free begun =
      let (idle, (p, e, same)) = begin-eq-ok s t begun in
      let (views, file, _) = rollback_txn-view s.pager p cs e in
      rw same (_, refl, views, refl, refl, refl, file, refl)
