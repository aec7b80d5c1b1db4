-- ===== src/Tests/Pages.antt =====
-- A pager with one committed page, page 0, which is dirty.
use leafdb.Prelude.{ℕ, ◌≡◌, refl, List, [], ◌∷◌, Bool, true, false, none, some}
use leafdb.Prelude.Errors.{Result, ok, err}
use leafdb.Pager.{
  Pager, begin_txn, rollback_txn, write, flush, collect_commit, evict_if_full, remember, has_shadow,
}
use leafdb.Pager.Pool.{pool_get, find_page}
use leafdb.Pager.View.{view}
use leafdb.Pager.Txn.{Call, run}
use leafdb.Pager.Rollback.{rollback_txn-view}
use leafdb.Pager.Calls.{last_count, last_write}
use leafdb.Pager.Written.{collect_commit-run}
use leafdb.Pager.Pool.{Pages}
use leafdb.Pager.LostCommit.{flush-rollback_txn}
use leafdb.File.{File}

abbrev empty_file : File
empty_file = record { size = 0; byte = λ i. 0 }

abbrev idle : Pager
idle = record {
  file = empty_file;
  num_pages = 1;
  pool = record { capacity = 4; pages = (0, 1 ∷ 2 ∷ []) ∷ []; dirty = 0 ∷ [] };
  touched = none;
  shadow = [];
  hits = 0;
  misses = 0;
}

abbrev started : Pager
started = record idle { touched = some [] }

begin_idle : begin_txn idle ≡ ok started
unfolding begin_txn
begin_idle = refl

abbrev calls : List Call
calls = Call.store 0 (9 ∷ []) ∷ Call.grow ∷ Call.fetch 0 ∷ Call.store 0 (8 ∷ []) ∷ []

rollback_txn-view_example :
    ((k : ℕ) → view (rollback_txn (run calls started)) k ≡ view idle k)
    × ((rollback_txn (run calls started)).file ≡ empty_file)
    × ((rollback_txn (run calls started)).touched ≡ none)
rollback_txn-view_example = rollback_txn-view idle started calls begin_idle

collect_commit-run_example :
    (images : Pages) × (r : Pager) × (collect_commit (run calls started)
      ≡ ok (images, last_count idle.num_pages calls, r))
    × ((k : ℕ) → find_page k images ≡ last_write idle.num_pages calls k none)
    × (r.touched ≡ none)
collect_commit-run_example = collect_commit-run idle started calls begin_idle

abbrev or_else : Result Pager → Pager → Pager
or_else (ok p) q = p
or_else (err e) q = q

abbrev is_ok : Result Pager → Bool
is_ok (ok p) = true
is_ok (err e) = false

ok-or_else : (m : Result Pager) (q : Pager) → is_ok m ≡ true → m ≡ ok (or_else m q)
ok-or_else (ok p) q h = refl
ok-or_else (err e) q h = absurd (cc)

write_succeeds : is_ok (write 0 (9 ∷ []) started) ≡ true
unfolding write evict_if_full remember has_shadow pool_get find_page
write_succeeds = refl

flush-rollback_txn_example :
    (s : Pager) × (flush (rollback_txn (or_else (write 0 (9 ∷ []) started) started)) ≡ ok s)
    × (s.file ≡ empty_file)
flush-rollback_txn_example =
    flush-rollback_txn idle started (or_else (write 0 (9 ∷ []) started) started) 0 (9 ∷ []) refl
      begin_idle (ok-or_else (write 0 (9 ∷ []) started) started write_succeeds)
