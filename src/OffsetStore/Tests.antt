-- ===== src/OffsetStore/Tests.antt =====
-- The theorems on the offset store, over a database that keeps nothing.
use nya_queue.Prelude.{ℕ, suc, ◌≡◌, true, [], ◌∷◌, ◌++◌, some, arith, List}
use nya_queue.Prelude.Int.{pos}
use nya_queue.OffsetStore.{Badger, OffsetStore, decimal, commit, load}
use nya_queue.OffsetStore.Keys.{load-commit_apart}
use nya_queue.OffsetStore.Sessions.{load-commit_shared}

abbrev nowhere : Badger
nowhere = record { Db = ℕ; put = λ db k v. (true, suc db); delete = λ db ks. (true, db) }

abbrev store : OffsetStore nowhere
store = record {
  db = 0;
  cache = (116 ∷ 47 ∷ 50 ∷ 47 ∷ 103 ∷ [], 9) ∷ (116 ∷ 47 ∷ 50 ∷ 47 ∷ 104 ∷ [], 5) ∷ [];
  last_commit = [];
  dump_interval = pos 0;
}

load-commit_shared_example :
    load nowhere
      (commit nowhere store (pos 7) (103 ∷ []) ((116 ∷ []) ++ (47 ∷ decimal 1)) 2 12).1
      (decimal 2 ++ (47 ∷ (103 ∷ [])))
      (116 ∷ [])
      1
    ≡ some 12
load-commit_shared_example = load-commit_shared nowhere store (pos 7) (103 ∷ []) (116 ∷ []) 1 2 12

load-commit_apart_example :
    let s' = (commit nowhere store (pos 7) (103 ∷ []) (116 ∷ []) 2 12).1 in
    (load nowhere s' (103 ∷ []) (116 ∷ []) 2 ≡ some 12)
    × (((◌≡◌ {A = List ℕ} (116 ∷ []) (117 ∷ []))
            × (◌≡◌ {A = ℕ} 2 3)
            × (◌≡◌ {A = List ℕ} (103 ∷ []) (104 ∷ []))
          → ⊥)
        → load nowhere s' (104 ∷ []) (117 ∷ []) 3 ≡ load nowhere store (104 ∷ []) (117 ∷ []) 3)
load-commit_apart_example =
    load-commit_apart nowhere store (pos 7) (103 ∷ []) (116 ∷ []) (104 ∷ []) (117 ∷ []) 2 3 12
      ((λ e. omega (arith, e)), tt) ((λ e. omega (arith, e)), tt)
