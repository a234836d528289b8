-- ===== src/EntryRing/Tests.antt =====
-- Runs of `entryRing`, and its theorems at concrete rings.
use nya_queue.Prelude.{ℕ, ◌≡◌, refl, none, some, List, [], ◌∷◌, arith}
use nya_queue.Prelude.Int.{pos}
use nya_queue.EntryRing.{
  PendingEntry, zero_entry, EntryRing, copy_out, new_cap, grow, push_slot, push_back, pop_front,
  peek_front, linearize, clear_from, truncated, make_room, reset_from,
}
use nya_queue.EntryRing.Bounds.{IsValid}
use nya_queue.EntryRing.Client.{Call, push, pop, peek, reset, run, run_queue, run_refines}

abbrev entry : ℕ → PendingEntry
entry n = record { wal_offset = n; arrived_at = pos n }

-- Entry 8, then 9, round the end of a buffer of capacity 3.
abbrev wrapped : EntryRing
wrapped = record { buf = entry 9 ∷ zero_entry ∷ entry 8 ∷ []; head = 2; size = 2; cap = 3 }

abbrev unlimited : EntryRing
unlimited = record { buf = []; head = 0; size = 0; cap = 0 }

abbrev script : List Call
script =
    push (entry 1)
    ∷ push (entry 2)
    ∷ pop
    ∷ reset (entry 3 ∷ entry 4 ∷ entry 5 ∷ entry 6 ∷ [])
    ∷ peek
    ∷ []

linearize-wrapped : linearize wrapped ≡ entry 8 ∷ entry 9 ∷ []
unfolding linearize copy_out
linearize-wrapped = refl

run-wrapped :
    run wrapped script ≡ none ∷ some (entry 8) ∷ some (entry 9) ∷ none ∷ some (entry 4) ∷ []
unfolding run push_back push_slot pop_front reset_from truncated make_room clear_from peek_front
run-wrapped = refl

run-unlimited : run unlimited script ≡ none ∷ none ∷ some (entry 1) ∷ none ∷ some (entry 3) ∷ []
unfolding run push_back push_slot grow new_cap copy_out pop_front reset_from truncated make_room
    clear_from peek_front
run-unlimited = refl

wrapped-IsValid : IsValid wrapped
wrapped-IsValid = omega arith

run_refines_example : run wrapped script ≡ run_queue 3 (linearize wrapped) script
run_refines_example = run_refines script wrapped wrapped-IsValid
