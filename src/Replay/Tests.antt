-- ===== src/Replay/Tests.antt =====
-- The theorems on the replay buffers, with numbers for the floats.
use nya_queue.Prelude.{
  ℕ, ◌+◌, ◌-◌, ◌*◌, ◌/◌, ◌%◌, ◌≡◌, refl, false, some, List, [], ◌∷◌, arith, length, get_elem?, All,
  ltb, leb,
}
use nya_queue.Prelude.Int.{pos, negsuc}
use nya_queue.Balancer.{Floats, Compares}
use nya_queue.Replay.{
  Transition, Powers, new_replay_buffer, push, len, sample, sample_into, sample_from,
}
use nya_queue.Replay.Recent.{push_all, IsRecent, sample-IsRecent}
use nya_queue.Replay.Prioritized
use nya_queue.Replay.Prioritized.{new_prioritized}
use nya_queue.Replay.Prioritized.Draws.{Action, pushed, updated, act_all}
use nya_queue.Replay.Prioritized.Maximum.{act_all-max_priority}

abbrev numbers : Floats
numbers = record {
  Float = ℕ;
  of_int = λ n. n;
  plus = λ a b. a + b;
  minus = λ a b. a - b;
  times = λ a b. a * b;
  divide = λ a b. a / b;
  less = ltb;
  less_equal = leb;
}

abbrev powers : Powers numbers
powers = record { pow = λ a b. a; abs = λ a. a; negate = λ a. a; one = 1; small = 1 }

numbers-Compares : Compares numbers
numbers-Compares = record {
  irreflexive = λ x. ground arith;
  transitive = λ x y z h k. ground (arith, h, k);
}

abbrev step_of : ℕ → Transition ℕ
step_of n = record { state = n ∷ []; action = []; reward = n; next_state = []; is_done = false }

abbrev three : List (Transition ℕ)
three = step_of 1 ∷ step_of 2 ∷ step_of 3 ∷ []

sample_runs :
    sample (push_all (new_replay_buffer 2) three) (λ i. i) (step_of 0) 5
    ≡ step_of 3 ∷ step_of 2 ∷ []
unfolding sample sample_into sample_from push_all push new_replay_buffer len
sample_runs = refl

sample-IsRecent_example :
    let rb = push_all (new_replay_buffer 2) three in
    let out = sample rb (λ i. i) (step_of 0) 5 in
    (len rb ≡ 2)
    × (length out ≡ 2)
    × ((k : ℕ) (x : Transition ℕ) → get_elem? out k ≡ some x → IsRecent three 2 x)
sample-IsRecent_example = sample-IsRecent 2 5 three (λ i. i) (step_of 0) (omega arith) (omega arith)

abbrev actions : List (Action ℕ)
actions =
    pushed (step_of 1)
    ∷ updated (pos 0) 7
    ∷ pushed (step_of 2)
    ∷ updated (negsuc 0) 9
    ∷ pushed (step_of 3)
    ∷ []

act_all-max_priority_example :
    let b = act_all numbers powers (new_prioritized numbers powers (step_of 0) 2 1) actions in
    let b' = Prioritized.push numbers powers b (step_of 4) in
    All (λ p. ltb b.max_priority p ≡ false) b.priorities
    × (get_elem? b'.transitions (b.write_idx % 2) ≡ some (step_of 4))
    × (get_elem? b'.priorities (b.write_idx % 2) ≡ some b.max_priority)
    × All (λ p. ltb b.max_priority p ≡ false) b'.priorities
act_all-max_priority_example =
    act_all-max_priority numbers powers numbers-Compares (step_of 0) 2 1 actions (step_of 4) refl
      (omega arith)
