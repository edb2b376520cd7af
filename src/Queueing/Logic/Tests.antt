-- ===== src/Queueing/Logic/Tests.antt =====
-- The theorems on QueueingLogic with two workers and queues of one element.
use prog_tm_bmv.Base.{
  ℕ, ◌%◌, ◌≡◌, ◌↔◌, refl, arith, true, List, [], ◌∷◌, ◌++◌, reverse, length, replicate, value_for,
  insert_new, assign,
}
use prog_tm_bmv.Queueing.Logic
use prog_tm_bmv.Queueing.Logic.{QueueingLogic, create, empty}
use prog_tm_bmv.Queueing.Logic.Inv.{deque_of, IsValid, empty_lem, total}
use prog_tm_bmv.Queueing.Logic.Run.{Call, push, pop, change_capacity, run, run_in_order, drained}

abbrev by_parity : ℕ → ℕ
by_parity q = q % 2

abbrev calls : List (Call ℕ)
calls = push 1 10 ∷ push 3 11 ∷ push 1 12 ∷ push 2 13 ∷ pop 1 ∷ change_capacity 1 2 ∷ push 1 14 ∷ []

abbrev start : QueueingLogic ℕ
start = create 2 1

abbrev waiting : QueueingLogic ℕ
waiting = (run by_parity 1 start calls).0

-- The push of 12 finds its queue full.
waiting_deque :
    deque_of waiting 1 ≡ record { e = 14; queue_id = 1 } ∷ record { e = 11; queue_id = 3 } ∷ []
unfolding run Logic.Run.make Logic.create Logic.push_front Logic.pop_back Logic.set_capacity
    Logic.get_queue Logic.emplace_front Logic.discount Logic.split_back value_for insert_new assign
waiting_deque = refl

run_in_order_example :
    IsValid by_parity waiting
    × ((run by_parity 1 start calls).1
        ≡ (run by_parity 1 start calls).2 ++ reverse (deque_of waiting 1))
run_in_order_example =
    run_in_order by_parity 1 2 1 calls (omega arith)
      (tt, (tt, (tt, (tt, (tt, (omega arith, (tt, tt)))))))

drained_example :
    ((run by_parity 1 waiting (replicate (length (deque_of waiting 1)) (pop 1))).2
      ≡ reverse (deque_of waiting 1))
    × (deque_of (run by_parity 1 waiting (replicate (length (deque_of waiting 1)) (pop 1))).0 1
        ≡ [])
drained_example = drained by_parity 1 waiting run_in_order_example.0

empty_lem_example : (empty waiting ≡ true) ↔ ((w : ℕ) → deque_of waiting w ≡ [])
unfolding run Logic.Run.make Logic.create Logic.push_front Logic.pop_back Logic.set_capacity
    Logic.get_queue Logic.emplace_front Logic.discount Logic.split_back value_for insert_new assign
    total
empty_lem_example = empty_lem by_parity waiting run_in_order_example.0 (omega arith)
