-- ===== src/Queueing/RateLimited/Tests.antt =====
-- The theorems on QueueingLogicRL with one worker, two queues of two elements and a rate.
use prog_tm_bmv.Base.{
  ℕ, zero, suc, ◌*◌, ◌-◌, ◌/◌, ◌^◌, ◌≤◌, ◌≡◌, refl, arith, List, [], ◌∷◌, ◌++◌, length, value_for,
  insert_new, assign,
}
use prog_tm_bmv.Queueing.Heap
use prog_tm_bmv.Queueing.Heap.{Qe}
use prog_tm_bmv.Queueing.Heap.Order.{of_queue}
use prog_tm_bmv.Queueing.RateLimited
use prog_tm_bmv.Queueing.RateLimited.{QueueInfo, QueueingLogicRl, create}
use prog_tm_bmv.Queueing.RateLimited.Inv.{worker_of, IsValid}
use prog_tm_bmv.Queueing.RateLimited.Run.{
  Call, push, pop, change_rate, make, run, HasRoom, rate_limited_in_order,
}
use prog_tm_bmv.Queueing.RateLimited.Rate.{rate_is_kept}

abbrev one_worker : ℕ → ℕ
one_worker q = 0

-- ticks of a nanosecond
abbrev nanoseconds : ℕ → ℕ
nanoseconds pps = 10 ^ 9 / pps

abbrev calls : List (Call ℕ)
calls =
    change_rate 5 (10 ^ 8) 100
    ∷ push 5 1 0 101
    ∷ push 6 2 102 102
    ∷ push 5 3 0 103
    ∷ push 5 4 0 103
    ∷ pop 0 105
    ∷ pop 0 105
    ∷ pop 0 112
    ∷ []

abbrev new_object : QueueingLogicRl ℕ
new_object = create 1 2

-- The third push to queue 5 finds it full.
calls_left :
    (run one_worker nanoseconds 0 5 new_object calls).2
    ≡ record { e = 1; queue_id = 5; send = 110; id = 0 } ∷ []
unfolding run make create RateLimited.push_front RateLimited.pop_back RateLimited.get_queue
    RateLimited.enqueue RateLimited.dequeue RateLimited.discount RateLimited.set_rate
    RateLimited.with_rate RateLimited.rate_to_ticks RateLimited.get_next_tp Heap.emplace
    Heap.comes_after of_queue value_for insert_new assign
calls_left = refl

rate_limited_in_order_example :
    IsValid (run one_worker nanoseconds 0 5 new_object calls).0
    × ((run one_worker nanoseconds 0 5 new_object calls).1
        ≡ (run one_worker nanoseconds 0 5 new_object calls).2
          ++ of_queue 5 (worker_of (run one_worker nanoseconds 0 5 new_object calls).0 0).queue)
rate_limited_in_order_example =
    rate_limited_in_order one_worker nanoseconds 0 5 1 2 calls (omega arith)

abbrev with_rate_set : QueueingLogicRl ℕ
with_rate_set = (run one_worker nanoseconds 0 5 new_object (change_rate 5 (10 ^ 8) 100 ∷ [])).0

abbrev paced_calls : List (Call ℕ)
paced_calls = push 5 1 0 101 ∷ push 5 3 0 103 ∷ pop 0 112 ∷ pop 0 119 ∷ pop 0 120 ∷ []

with_rate_set-HasRoom : HasRoom 5 with_rate_set
unfolding run make create RateLimited.set_rate RateLimited.get_queue value_for
with_rate_set-HasRoom zero = omega arith
with_rate_set-HasRoom (suc j) = omega arith

rate_is_kept_example :
    10 * length (run one_worker nanoseconds 0 5 with_rate_set paced_calls).2 ≤ 120 - 100
unfolding run make create RateLimited.set_rate RateLimited.get_queue RateLimited.with_rate
    RateLimited.rate_to_ticks of_queue value_for insert_new assign
rate_is_kept_example =
    rate_is_kept one_worker nanoseconds 5 with_rate_set 10 100 120 paced_calls
      (rate_limited_in_order one_worker nanoseconds 0 5 1 2 (change_rate 5 (10 ^ 8) 100 ∷ [])
        (omega arith)).0
      with_rate_set-HasRoom (_, refl, refl, refl) refl
      (tt, (tt, (omega arith, (omega arith, (omega arith, tt)))))
