-- ===== src/Queueing/RateLimited.antt =====
-- include/bm/bm_sim/queueing.h, QueueingLogicRL: logical queues with a capacity and a rate each, which
-- share one priority queue for each worker thread. `FMap` is the parameter `map_to_worker`, the time
-- that the clock shows is an argument, in its ticks, and so is the number of ticks of 1 / pps seconds,
-- which the source computes in floating-point numbers.
pub mod Inv
pub mod Settings
pub mod Effects
pub mod Enqueue
pub mod Push
pub mod Pop
pub mod Run
pub mod Pace
pub mod Rate
mod Tests
use prog_tm_bmv.Base.{
  ℕ, ◌+◌, ◌-◌, ◌%◌, ◌^◌, max, ◌==◌, leb, if◌then◌else◌, List, [], ◌∷◌, get_elem?, set, replicate,
  Option, none, some, value_for, insert_new, assign, update_all,
}
use prog_tm_bmv.Queueing.Heap.{Qe, emplace}
use prog_tm_bmv.Queueing.Logic.{
  Pushed, pushed, full, bad_worker, Popped, popped, waits, out_of_range,
}

pub record QueueInfo : Type 0 where
  pub size : ℕ
  pub capacity : ℕ
  pub queue_rate_pps : ℕ
  pub pkt_delay_ticks : ℕ
  pub last_sent : ℕ

pub record WorkerInfo {ℓ} (T : Type ℓ) : Type ℓ where
  pub queue : List (Qe T)
  pub wrapping_counter : ℕ

pub record QueueingLogicRl {ℓ} (T : Type ℓ) : Type ℓ where
  pub capacity : ℕ
  pub queue_rate_pps : ℕ
  pub queues_info : List (ℕ × QueueInfo)
  pub workers_info : List (WorkerInfo T)

unfoldable pub rate_to_ticks : (ℕ → ℕ) → ℕ → ℕ
rate_to_ticks ticks_of pps = if pps == 0 then 0 else ticks_of pps

unfoldable pub get_next_tp : QueueInfo → ℕ → ℕ
get_next_tp q_info now = max now (q_info.last_sent + q_info.pkt_delay_ticks)

-- `queue_rate_pps` and `pkt_delay_ticks`, by `set_rate`
unfoldable pub with_rate : (ℕ → ℕ) → ℕ → QueueInfo → QueueInfo
with_rate ticks_of pps q_info = record q_info {
  queue_rate_pps = pps;
  pkt_delay_ticks = rate_to_ticks ticks_of pps;
}

module _ {ℓ} {T : Type ℓ} where
  -- the constructor
  unfoldable pub create : ℕ → ℕ → QueueingLogicRl T
  create nb_workers capacity = record {
    capacity = capacity;
    queue_rate_pps = 0;
    queues_info = [];
    workers_info = replicate nb_workers (record { queue = []; wrapping_counter = 0 });
  }

  -- A queue that is not known is entered at time `now`.
  unfoldable pub get_queue : (ℕ → ℕ) → QueueingLogicRl T → ℕ → ℕ → QueueInfo × QueueingLogicRl T
  get_queue ticks_of s queue_id now = elim (value_for queue_id s.queues_info) [
    | some q_info ↦ (q_info, s)
    | none ↦
        let q_info : QueueInfo = record {
          size = 0;
          capacity = s.capacity;
          queue_rate_pps = s.queue_rate_pps;
          pkt_delay_ticks = rate_to_ticks ticks_of s.queue_rate_pps;
          last_sent = now;
        } in
        (q_info, record s { queues_info = insert_new queue_id q_info s.queues_info })
  ]

  -- The element is entered, to be sent at `send`, and counted.
  unfoldable pub enqueue :
      (ℕ → ℕ) → QueueingLogicRl T → ℕ → QueueInfo → WorkerInfo T → T → ℕ → QueueingLogicRl T
  enqueue map_to_worker s queue_id q_info w_info item send = record s {
    queues_info =
        assign queue_id (record q_info { size = (q_info.size + 1) % 2 ^ 64; last_sent = send })
          s.queues_info;
    workers_info = set s.workers_info (map_to_worker queue_id) (record {
      queue =
          emplace w_info.queue
            (record { e = item; queue_id = queue_id; send = send; id = w_info.wrapping_counter });
      wrapping_counter = (w_info.wrapping_counter + 1) % 2 ^ 64;
    });
  }

  -- The clock is read at `created` if the queue is not known, and at `now` if there is room.
  unfoldable pub push_front :
      (ℕ → ℕ) → (ℕ → ℕ) → QueueingLogicRl T → ℕ → T → ℕ → ℕ → Pushed × QueueingLogicRl T
  push_front map_to_worker ticks_of s queue_id item created now =
      let (q_info, s1) = get_queue ticks_of s queue_id created in
      elim (get_elem? s1.workers_info (map_to_worker queue_id)) [
        | none ↦ (bad_worker, s1)
        | some w_info ↦ if leb q_info.capacity q_info.size then (full, s1) else (
          pushed,
          enqueue map_to_worker s1 queue_id q_info w_info item (get_next_tp q_info now),
        )
      ]

  -- What is left when `pop` has left `rest` in the worker's priority queue.
  unfoldable pub dequeue : QueueingLogicRl T → ℕ → WorkerInfo T → List (Qe T) → QueueingLogicRl T
  dequeue s worker_id w_info rest = record s {
    workers_info = set s.workers_info worker_id (record w_info { queue = rest });
  }

  unfoldable pub discount : QueueingLogicRl T → ℕ → QueueInfo → QueueingLogicRl T
  discount s queue_id q_info = record s {
    queues_info =
        assign queue_id (record q_info { size = (q_info.size + (2 ^ 64 - 1)) % 2 ^ 64 })
          s.queues_info;
  }

  unfoldable pub pop_back : QueueingLogicRl T → ℕ → ℕ → Popped T × QueueingLogicRl T
  pop_back s worker_id now = elim (get_elem? s.workers_info worker_id) [
    | none ↦ (out_of_range, s)
    | some w_info ↦ elim w_info.queue [
      | [] ↦ (waits, s)
      | top ∷ rest ↦
          if leb top.send now
          then (let s1 = dequeue s worker_id w_info rest in
              elim (value_for top.queue_id s.queues_info) [
                | none ↦ (out_of_range, s1)
                | some q_info ↦ (popped top.queue_id top.e, discount s1 top.queue_id q_info)
              ])
          else (waits, s)
    ]
  ]

  unfoldable pub size : QueueingLogicRl T → ℕ → ℕ
  size s queue_id = elim (value_for queue_id s.queues_info) [ none ↦ 0 | some q_info ↦ q_info.size ]

  unfoldable pub set_capacity : (ℕ → ℕ) → QueueingLogicRl T → ℕ → ℕ → ℕ → QueueingLogicRl T
  set_capacity ticks_of s queue_id c now =
      let (q_info, s1) = get_queue ticks_of s queue_id now in
      record s1 { queues_info = assign queue_id (record q_info { capacity = c }) s1.queues_info }

  unfoldable pub set_capacity_for_all : QueueingLogicRl T → ℕ → QueueingLogicRl T
  set_capacity_for_all s c = record s {
    capacity = c;
    queues_info = update_all (λ q_info. record q_info { capacity = c }) s.queues_info;
  }

  unfoldable pub set_rate : (ℕ → ℕ) → QueueingLogicRl T → ℕ → ℕ → ℕ → QueueingLogicRl T
  set_rate ticks_of s queue_id pps now =
      let (q_info, s1) = get_queue ticks_of s queue_id now in
      record s1 { queues_info = assign queue_id (with_rate ticks_of pps q_info) s1.queues_info }

  unfoldable pub set_rate_for_all : (ℕ → ℕ) → QueueingLogicRl T → ℕ → QueueingLogicRl T
  set_rate_for_all ticks_of s pps = record s {
    queue_rate_pps = pps;
    queues_info = update_all (with_rate ticks_of pps) s.queues_info;
  }
