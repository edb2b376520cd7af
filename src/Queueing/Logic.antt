-- ===== src/Queueing/Logic.antt =====
-- include/bm/bm_sim/queueing.h, QueueingLogic: logical queues with a capacity each, which share one
-- deque for each worker thread. `FMap` is the parameter `map_to_worker`. `to_string` is not modelled.
pub mod Inv
pub mod Step
pub mod Enter
pub mod Ops
pub mod Effects
pub mod Run
mod Tests
use prog_tm_bmv.Base.{
  ℕ, ◌+◌, ◌-◌, ◌%◌, ◌^◌, ◌==◌, leb, Bool, if◌then◌else◌, List, [], ◌∷◌, get_elem?, set, replicate,
  Option, none, some, value_for, insert_new, assign, update_all,
}

-- `QE`
pub record Qe {ℓ} (T : Type ℓ) : Type ℓ where
  pub e : T
  pub queue_id : ℕ

pub record QueueInfo : Type 0 where
  pub size : ℕ
  pub capacity : ℕ

-- A deque is a list with its front first. `element_count`, an `int`, is kept by its 32 bits.
pub record QueueingLogic {ℓ} (T : Type ℓ) : Type ℓ where
  pub capacity : ℕ
  pub element_count : ℕ
  pub queues_info : List (ℕ × QueueInfo)
  pub workers_info : List (List (Qe T))

pub data Pushed : Type 0 where
  pushed full bad_worker : Pushed

pub data Popped {ℓ} (T : Type ℓ) : Type ℓ where
  popped : ℕ → T → Popped T
  waits out_of_range : Popped T

module _ {ℓ} {A : Type ℓ} where
  -- `back` and `pop_back` of a deque
  unfoldable pub split_back : List A → Option (List A × A)
  split_back [] = none
  split_back (x ∷ xs) = elim (split_back xs) [
    | none ↦ some ([], x)
    | some (front, back) ↦ some (x ∷ front, back)
  ]

module _ {ℓ} {T : Type ℓ} where
  -- the constructor
  unfoldable pub create : ℕ → ℕ → QueueingLogic T
  create nb_workers capacity = record {
    capacity = capacity;
    element_count = 0;
    queues_info = [];
    workers_info = replicate nb_workers [];
  }

  -- A queue that is not known is entered, with the capacity by default.
  unfoldable pub get_queue : QueueingLogic T → ℕ → QueueInfo × QueueingLogic T
  get_queue s queue_id = elim (value_for queue_id s.queues_info) [
    | some q_info ↦ (q_info, s)
    | none ↦
        let q_info : QueueInfo = record { size = 0; capacity = s.capacity } in
        (q_info, record s { queues_info = insert_new queue_id q_info s.queues_info })
  ]

  -- An element at the front of the worker's deque, counted.
  unfoldable pub emplace_front :
      (ℕ → ℕ) → QueueingLogic T → ℕ → QueueInfo → List (Qe T) → T → QueueingLogic T
  emplace_front map_to_worker s queue_id q_info queue item = record s {
    element_count = (s.element_count + 1) % 2 ^ 32;
    queues_info =
        assign queue_id (record q_info { size = (q_info.size + 1) % 2 ^ 64 }) s.queues_info;
    workers_info =
        set s.workers_info (map_to_worker queue_id)
          (record { e = item; queue_id = queue_id } ∷ queue);
  }

  unfoldable pub push_front : (ℕ → ℕ) → QueueingLogic T → ℕ → T → Pushed × QueueingLogic T
  push_front map_to_worker s queue_id item =
      let (q_info, s1) = get_queue s queue_id in
      elim (get_elem? s1.workers_info (map_to_worker queue_id)) [
        | none ↦ (bad_worker, s1)
        | some queue ↦
            if leb q_info.capacity q_info.size
            then (full, s1)
            else (pushed, emplace_front map_to_worker s1 queue_id q_info queue item)
      ]

  -- What is left when the element has been taken out and its queue is found.
  unfoldable pub discount : QueueingLogic T → ℕ → QueueInfo → QueueingLogic T
  discount s queue_id q_info = record s {
    element_count = (s.element_count + (2 ^ 32 - 1)) % 2 ^ 32;
    queues_info =
        assign queue_id (record q_info { size = (q_info.size + (2 ^ 64 - 1)) % 2 ^ 64 })
          s.queues_info;
  }

  unfoldable pub pop_back : QueueingLogic T → ℕ → Popped T × QueueingLogic T
  pop_back s worker_id = elim (get_elem? s.workers_info worker_id) [
    | none ↦ (out_of_range, s)
    | some queue ↦ elim (split_back queue) [
      | none ↦ (waits, s)
      | some (rest, back) ↦
          let s1 = record s { workers_info = set s.workers_info worker_id rest } in
          elim (value_for back.queue_id s.queues_info) [
            | none ↦ (out_of_range, s1)
            | some q_info ↦ (popped back.queue_id back.e, discount s1 back.queue_id q_info)
          ]
    ]
  ]

  unfoldable pub size : QueueingLogic T → ℕ → ℕ
  size s queue_id = elim (value_for queue_id s.queues_info) [ none ↦ 0 | some q_info ↦ q_info.size ]

  unfoldable pub empty : QueueingLogic T → Bool
  empty s = s.element_count == 0

  unfoldable pub set_capacity : QueueingLogic T → ℕ → ℕ → QueueingLogic T
  set_capacity s queue_id c =
      let (q_info, s1) = get_queue s queue_id in
      record s1 { queues_info = assign queue_id (record q_info { capacity = c }) s1.queues_info }

  unfoldable pub set_capacity_for_all : QueueingLogic T → ℕ → QueueingLogic T
  set_capacity_for_all s c = record s {
    capacity = c;
    queues_info = update_all (λ q_info. record q_info { capacity = c }) s.queues_info;
  }
