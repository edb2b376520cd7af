-- ===== src/Queueing/RateLimited/Inv.antt =====
-- The invariant of QueueingLogicRL, and that it holds of a new object.
use prog_tm_bmv.Base.{
  ℕ, ◌≤◌, ◌<◌, ◌≡◌, subst, sym, arith, List, [], get_or, replicate, none, some, value_for,
  get_or-replicate,
}
use prog_tm_bmv.Queueing.Heap.{Qe}
use prog_tm_bmv.Queueing.Heap.Order.{All, All-imp, IsSorted}
use prog_tm_bmv.Queueing.RateLimited.{QueueInfo, WorkerInfo, QueueingLogicRl, create}

module _ {ℓ} {T : Type ℓ} where
  abbrev pub worker_of : QueueingLogicRl T → ℕ → WorkerInfo T
  worker_of s w = get_or s.workers_info w (record { queue = []; wrapping_counter = 0 })

  abbrev pub last_sent_of : QueueingLogicRl T → ℕ → ℕ
  last_sent_of s q = elim (value_for q s.queues_info) [ none ↦ 0 | some q_info ↦ q_info.last_sent ]

  -- Its queue is known and has not been sent to after it, and its number has been given out.
  abbrev pub IsSent : List (ℕ × QueueInfo) → ℕ → Qe T → Type 0
  IsSent queues_info counter x =
      (q_info : QueueInfo) × (value_for x.queue_id queues_info ≡ some q_info)
      × (x.send ≤ q_info.last_sent)
      × (x.id < counter)

  pub record IsValid (s : QueueingLogicRl T) : Type ℓ where
    pub sorted : (w : ℕ) → IsSorted (worker_of s w).queue
    pub sent :
        (w : ℕ) → All (IsSent s.queues_info (worker_of s w).wrapping_counter) (worker_of s w).queue

  pub create-IsValid : (nb_workers capacity : ℕ) → IsValid (create nb_workers capacity)
  unfolding create
  create-IsValid nb_workers capacity = record {
    sorted = λ w. rw (nothing w) tt;
    sent = λ w. rw (nothing w) tt;
  }
    where
      empty_worker : WorkerInfo T
      empty_worker = record { queue = []; wrapping_counter = 0 }

      nothing : (w : ℕ) → get_or (replicate nb_workers empty_worker) w empty_worker ≡ empty_worker
      nothing w = get_or-replicate nb_workers w empty_worker

  -- Times of sending only grow, and no queue is forgotten.
  abbrev pub Later : QueueingLogicRl T → QueueingLogicRl T → Type 0
  Later s s' =
      (q : ℕ) (q_info : QueueInfo)
      → value_for q s.queues_info ≡ some q_info
      → (later : QueueInfo) × (value_for q s'.queues_info ≡ some later)
        × (q_info.last_sent ≤ later.last_sent)

  pub IsSent-Later :
      (s s' : QueueingLogicRl T) (counter : ℕ)
      → Later s s'
      → (x : Qe T) → IsSent s.queues_info counter x
      → IsSent s'.queues_info counter x
  IsSent-Later s s' counter l x (q_info, e, t, n) =
      let (later, f, u) = l x.queue_id q_info e in (later, f, omega arith, n)

  -- An operation that changes no priority queue keeps the invariant.
  pub Later-IsValid :
      (s s' : QueueingLogicRl T)
      → IsValid s
      → Later s s'
      → s'.workers_info ≡ s.workers_info
      → IsValid s'
  Later-IsValid s s' v l e = record {
    sorted = λ w. subst (λ ws. IsSorted (get_or ws w empty_worker).queue) (sym e) (v.sorted w);
    sent = λ w.
        subst
          (λ ws.
            All (IsSent s'.queues_info (get_or ws w empty_worker).wrapping_counter)
              (get_or ws w empty_worker).queue)
          (sym e)
          (All-imp (IsSent-Later s s' (worker_of s w).wrapping_counter l) (worker_of s w).queue
            (v.sent w));
  }
    where
      empty_worker : WorkerInfo T
      empty_worker = record { queue = []; wrapping_counter = 0 }
