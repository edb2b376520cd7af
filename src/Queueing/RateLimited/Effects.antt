-- ===== src/Queueing/RateLimited/Effects.antt =====
-- What push_front and pop_back of QueueingLogicRL are to do to the elements of one logical queue in the
-- priority queue of one worker.
use prog_tm_bmv.Base.{ℕ, ◌+◌, ◌≤◌, ◌≡◌, ◌==◌, if◌then◌else◌, List, [], ◌∷◌, ◌++◌, take}
use prog_tm_bmv.Queueing.Heap.{Qe}
use prog_tm_bmv.Queueing.Heap.Order.{All, of_queue}
use prog_tm_bmv.Queueing.Logic.{
  Pushed, pushed, full, bad_worker, Popped, popped, waits, out_of_range,
}
use prog_tm_bmv.Queueing.RateLimited.{QueueingLogicRl}
use prog_tm_bmv.Queueing.RateLimited.Inv.{worker_of, last_sent_of, IsValid}

module _ {ℓ} {T : Type ℓ} where
  -- what a push to queue `i` of worker `j` adds to the elements of queue `q` at worker `w`
  abbrev pub arrival :
      ℕ → ℕ → QueueingLogicRl T → ℕ → ℕ → T → Pushed × QueueingLogicRl T → List (Qe T)
  arrival w q s j i item (pushed, s') =
      if w == j
      then of_queue q (
          record {
            e = item;
            queue_id = i;
            send = last_sent_of s' i;
            id = (worker_of s j).wrapping_counter;
          }
          ∷ [])
      else []
  arrival w q s j i item (full, s') = []
  arrival w q s j i item (bad_worker, s') = []

  -- the time of sending and the number of the first element
  abbrev pub times_of : List (Qe T) → ℕ × ℕ
  times_of [] = (0, 0)
  times_of (top ∷ rest) = (top.send, top.id)

  -- What a pop by worker `worker_id` hands out of queue `q` at worker `w`: the element has the queue
  -- and the value that the pop returns.
  abbrev pub departure : ℕ → ℕ → QueueingLogicRl T → ℕ → Popped T → List (Qe T)
  departure w q s worker_id (popped i item) =
      if w == worker_id
      then of_queue q (
          record {
            e = item;
            queue_id = i;
            send = (times_of (worker_of s worker_id).queue).0;
            id = (times_of (worker_of s worker_id).queue).1;
          }
          ∷ [])
      else []
  departure w q s worker_id waits = []
  departure w q s worker_id out_of_range = []

  pub record Pushes (w q : ℕ) (s : QueueingLogicRl T) (j i : ℕ) (item : T)
      (r : Pushed × QueueingLogicRl T) : Type ℓ where
    pub valid : IsValid r.1
    pub counters :
        (j' : ℕ) → (worker_of r.1 j').wrapping_counter ≤ (worker_of s j').wrapping_counter + 1
    pub order :
        of_queue q (worker_of r.1 w).queue
        ≡ of_queue q (worker_of s w).queue ++ arrival w q s j i item r

  pub record Pops (w q : ℕ) (s : QueueingLogicRl T) (worker_id now : ℕ)
      (r : Popped T × QueueingLogicRl T) : Type ℓ where
    pub valid : IsValid r.1
    pub counters :
        (j' : ℕ) → (worker_of r.1 j').wrapping_counter ≤ (worker_of s j').wrapping_counter + 1
    pub order :
        of_queue q (worker_of s w).queue
        ≡ departure w q s worker_id r.0 ++ of_queue q (worker_of r.1 w).queue
    pub due :
        (i : ℕ) (item : T)
        → r.0 ≡ popped i item
        → All (λ x. x.send ≤ now) (take 1 (worker_of s worker_id).queue)
