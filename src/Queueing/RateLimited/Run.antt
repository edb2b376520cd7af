-- ===== src/Queueing/RateLimited/Run.antt =====
-- Histories of calls of QueueingLogicRL: each logical queue keeps its order.
use prog_tm_bmv.Base.{
  ℕ, ◌+◌, ◌^◌, ◌<◌, ◌≡◌, ap, sym, ◌∙◌, arith, List, [], ◌∷◌, ◌++◌, length, get_or, get_or-replicate,
}
use mathlib.Core.List.{append-nil, append_assoc}
use prog_tm_bmv.Queueing.Heap.{Qe}
use prog_tm_bmv.Queueing.Heap.Order.{of_queue}
use prog_tm_bmv.Queueing.RateLimited.{
  QueueingLogicRl, create, push_front, pop_back, set_capacity, set_capacity_for_all, set_rate,
  set_rate_for_all,
}
use prog_tm_bmv.Queueing.RateLimited.Inv.{worker_of, IsValid, create-IsValid}
use prog_tm_bmv.Queueing.RateLimited.Settings.{
  Keeps, set_capacity-Keeps, set_capacity_for_all-Keeps, set_rate-Keeps, set_rate_for_all-Keeps,
}
use prog_tm_bmv.Queueing.RateLimited.Effects.{arrival, departure}
use prog_tm_bmv.Queueing.RateLimited.Push.{push_front-Pushes}
use prog_tm_bmv.Queueing.RateLimited.Pop.{pop_back-Pops}

-- The calls, with the times that the clock shows.
pub data Call {ℓ} (T : Type ℓ) : Type ℓ where
  push : ℕ → T → ℕ → ℕ → Call T
  pop : ℕ → ℕ → Call T
  change_capacity : ℕ → ℕ → ℕ → Call T
  change_all_capacities : ℕ → Call T
  change_rate : ℕ → ℕ → ℕ → Call T
  change_all_rates : ℕ → Call T

module _ {ℓ} {T : Type ℓ} (m ticks_of : ℕ → ℕ) (w q : ℕ) where
  -- The state after a call, the elements that it has put into queue `q` at worker `w`, and those that
  -- it has handed out of there.
  unfoldable pub make : QueueingLogicRl T → Call T → QueueingLogicRl T × List (Qe T) × List (Qe T)
  make s (push i item created now) =
      let r = push_front m ticks_of s i item created now in (r.1, arrival w q s (m i) i item r, [])
  make s (pop j now) = let r = pop_back s j now in (r.1, [], departure w q s j r.0)
  make s (change_capacity i c now) = (set_capacity ticks_of s i c now, [], [])
  make s (change_all_capacities c) = (set_capacity_for_all s c, [], [])
  make s (change_rate i pps now) = (set_rate ticks_of s i pps now, [], [])
  make s (change_all_rates pps) = (set_rate_for_all ticks_of s pps, [], [])

  -- The same for a list of calls, the first one first, with the elements in the order of the calls.
  unfoldable pub run :
      QueueingLogicRl T → List (Call T) → QueueingLogicRl T × List (Qe T) × List (Qe T)
  run s [] = (s, [], [])
  run s (c ∷ calls) =
      let (s1, arrived, left) = make s c in
      let (s2, arrived2, left2) = run s1 calls in (s2, arrived ++ arrived2, left ++ left2)

module _ {ℓ} {T : Type ℓ} where
  -- No worker's counter wraps around in `n` pushes.
  abbrev pub HasRoom : ℕ → QueueingLogicRl T → Type 0
  HasRoom n s = (j : ℕ) → (worker_of s j).wrapping_counter + n < 2 ^ 64

module _ {ℓ} {T : Type ℓ} (m ticks_of : ℕ → ℕ) (w q : ℕ) where
  -- What has waited and what arrives, oldest first, is what leaves and what still waits.
  pub record InOrder (n : ℕ) (s : QueueingLogicRl T)
      (r : QueueingLogicRl T × List (Qe T) × List (Qe T)) : Type ℓ where
    pub valid : IsValid r.0
    pub room : HasRoom n r.0
    pub order : of_queue q (worker_of s w).queue ++ r.1 ≡ r.2 ++ of_queue q (worker_of r.0 w).queue

  unchanged :
      (n : ℕ) (s s' : QueueingLogicRl T) → HasRoom (1 + n) s → Keeps s s' → InOrder n s (s', [], [])
  unchanged n s s' h k = record {
    valid = k.valid;
    room = λ j. omega (arith, h j, ap (λ x. x.wrapping_counter) (same j));
    order = append-nil _ ∙ ap (λ x. of_queue q x.queue) (sym (same w));
  }
    where
      same : (j : ℕ) → worker_of s' j ≡ worker_of s j
      same j = ap (λ ws. get_or ws j (record { queue = []; wrapping_counter = 0 })) k.workers

  pub make-InOrder :
      (n : ℕ) (s : QueueingLogicRl T)
      → IsValid s
      → HasRoom (1 + n) s
      → (c : Call T) → InOrder n s (make m ticks_of w q s c)
  unfolding make
  make-InOrder n s v h (push i item created now) =
      let p = push_front-Pushes m ticks_of s v w q i item created now (omega (arith, h (m i))) in
      record { valid = p.valid; room = λ j. omega (arith, h j, p.counters j); order = sym p.order }
  make-InOrder n s v h (pop j now) =
      let p = pop_back-Pops s v w q j now in
      record {
        valid = p.valid;
        room = λ i. omega (arith, h i, p.counters i);
        order = append-nil _ ∙ p.order;
      }
  make-InOrder n s v h (change_capacity i c now) =
      unchanged n s _ h (set_capacity-Keeps ticks_of s v i c now)
  make-InOrder n s v h (change_all_capacities c) =
      unchanged n s _ h (set_capacity_for_all-Keeps s v c)
  make-InOrder n s v h (change_rate i pps now) =
      unchanged n s _ h (set_rate-Keeps ticks_of s v i pps now)
  make-InOrder n s v h (change_all_rates pps) =
      unchanged n s _ h (set_rate_for_all-Keeps ticks_of s v pps)

  pub run-InOrder :
      (s : QueueingLogicRl T)
      → IsValid s
      → (calls : List (Call T)) → HasRoom (length calls) s
      → InOrder 0 s (run m ticks_of w q s calls)
  unfolding run
  run-InOrder s v [] h = record { valid = v; room = h; order = append-nil _ }
  run-InOrder s v (c ∷ calls) h =
      let a = make m ticks_of w q s c in
      let first = make-InOrder (length calls) s v (λ j. omega (arith, h j)) c in
      let rest = run-InOrder a.0 first.valid calls first.room in
      let b = run m ticks_of w q a.0 calls in
      record {
        valid = rest.valid;
        room = rest.room;
        order =
            sym (append_assoc (of_queue q (worker_of s w).queue) a.1 b.1)
            ∙ ap (λ d. d ++ b.1) first.order
            ∙ append_assoc a.2 (of_queue q (worker_of a.0 w).queue) b.1
            ∙ ap (λ d. a.2 ++ d) rest.order
            ∙ sym (append_assoc a.2 b.2 (of_queue q (worker_of b.0 w).queue));
      }

  new_worker_of :
      (nb_workers capacity j : ℕ)
      → worker_of {T = T} (create nb_workers capacity) j
        ≡ record { queue = []; wrapping_counter = 0 }
  unfolding create
  new_worker_of nb_workers capacity j = get_or-replicate nb_workers j _

  -- After fewer than 2 ^ 64 calls on a new object, with any times and rates, the elements that
  -- pops have returned to a worker with the number of a logical queue, each with the value
  -- returned, and then those that still wait there, are the elements that the queue has taken in
  -- for that worker, in the order of the calls; the state is valid.
  pub rate_limited_in_order :
      (nb_workers capacity : ℕ) (calls : List (Call T))
      → length calls < 2 ^ 64
      → IsValid (run m ticks_of w q (create nb_workers capacity) calls).0
        × ((run m ticks_of w q (create nb_workers capacity) calls).1
            ≡ (run m ticks_of w q (create nb_workers capacity) calls).2
              ++ of_queue q
                  (worker_of (run m ticks_of w q (create nb_workers capacity) calls).0 w).queue)
  unfolding of_queue
  rate_limited_in_order nb_workers capacity calls h =
      let s = create {T = T} nb_workers capacity in
      let i = run-InOrder s (create-IsValid nb_workers capacity) calls (λ j.
        omega (arith, h, ap (λ x. x.wrapping_counter) (new_worker_of nb_workers capacity j))) in
      (
        i.valid,
        ap (λ x. of_queue q x.queue ++ (run m ticks_of w q s calls).1)
              (sym (new_worker_of nb_workers capacity w))
            ∙ i.order,
      )
