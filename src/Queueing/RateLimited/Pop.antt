-- ===== src/Queueing/RateLimited/Pop.antt =====
-- pop_back of QueueingLogicRL on every branch.
use prog_tm_bmv.Base.{
  ℕ, ◌+◌, ◌-◌, ◌%◌, ◌^◌, ◌≤◌, ◌≡◌, refl, ap, ap₂, subst, sym, ◌∙◌, arith, true, false, ◌==◌, leb,
  if◌then◌else◌, List, [], ◌∷◌, ◌++◌, get_or, get_elem?, set, take, none, some, Option-cases,
  Bool-cases, List-cases, inl, inr, value_for, get_elem?-some, get_or-set,
}
use prog_tm_bmv.Queueing.Heap.{Qe}
use prog_tm_bmv.Queueing.Heap.Order.{All, All-imp, IsSorted, of_queue}
use prog_tm_bmv.Queueing.Logic.{popped, waits, out_of_range}
use prog_tm_bmv.Queueing.RateLimited.{
  QueueInfo, WorkerInfo, QueueingLogicRl, dequeue, discount, pop_back,
}
use prog_tm_bmv.Queueing.RateLimited.Inv.{worker_of, IsSent, IsValid, Later, IsSent-Later}
use prog_tm_bmv.Queueing.RateLimited.Settings.{Later-assign}
use prog_tm_bmv.Queueing.RateLimited.Effects.{times_of, departure, Pops}

module _ {ℓ} {T : Type ℓ} where
  of_queue_split :
      (q : ℕ) (x : Qe T) (xs : List (Qe T))
      → of_queue q (x ∷ xs) ≡ of_queue q (x ∷ []) ++ of_queue q xs
  unfolding of_queue
  of_queue_split q x xs = elim (Bool-cases (x.queue_id == q)) [ inl y ↦ rw y | inr y ↦ rw y ]

-- The top has been taken from a priority queue.
module _ {ℓ} {T : Type ℓ} (s : QueueingLogicRl T) (v : IsValid s) (worker_id : ℕ)
    (w_info : WorkerInfo T) (top : Qe T) (rest : List (Qe T)) (s' : QueueingLogicRl T)
    (at : get_elem? s.workers_info worker_id ≡ some w_info) (parts : w_info.queue ≡ top ∷ rest)
    (e : s'.workers_info ≡ set s.workers_info worker_id (record w_info { queue = rest })) where
  abbrev old_worker : WorkerInfo T
  old_worker = worker_of s worker_id

  here : worker_of s worker_id ≡ w_info
  here = (get_elem?-some s.workers_info worker_id w_info _ at).1

  abbrev new_worker : WorkerInfo T
  new_worker = record w_info { queue = rest }

  workers : (j : ℕ) → worker_of s' j ≡ (if j == worker_id then new_worker else worker_of s j)
  workers j =
      ap (λ ws. get_or ws j (record { queue = []; wrapping_counter = 0 })) e
      ∙ get_or-set s.workers_info worker_id j _ _
          (get_elem?-some s.workers_info worker_id w_info (worker_of s worker_id) at).0

  old_queue : (worker_of s worker_id).queue ≡ top ∷ rest
  old_queue = ap (λ x. x.queue) here ∙ parts

  same_worker : (j : ℕ) → (j == worker_id) ≡ true → worker_of s' j ≡ new_worker
  same_worker j y = workers j ∙ rw y

  other_worker : (j : ℕ) → (j == worker_id) ≡ false → worker_of s' j ≡ worker_of s j
  other_worker j y = workers j ∙ rw y

  dequeued_order :
      (w q : ℕ)
      → of_queue q (worker_of s w).queue
        ≡ departure w q s worker_id (popped top.queue_id top.e) ++ of_queue q (worker_of s' w).queue
  dequeued_order w q = elim (Bool-cases (w == worker_id)) [
    | inl y ↦
        let this : w ≡ worker_id = ground arith in
        rw y (
          ap (λ j. of_queue q (worker_of s j).queue) this
          ∙ ap (of_queue q) old_queue
          ∙ of_queue_split q top rest
          ∙ ap₂ (λ a b. of_queue q (handed (times_of a) ∷ []) ++ of_queue q b) (sym old_queue)
              (sym (ap (λ x. x.queue) (same_worker w y))))
    | inr y ↦ rw y (sym (ap (λ x. of_queue q x.queue) (other_worker w y)))
  ]
    where
      handed : ℕ × ℕ → Qe T
      handed (send, id) = record { e = top.e; queue_id = top.queue_id; send = send; id = id }

  dequeued_counters :
      (j : ℕ) → (worker_of s' j).wrapping_counter ≤ (worker_of s j).wrapping_counter + 1
  dequeued_counters j = elim (Bool-cases (j == worker_id)) [
    | inl y ↦
        let this : j ≡ worker_id = ground arith in
        omega (
          arith,
          ap (λ x. x.wrapping_counter) (same_worker j y),
          ap (λ x. x.wrapping_counter) (ap (worker_of s) this ∙ here),
        )
    | inr y ↦ omega (arith, ap (λ x. x.wrapping_counter) (other_worker j y))
  ]

  module _ (l : Later s s') where
    dequeued-IsValid : IsValid s'
    dequeued-IsValid = record {
      sorted = λ j. subst (λ x. IsSorted x.queue) (sym (workers j)) (either_sorted j);
      sent = λ j.
          subst (λ x. All (IsSent s'.queues_info x.wrapping_counter) x.queue) (sym (workers j))
            (either_sent j);
    }
      where
        either_sorted :
            (j : ℕ) → IsSorted (if j == worker_id then new_worker else worker_of s j).queue
        either_sorted j = elim (Bool-cases (j == worker_id)) [
          | inl y ↦ rw y (subst IsSorted old_queue (v.sorted worker_id)).1
          | inr y ↦ rw y (v.sorted j)
        ]

        raised :
            (j : ℕ)
            → All (IsSent s'.queues_info (worker_of s j).wrapping_counter) (worker_of s j).queue
        raised j =
            All-imp (IsSent-Later s s' (worker_of s j).wrapping_counter l) (worker_of s j).queue
              (v.sent j)

        either_sent :
            (j : ℕ)
            → All
                (IsSent s'.queues_info
                  (if j == worker_id then new_worker else worker_of s j).wrapping_counter)
                (if j == worker_id then new_worker else worker_of s j).queue
        either_sent j = elim (Bool-cases (j == worker_id)) [
          | inl y ↦ rw y (
              subst (λ x. All (IsSent s'.queues_info x.wrapping_counter) rest) here
                (subst (All (IsSent s'.queues_info (worker_of s worker_id).wrapping_counter))
                  old_queue (raised worker_id)).1)
          | inr y ↦ rw y (raised j)
        ]

module _ {ℓ} {T : Type ℓ} (s : QueueingLogicRl T) (v : IsValid s) (w q : ℕ) where
  -- A pop keeps the invariant, takes the top of the worker's queue once its time has come, and takes
  -- no other element.
  pub pop_back-Pops : (worker_id now : ℕ) → Pops w q s worker_id now (pop_back s worker_id now)
  unfolding pop_back discount dequeue
  pop_back-Pops worker_id now = elim (Option-cases (get_elem? s.workers_info worker_id)) [
    | inl e ↦ subst (Pops w q s worker_id now) (sym (no_worker e)) (record {
      valid = v;
      counters = λ j. omega arith;
      order = refl;
      due = λ i item f. absurd cc;
    })
    | inr (w_info, e) ↦ elim (List-cases w_info.queue) [
      | inl n ↦ subst (Pops w q s worker_id now) (sym (nothing w_info e n)) (record {
        valid = v;
        counters = λ j. omega arith;
        order = refl;
        due = λ i item f. absurd cc;
      })
      | inr (top, rest, n) ↦ elim (Bool-cases (leb top.send now)) [
        | inr y ↦ subst (Pops w q s worker_id now) (sym (early w_info top rest e n y)) (record {
          valid = v;
          counters = λ j. omega arith;
          order = refl;
          due = λ i item f. absurd cc;
        })
        | inl y ↦
            let (q_info, found, t, c) = known w_info top rest e n in
            subst (Pops w q s worker_id now) (sym (taken w_info top rest q_info e n y found))
              (record {
                valid =
                    dequeued-IsValid s v worker_id w_info top rest (after w_info top rest q_info) e
                      n refl
                      (Later-assign s (after w_info top rest q_info) top.queue_id q_info
                        (discounted q_info) found refl (omega arith));
                counters =
                    dequeued_counters s v worker_id w_info top rest (after w_info top rest q_info) e
                      n refl;
                order =
                    dequeued_order s v worker_id w_info top rest (after w_info top rest q_info) e n
                      refl w q;
                due = λ i item f.
                    subst (λ xs. All (λ x. x.send ≤ now) (take 1 xs))
                      (sym (old w_info top rest e n)) (ground arith, tt);
              })
      ]
    ]
  ]
    where
      after : WorkerInfo T → Qe T → List (Qe T) → QueueInfo → QueueingLogicRl T
      after w_info top rest q_info = discount (dequeue s worker_id w_info rest) top.queue_id q_info

      discounted : QueueInfo → QueueInfo
      discounted q_info = record q_info { size = (q_info.size + (2 ^ 64 - 1)) % 2 ^ 64 }

      old :
          (w_info : WorkerInfo T) (top : Qe T) (rest : List (Qe T))
          → get_elem? s.workers_info worker_id ≡ some w_info
          → w_info.queue ≡ top ∷ rest
          → (worker_of s worker_id).queue ≡ top ∷ rest
      old w_info top rest e n =
          ap (λ x. x.queue) (get_elem?-some s.workers_info worker_id w_info _ e).1 ∙ n

      known :
          (w_info : WorkerInfo T) (top : Qe T) (rest : List (Qe T))
          → get_elem? s.workers_info worker_id ≡ some w_info
          → w_info.queue ≡ top ∷ rest
          → IsSent s.queues_info (worker_of s worker_id).wrapping_counter top
      known w_info top rest e n =
          (subst (All (IsSent s.queues_info (worker_of s worker_id).wrapping_counter))
            (old w_info top rest e n) (v.sent worker_id)).0

      no_worker :
          get_elem? s.workers_info worker_id ≡ none → pop_back s worker_id now ≡ (out_of_range, s)
      no_worker e = rw (e, pop_back)

      nothing :
          (w_info : WorkerInfo T)
          → get_elem? s.workers_info worker_id ≡ some w_info
          → w_info.queue ≡ []
          → pop_back s worker_id now ≡ (waits, s)
      nothing w_info e n = rw (e, n, pop_back)

      early :
          (w_info : WorkerInfo T) (top : Qe T) (rest : List (Qe T))
          → get_elem? s.workers_info worker_id ≡ some w_info
          → w_info.queue ≡ top ∷ rest
          → leb top.send now ≡ false
          → pop_back s worker_id now ≡ (waits, s)
      early w_info top rest e n y = rw (e, n, y, pop_back)

      taken :
          (w_info : WorkerInfo T) (top : Qe T) (rest : List (Qe T)) (q_info : QueueInfo)
          → get_elem? s.workers_info worker_id ≡ some w_info
          → w_info.queue ≡ top ∷ rest
          → leb top.send now ≡ true
          → value_for top.queue_id s.queues_info ≡ some q_info
          → pop_back s worker_id now ≡ (popped top.queue_id top.e, after w_info top rest q_info)
      taken w_info top rest q_info e n y f = rw (e, n, y, f, pop_back)
