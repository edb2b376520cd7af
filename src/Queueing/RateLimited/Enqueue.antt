-- ===== src/Queueing/RateLimited/Enqueue.antt =====
-- An element that is entered into a priority queue keeps the invariant, and goes behind the elements of
-- its logical queue.
use prog_tm_bmv.Base.{
  ℕ, ◌+◌, ◌%◌, ◌^◌, ◌≤◌, ◌<◌, ◌≡◌, refl, ap, subst, sym, ◌∙◌, arith, false, ◌==◌, ==_refl,
  if◌then◌else◌, [], ◌∷◌, ◌++◌, get_elem?, some, Bool-cases, inl, inr, value_for, is_some,
  value_for-assign, get_elem?-some, get_or-set,
}
use mathlib.Core.List.{append-nil}
use prog_tm_bmv.Queueing.Heap.{Qe, comes_after, emplace}
use prog_tm_bmv.Queueing.Heap.Order.{
  All, All-imp, IsSorted, of_queue, All-emplace, emplace-IsSorted, of_queue-emplace_own,
  of_queue-emplace_other,
}
use prog_tm_bmv.Queueing.RateLimited.{QueueInfo, WorkerInfo, QueueingLogicRl, get_next_tp, enqueue}
use prog_tm_bmv.Queueing.RateLimited.Inv.{worker_of, IsSent, IsValid, Later, IsSent-Later}
use prog_tm_bmv.Queueing.RateLimited.Settings.{Later-assign}

module _ {ℓ} {T : Type ℓ} (m : ℕ → ℕ) (s : QueueingLogicRl T) (v : IsValid s) (i : ℕ)
    (q_info : QueueInfo) (w_info : WorkerInfo T) (item : T) (now : ℕ)
    (found : value_for i s.queues_info ≡ some q_info)
    (at : get_elem? s.workers_info (m i) ≡ some w_info)
    (no_wrap : w_info.wrapping_counter + 1 < 2 ^ 64) where
  abbrev pub new_elem : Qe T
  new_elem = record {
    e = item;
    queue_id = i;
    send = get_next_tp q_info now;
    id = w_info.wrapping_counter;
  }

  abbrev after : QueueingLogicRl T
  after = enqueue m s i q_info w_info item (get_next_tp q_info now)

  here : worker_of s (m i) ≡ w_info
  here = (get_elem?-some s.workers_info (m i) w_info _ at).1

  workers :
      (w : ℕ)
      → worker_of after w ≡ (
          if w == m i
          then record {
            queue = emplace w_info.queue new_elem;
            wrapping_counter = (w_info.wrapping_counter + 1) % 2 ^ 64;
          }
          else worker_of s w)
  unfolding enqueue
  workers w =
      get_or-set s.workers_info (m i) w _ _
        (get_elem?-some s.workers_info (m i) w_info (worker_of s (m i)) at).0

  later : Later s after
  unfolding enqueue get_next_tp
  later = Later-assign s after i q_info _ found refl (omega arith)

  pub own_time :
      value_for i after.queues_info
      ≡ some
          (record q_info { size = (q_info.size + 1) % 2 ^ 64; last_sent = get_next_tp q_info now })
  unfolding enqueue
  own_time = value_for-assign i _ i s.queues_info (ap is_some found) ∙ rw (==_refl i)

  waiting-IsSent : All (IsSent s.queues_info w_info.wrapping_counter) w_info.queue
  waiting-IsSent =
      subst (λ x. All (IsSent s.queues_info x.wrapping_counter) x.queue) here (v.sent (m i))

  -- The elements that wait go before the new one, if they are of its queue.
  waiting_first : All (λ y. y.queue_id ≡ i → comes_after y new_elem ≡ false) w_info.queue
  unfolding comes_after get_next_tp
  waiting_first = All-imp first w_info.queue waiting-IsSent
    where
      first :
          (y : Qe T)
          → IsSent s.queues_info w_info.wrapping_counter y
          → y.queue_id ≡ i
          → comes_after y new_elem ≡ false
      first y (y_info, f, t, n) own =
          let same : some y_info ≡ some q_info =
            sym f ∙ ap (λ j. value_for j s.queues_info) own ∙ found in
          let before : y.send ≤ q_info.last_sent = ground arith in ground arith

  abbrev new_worker : WorkerInfo T
  new_worker = record {
    queue = emplace w_info.queue new_elem;
    wrapping_counter = (w_info.wrapping_counter + 1) % 2 ^ 64;
  }

  new_worker-IsSorted : IsSorted (emplace w_info.queue new_elem)
  new_worker-IsSorted =
      emplace-IsSorted w_info.queue new_elem (subst (λ x. IsSorted x.queue) here (v.sorted (m i)))

  new_worker-IsSent :
      All
        (IsSent after.queues_info ((w_info.wrapping_counter + 1) % 2 ^ 64))
        (emplace w_info.queue new_elem)
  new_worker-IsSent =
      All-emplace _ w_info.queue new_elem (_, own_time, omega arith, omega arith)
        (All-imp raise w_info.queue waiting-IsSent)
    where
      raise :
          (y : Qe T)
          → IsSent s.queues_info w_info.wrapping_counter y
          → IsSent after.queues_info ((w_info.wrapping_counter + 1) % 2 ^ 64) y
      raise y sent_y =
          let (y_info, f, t, n) = IsSent-Later s after w_info.wrapping_counter later y sent_y in
          (y_info, f, t, omega arith)

  pub enqueue-IsValid : IsValid after
  enqueue-IsValid = record {
    sorted = λ w. subst (λ x. IsSorted x.queue) (sym (workers w)) (either_sorted w);
    sent = λ w.
        subst (λ x. All (IsSent after.queues_info x.wrapping_counter) x.queue) (sym (workers w))
          (either_sent w);
  }
    where
      either_sorted : (w : ℕ) → IsSorted (if w == m i then new_worker else worker_of s w).queue
      either_sorted w = elim (Bool-cases (w == m i)) [
        | inl y ↦ rw y new_worker-IsSorted
        | inr y ↦ rw y (v.sorted w)
      ]

      either_sent :
          (w : ℕ)
          → All
              (IsSent after.queues_info
                (if w == m i then new_worker else worker_of s w).wrapping_counter)
              (if w == m i then new_worker else worker_of s w).queue
      either_sent w = elim (Bool-cases (w == m i)) [
        | inl y ↦ rw y new_worker-IsSent
        | inr y ↦ rw y (
            All-imp (IsSent-Later s after (worker_of s w).wrapping_counter later)
              (worker_of s w).queue (v.sent w))
      ]

  pub enqueue_order :
      (w q : ℕ)
      → of_queue q (worker_of after w).queue
        ≡ of_queue q (worker_of s w).queue ++ (if w == m i then of_queue q (new_elem ∷ []) else [])
  unfolding of_queue
  enqueue_order w q = ap (λ x. of_queue q x.queue) (workers w) ∙ (elim (Bool-cases (w == m i)) [
    | inl y ↦
        let this : w ≡ m i = ground arith in
        rw y (
          added
          ∙ ap (λ x. of_queue q x.queue ++ of_queue q (new_elem ∷ []))
              (sym here ∙ ap (worker_of s) (sym this)))
    | inr y ↦ rw y (sym (append-nil _))
  ])
    where
      added :
          of_queue q (emplace w_info.queue new_elem)
          ≡ of_queue q w_info.queue ++ of_queue q (new_elem ∷ [])
      added = elim (Bool-cases (i == q)) [
        | inl y ↦
            let this : i ≡ q = ground arith in
            rw y (
              subst
                (λ j.
                  of_queue j (emplace w_info.queue new_elem)
                  ≡ of_queue j w_info.queue ++ new_elem ∷ [])
                this
                (of_queue-emplace_own w_info.queue new_elem
                  (subst (λ x. IsSorted x.queue) here (v.sorted (m i))) waiting_first))
        | inr y ↦ rw y (of_queue-emplace_other q w_info.queue new_elem y ∙ sym (append-nil _))
      ]

  pub enqueue_counters :
      (j : ℕ) → (worker_of after j).wrapping_counter ≤ (worker_of s j).wrapping_counter + 1
  enqueue_counters j = elim (Bool-cases (j == m i)) [
    | inl y ↦
        let this : j ≡ m i = ground arith in
        let now_at : worker_of after j ≡ new_worker = workers j ∙ rw y in
        omega (
          arith,
          ap (λ x. x.wrapping_counter) now_at,
          ap (λ x. x.wrapping_counter) (ap (worker_of s) this ∙ here),
        )
    | inr y ↦
        let same : worker_of after j ≡ worker_of s j = workers j ∙ rw y in
        omega (arith, ap (λ x. x.wrapping_counter) same)
  ]
