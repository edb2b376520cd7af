-- ===== src/Queueing/RateLimited/Push.antt =====
-- push_front of QueueingLogicRL on every branch.
use prog_tm_bmv.Base.{
  ℕ, ◌+◌, ◌^◌, ◌≤◌, ◌<◌, ◌≡◌, ap, ap₂, subst, sym, ◌∙◌, arith, true, false, ◌==◌, leb,
  if◌then◌else◌, [], ◌∷◌, ◌++◌, get_or, get_elem?, none, some, Option-cases, Bool-cases, inl, inr,
  get_elem?-some,
}
use mathlib.Core.List.{append-nil}
use prog_tm_bmv.Queueing.Heap.Order.{of_queue}
use prog_tm_bmv.Queueing.Logic.{pushed, full, bad_worker}
use prog_tm_bmv.Queueing.RateLimited.{
  QueueInfo, WorkerInfo, QueueingLogicRl, get_next_tp, get_queue, enqueue, push_front,
}
use prog_tm_bmv.Queueing.RateLimited.Inv.{worker_of, IsValid, Later-IsValid}
use prog_tm_bmv.Queueing.RateLimited.Settings.{Entered, get_queue-Entered}
use prog_tm_bmv.Queueing.RateLimited.Effects.{arrival, Pushes}
use prog_tm_bmv.Queueing.RateLimited.Enqueue.{
  new_elem, own_time, enqueue-IsValid, enqueue_order, enqueue_counters,
}

module _ {ℓ} {T : Type ℓ} (m ticks_of : ℕ → ℕ) (s : QueueingLogicRl T) (v : IsValid s)
    (w q : ℕ) where
  -- A push keeps the invariant, if the counter of the worker does not wrap around, and puts its
  -- element behind those of its queue.
  pub push_front-Pushes :
      (i : ℕ) (item : T) (created now : ℕ)
      → (worker_of s (m i)).wrapping_counter + 1 < 2 ^ 64
      → Pushes w q s (m i) i item (push_front m ticks_of s i item created now)
  unfolding push_front
  push_front-Pushes i item created now no_wrap =
      elim (Option-cases (get_elem? s1.workers_info (m i))) [
        | inl e ↦
            subst (Pushes w q s (m i) i item) (sym (no_worker e))
              (record { valid = valid1; counters = counters1; order = same ∙ sym (append-nil _) })
        | inr (w_info, e) ↦ elim (Bool-cases (leb q_info.capacity q_info.size)) [
          | inl y ↦
              subst (Pushes w q s (m i) i item) (sym (no_room w_info e y))
                (record { valid = valid1; counters = counters1; order = same ∙ sym (append-nil _) })
          | inr y ↦ subst (Pushes w q s (m i) i item) (sym (room w_info e y)) (record {
            valid =
                enqueue-IsValid m s1 valid1 i q_info w_info item now entered.found e
                  (counter w_info e);
            counters = enqueued w_info e;
            order =
                enqueue_order m s1 valid1 i q_info w_info item now entered.found e
                  (counter w_info e) w q
                ∙ ap₂ ◌++◌ same (arrives w_info e);
          })
        ]
      ]
    where
      q_info : QueueInfo
      q_info = (get_queue ticks_of s i created).0

      s1 : QueueingLogicRl T
      s1 = (get_queue ticks_of s i created).1

      entered : Entered s i (get_queue ticks_of s i created)
      entered = get_queue-Entered ticks_of s i created

      valid1 : IsValid s1
      valid1 = Later-IsValid s s1 v entered.later entered.workers

      same_worker : (j : ℕ) → worker_of s1 j ≡ worker_of s j
      same_worker j =
          ap (λ ws. get_or ws j (record { queue = []; wrapping_counter = 0 })) entered.workers

      same : of_queue q (worker_of s1 w).queue ≡ of_queue q (worker_of s w).queue
      same = ap (λ x. of_queue q x.queue) (same_worker w)

      worker :
          (w_info : WorkerInfo T)
          → get_elem? s1.workers_info (m i) ≡ some w_info
          → w_info ≡ worker_of s (m i)
      worker w_info e = sym (get_elem?-some s1.workers_info (m i) w_info _ e).1 ∙ same_worker (m i)

      counter :
          (w_info : WorkerInfo T)
          → get_elem? s1.workers_info (m i) ≡ some w_info
          → w_info.wrapping_counter + 1 < 2 ^ 64
      counter w_info e = omega (arith, ap (λ x. x.wrapping_counter) (worker w_info e))

      counters1 : (j : ℕ) → (worker_of s1 j).wrapping_counter ≤ (worker_of s j).wrapping_counter + 1
      counters1 j = omega (arith, ap (λ x. x.wrapping_counter) (same_worker j))

      enqueued :
          (w_info : WorkerInfo T) (e : get_elem? s1.workers_info (m i) ≡ some w_info) (j : ℕ)
          → (worker_of
              (enqueue m s1 i q_info w_info item (get_next_tp q_info now))
              j).wrapping_counter
            ≤ (worker_of s j).wrapping_counter + 1
      enqueued w_info e j = omega (
        arith,
        ap (λ x. x.wrapping_counter) (same_worker j),
        enqueue_counters m s1 valid1 i q_info w_info item now entered.found e (counter w_info e) j,
      )

      no_worker :
          get_elem? s1.workers_info (m i) ≡ none
          → push_front m ticks_of s i item created now ≡ (bad_worker, s1)
      no_worker e = rw (e, push_front)

      no_room :
          (w_info : WorkerInfo T)
          → get_elem? s1.workers_info (m i) ≡ some w_info
          → leb q_info.capacity q_info.size ≡ true
          → push_front m ticks_of s i item created now ≡ (full, s1)
      no_room w_info e y = rw (e, y, push_front)

      room :
          (w_info : WorkerInfo T)
          → get_elem? s1.workers_info (m i) ≡ some w_info
          → leb q_info.capacity q_info.size ≡ false
          → push_front m ticks_of s i item created now
            ≡ (pushed, enqueue m s1 i q_info w_info item (get_next_tp q_info now))
      room w_info e y = rw (e, y, push_front)

      arrives :
          (w_info : WorkerInfo T) (e : get_elem? s1.workers_info (m i) ≡ some w_info)
          → (if w == m i
              then of_queue q (
                  new_elem m s1 valid1 i q_info w_info item now entered.found e (counter w_info e)
                  ∷ [])
              else [])
            ≡ arrival w q s
                (m i)
                i
                item
                (pushed, enqueue m s1 i q_info w_info item (get_next_tp q_info now))
      arrives w_info e =
          ap₂
            (λ t c.
              if w == m i
              then of_queue q (record { e = item; queue_id = i; send = t; id = c } ∷ [])
              else [])
            (ap (λ o. elim o [ none ↦ 0 | some n ↦ n.last_sent ])
              (sym
                (own_time m s1 valid1 i q_info w_info item now entered.found e (counter w_info e))))
            (ap (λ x. x.wrapping_counter) (worker w_info e))
