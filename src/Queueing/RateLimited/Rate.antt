-- ===== src/Queueing/RateLimited/Rate.antt =====
-- The rate of a logical queue of QueueingLogicRL: how far apart its elements are sent, and how many have
-- been handed out by a time.
use prog_tm_bmv.Base.{
  ℕ, ◌+◌, ◌-◌, ◌*◌, ◌%◌, ◌^◌, ◌≤◌, ◌≡◌, refl, ap, subst, sym, ◌∙◌, arith, ◌==◌, ==_refl, List, [],
  ◌∷◌, ◌++◌, length, take, none, some, Bool-cases, inl, inr, value_for, is_some, assign,
  value_for-assign, value_for-update_all,
}
use prog_tm_bmv.Queueing.Heap.{Qe}
use prog_tm_bmv.Queueing.Heap.Order.{All, of_queue}
use prog_tm_bmv.Queueing.Logic.{Pushed, pushed, Popped, popped, waits, out_of_range}
use prog_tm_bmv.Queueing.RateLimited.{
  QueueInfo, WorkerInfo, QueueingLogicRl, get_next_tp, get_queue, enqueue, push_front, pop_back,
  set_capacity, set_capacity_for_all,
}
use prog_tm_bmv.Queueing.RateLimited.Inv.{worker_of, last_sent_of, IsValid}
use prog_tm_bmv.Queueing.RateLimited.Settings.{get_queue-Entered}
use prog_tm_bmv.Queueing.RateLimited.Effects.{arrival, times_of, departure}
use prog_tm_bmv.Queueing.RateLimited.Pop.{pop_back-Pops}
use prog_tm_bmv.Queueing.RateLimited.Run.{
  Call, push, pop, change_capacity, change_all_capacities, change_rate, change_all_rates, make, run,
  HasRoom, make-InOrder, run-InOrder,
}
use prog_tm_bmv.Queueing.RateLimited.Pace.{
  Paced, Spaced, Spaced-append, Spaced-count, Plain, AllPlain, Paced-write, Paced-get_queue,
  Paced-pop_back, push_front-cases,
}

module _ {ℓ} {T : Type ℓ} (m ticks_of : ℕ → ℕ) (q : ℕ) where
  -- What a push does to the pace, for each of its results.
  After : QueueingLogicRl T → ℕ → T → ℕ → ℕ → Pushed × QueueingLogicRl T → Type 0
  After s i item delay last r =
      (final : ℕ) × Paced r.1 q delay final
      × Spaced delay last (arrival (m q) q s (m i) i item r) final

  enqueue-After_own :
      (s s1 : QueueingLogicRl T) (item : T) (q_info : QueueInfo) (w_info : WorkerInfo T)
      (now delay last : ℕ)
      → value_for q s1.queues_info ≡ some q_info
      → Paced s1 q delay last
      → After s q item delay last
          (pushed, enqueue m s1 q q_info w_info item (get_next_tp q_info now))
  unfolding After enqueue of_queue get_next_tp
  enqueue-After_own s s1 item q_info w_info now delay last found (k_info, f, d, l) = (
    get_next_tp q_info now,
    (new_info, at, ground arith, refl),
    rw (==_refl (m q), ==_refl q) (ground (arith, same, sends), sends),
  )
    where
      new_info : QueueInfo
      new_info = record q_info {
        size = (q_info.size + 1) % 2 ^ 64;
        last_sent = get_next_tp q_info now;
      }

      same : some k_info ≡ some q_info
      same = sym f ∙ found

      at : value_for q (assign q new_info s1.queues_info) ≡ some new_info
      at = value_for-assign q new_info q s1.queues_info (ap is_some found) ∙ rw (==_refl q)

      sends :
          last_sent_of (enqueue m s1 q q_info w_info item (get_next_tp q_info now)) q
          ≡ get_next_tp q_info now
      sends = ap (λ o. elim o [ none ↦ 0 | some n ↦ n.last_sent ]) at

  enqueue-After :
      (s s1 : QueueingLogicRl T) (i : ℕ) (item : T) (q_info : QueueInfo) (w_info : WorkerInfo T)
      (now delay last : ℕ)
      → value_for i s1.queues_info ≡ some q_info
      → Paced s1 q delay last
      → After s i item delay last
          (pushed, enqueue m s1 i q_info w_info item (get_next_tp q_info now))
  unfolding After enqueue of_queue
  enqueue-After s s1 i item q_info w_info now delay last found k = elim (Bool-cases (i == q)) [
    | inl y ↦
        let this : q ≡ i = ground arith in
        subst
          (λ j.
            After s j item delay last
              (pushed, enqueue m s1 j q_info w_info item (get_next_tp q_info now)))
          this
          (enqueue-After_own s s1 item q_info w_info now delay last
            (ap (λ j. value_for j s1.queues_info) this ∙ found) k)
    | inr y ↦ (
      last,
      Paced-write s1 (enqueue m s1 i q_info w_info item (get_next_tp q_info now)) i q_info _ q delay
          last found refl (λ z. absurd (cc (y, z))) k,
      rw y (elim (Bool-cases (m q == m i)) [ inl z ↦ rw z | inr z ↦ rw z ]),
    )
  ]

  push_front-After :
      (s : QueueingLogicRl T) (i : ℕ) (item : T) (created now delay last : ℕ)
      → Paced s q delay last
      → After s i item delay last (push_front m ticks_of s i item created now)
  unfolding After
  push_front-After s i item created now delay last k =
      let k1 = Paced-get_queue ticks_of s i created q delay last k in
      let to = After s i item delay last in
      elim (push_front-cases m ticks_of s i item created now) [
        | inl e ↦ subst to (sym e) (last, k1, refl)
        | inr (inl e) ↦ subst to (sym e) (last, k1, refl)
        | inr (inr (w_info, e)) ↦ subst to (sym e) (
            enqueue-After s (get_queue ticks_of s i created).1 i item
              (get_queue ticks_of s i created).0 w_info now delay last
              (get_queue-Entered ticks_of s i created).found k1)
      ]

  make-Spaced :
      (s : QueueingLogicRl T) (t delay last : ℕ) (c : Call T)
      → Plain t c
      → Paced s q delay last
      → (final : ℕ) × Paced (make m ticks_of (m q) q s c).0 q delay final
        × Spaced delay last (make m ticks_of (m q) q s c).1 final
  unfolding make After set_capacity set_capacity_for_all
  make-Spaced s t delay last (push i item created now) p k =
      push_front-After s i item created now delay last k
  make-Spaced s t delay last (pop j now) p k = (last, Paced-pop_back s j now q delay last k, refl)
  make-Spaced s t delay last (change_capacity i c now) p k =
      let n = get_queue-Entered ticks_of s i now in
      let r = get_queue ticks_of s i now in
      (
        last,
        Paced-write r.1 (set_capacity ticks_of s i c now) i r.0 (record r.0 { capacity = c }) q
            delay last n.found refl (λ _. (refl, refl))
            (Paced-get_queue ticks_of s i now q delay last k),
        refl,
      )
  make-Spaced s t delay last (change_all_capacities c) p (q_info, f, d, l) = (
    last,
    (record q_info { capacity = c }, value_for-update_all _ q s.queues_info ∙ rw f, d, l),
    refl,
  )
  make-Spaced s t delay last (change_rate i pps now) p k = elim p [ ]
  make-Spaced s t delay last (change_all_rates pps) p k = elim p [ ]

  run-Spaced :
      (t delay : ℕ) (calls : List (Call T)) (s : QueueingLogicRl T) (last : ℕ)
      → AllPlain t calls
      → Paced s q delay last
      → (final : ℕ) × Spaced delay last (run m ticks_of (m q) q s calls).1 final
  unfolding run
  run-Spaced t delay [] s last p k = (last, refl)
  run-Spaced t delay (c ∷ calls) s last p k =
      let (middle, k1, a) = make-Spaced s t delay last c p.0 k in
      let (final, b) = run-Spaced t delay calls (make m ticks_of (m q) q s c).0 middle p.1 k1 in
      (final, Spaced-append delay last middle final _ _ a b)

  -- All that is handed out by time `t` was to be sent by then.
  All-of_queue : (P : Qe T → Type 0) (xs : List (Qe T)) → All P xs → All P (of_queue q xs)
  unfolding of_queue
  All-of_queue P [] a = tt
  All-of_queue P (x ∷ xs) a = elim (Bool-cases (x.queue_id == q)) [
    | inl y ↦ rw y (a.0, All-of_queue P xs a.1)
    | inr y ↦ rw y (All-of_queue P xs a.1)
  ]

  All-append : (P : Qe T → Type 0) (xs ys : List (Qe T)) → All P xs → All P ys → All P (xs ++ ys)
  All-append P [] ys a b = b
  All-append P (x ∷ xs) ys a b = (a.0, All-append P xs ys a.1 b)

  make_due :
      (w n t : ℕ) (s : QueueingLogicRl T)
      → IsValid s
      → (c : Call T) → Plain t c
      → All (λ x. x.send ≤ t) (make m ticks_of w q s c).2
  unfolding make
  make_due w n t s v (push i item created now) p = tt
  make_due w n t s v (pop j now) p = departed (pop_back s j now).0 refl
    where
      top_due :
          (queue : List (Qe T)) → All (λ x. x.send ≤ now) (take 1 queue) → (times_of queue).0 ≤ t
      top_due [] a = omega arith
      top_due (top ∷ rest) a = omega (arith, a.0, p)

      departed :
          (result : Popped T)
          → (pop_back s j now).0 ≡ result
          → All (λ x. x.send ≤ t) (departure w q s j result)
      departed (popped i item) e = elim (Bool-cases (w == j)) [
        | inl y ↦ rw y (
            All-of_queue (λ x. x.send ≤ t) (_ ∷ [])
              (top_due (worker_of s j).queue ((pop_back-Pops s v w q j now).due i item e), tt))
        | inr y ↦ rw y tt
      ]
      departed waits e = tt
      departed out_of_range e = tt
  make_due w n t s v (change_capacity i c now) p = tt
  make_due w n t s v (change_all_capacities c) p = tt
  make_due w n t s v (change_rate i pps now) p = tt
  make_due w n t s v (change_all_rates pps) p = tt

  run_due :
      (w t : ℕ) (calls : List (Call T)) (s : QueueingLogicRl T)
      → IsValid s
      → HasRoom (length calls) s
      → AllPlain t calls
      → All (λ x. x.send ≤ t) (run m ticks_of w q s calls).2
  unfolding run
  run_due w t [] s v h p = tt
  run_due w t (c ∷ calls) s v h p =
      let first = make-InOrder m ticks_of w q (length calls) s v (λ j. omega (arith, h j)) c in
      All-append (λ x. x.send ≤ t) (make m ticks_of w q s c).2 _ (make_due w 0 t s v c p.0)
        (run_due w t calls (make m ticks_of w q s c).0 first.valid first.room p.1)

  -- A logical queue of a valid state with no elements waiting, a delay of some ticks and a last
  -- time of sending has handed out at most one element for each delay since then, whatever is
  -- pushed and popped by a time, if no rate is changed and the counters do not wrap around.
  pub rate_is_kept :
      (s : QueueingLogicRl T) (delay last t : ℕ) (calls : List (Call T))
      → IsValid s
      → HasRoom (length calls) s
      → Paced s q delay last
      → of_queue q (worker_of s (m q)).queue ≡ []
      → AllPlain t calls
      → delay * length (run m ticks_of (m q) q s calls).2 ≤ t - last
  rate_is_kept s delay last t calls v h k none_waiting p =
      let i = run-InOrder m ticks_of (m q) q s v calls h in
      let (final, spaced) = run-Spaced t delay calls s last p k in
      let all : (run m ticks_of (m q) q s calls).1
          ≡ (run m ticks_of (m q) q s calls).2
            ++ of_queue q (worker_of (run m ticks_of (m q) q s calls).0 (m q)).queue =
        ap (λ d. d ++ (run m ticks_of (m q) q s calls).1) (sym none_waiting) ∙ i.order in
      Spaced-count delay last final t _ _ (subst (λ d. Spaced delay last d final) all spaced)
        (run_due (m q) t calls s v h p)
