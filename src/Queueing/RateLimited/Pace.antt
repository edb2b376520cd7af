-- ===== src/Queueing/RateLimited/Pace.antt =====
-- The delay and the last time of sending of a logical queue of QueueingLogicRL, and what keeps them.
use prog_tm_bmv.Base.{
  ℕ, ◌+◌, ◌-◌, ◌*◌, ◌%◌, ◌^◌, ◌≤◌, ◌≡◌, ◌⊎◌, refl, ap, subst, sym, ◌∙◌, arith, true, false, ◌==◌,
  ==_refl, leb, if◌then◌else◌, List, [], ◌∷◌, ◌++◌, length, get_elem?, some, Option-cases,
  Bool-cases, List-cases, inl, inr, value_for, is_some, assign, value_for-assign,
  value_for-insert_new,
}
use prog_tm_bmv.Queueing.Heap.{Qe}
use prog_tm_bmv.Queueing.Heap.Order.{All}
use prog_tm_bmv.Queueing.Logic.{pushed, full, bad_worker}
use prog_tm_bmv.Queueing.RateLimited.{
  QueueInfo, WorkerInfo, QueueingLogicRl, get_next_tp, get_queue, enqueue, push_front, dequeue,
  discount, pop_back,
}
use prog_tm_bmv.Queueing.RateLimited.Run.{
  Call, push, pop, change_capacity, change_all_capacities, change_rate, change_all_rates,
}

module _ {ℓ} {T : Type ℓ} where
  -- A known queue, with its delay and the last time that it sends at.
  abbrev pub Paced : QueueingLogicRl T → ℕ → ℕ → ℕ → Type 0
  Paced s q delay last =
      (q_info : QueueInfo) × (value_for q s.queues_info ≡ some q_info)
      × (q_info.pkt_delay_ticks ≡ delay)
      × (q_info.last_sent ≡ last)

  -- Elements that are sent at least `delay` apart, the first that long after `last`; `final` is the
  -- time of the last one.
  abbrev pub Spaced : ℕ → ℕ → List (Qe T) → ℕ → Type 0
  Spaced delay last [] final = last ≡ final
  Spaced delay last (x ∷ xs) final = (last + delay ≤ x.send) × Spaced delay x.send xs final

  pub Spaced-append :
      (delay last middle final : ℕ) (xs ys : List (Qe T))
      → Spaced delay last xs middle
      → Spaced delay middle ys final
      → Spaced delay last (xs ++ ys) final
  Spaced-append delay last middle final [] ys a b = subst (λ t. Spaced delay t ys final) (sym a) b
  Spaced-append delay last middle final (x ∷ xs) ys a b =
      (a.0, Spaced-append delay x.send middle final xs ys a.1 b)

  -- A prefix of spaced elements that have all been sent by `t`.
  pub Spaced-count :
      (delay last final t : ℕ) (xs ys : List (Qe T))
      → Spaced delay last (xs ++ ys) final
      → All (λ x. x.send ≤ t) xs
      → delay * length xs ≤ t - last
  Spaced-count delay last final t [] ys a b = grind arith
  Spaced-count delay last final t (x ∷ xs) ys a b =
      let rest = Spaced-count delay x.send final t xs ys a.1 b.1 in grind arith

  -- A call that is no change of a rate, and no pop after `t`.
  abbrev pub Plain : ℕ → Call T → Type 0
  Plain t (push i item created now) = Unit
  Plain t (pop j now) = now ≤ t
  Plain t (change_capacity i c now) = Unit
  Plain t (change_all_capacities c) = Unit
  Plain t (change_rate i pps now) = ⊥
  Plain t (change_all_rates pps) = ⊥

  abbrev pub AllPlain : ℕ → List (Call T) → Type 0
  AllPlain t calls = All (Plain t) calls

module _ {ℓ} {T : Type ℓ} where
  -- A write that keeps the pace of its queue.
  pub Paced-write :
      (s s' : QueueingLogicRl T) (i : ℕ) (i_info r : QueueInfo) (q delay last : ℕ)
      → value_for i s.queues_info ≡ some i_info
      → s'.queues_info ≡ assign i r s.queues_info
      → ((i == q) ≡ true
          → (r.pkt_delay_ticks ≡ i_info.pkt_delay_ticks) × (r.last_sent ≡ i_info.last_sent))
      → Paced s q delay last
      → Paced s' q delay last
  Paced-write s s' i i_info r q delay last found e same (q_info, f, d, l) =
      elim (Bool-cases (i == q)) [
        | inl y ↦
            let this : i ≡ q = ground arith in
            let info : some i_info ≡ some q_info =
              sym found ∙ ap (λ j. value_for j s.queues_info) this ∙ f in
            let (d1, l1) = same y in (r, at ∙ rw (this, ==_refl q), ground arith, ground arith)
        | inr y ↦ let off : (q == i) ≡ false = ground arith in (q_info, at ∙ rw off f, d, l)
      ]
    where
      at : value_for q s'.queues_info ≡ (if q == i then some r else value_for q s.queues_info)
      at = ap (value_for q) e ∙ value_for-assign i r q s.queues_info (ap is_some found)

  pub Paced-get_queue :
      (ticks_of : ℕ → ℕ) (s : QueueingLogicRl T) (i now q delay last : ℕ)
      → Paced s q delay last
      → Paced (get_queue ticks_of s i now).1 q delay last
  unfolding get_queue
  Paced-get_queue ticks_of s i now q delay last (q_info, f, d, l) =
      elim (Option-cases (value_for i s.queues_info)) [
        | inr (i_info, e) ↦ rw (e, get_queue) (q_info, f, d, l)
        | inl e ↦ elim (Bool-cases (q == i)) [
          | inl y ↦
              let this : q ≡ i = ground arith in
              absurd (cc (ap (λ j. value_for j s.queues_info) this, e, f))
          | inr y ↦
              rw (e, get_queue)
                (q_info, value_for-insert_new i _ q s.queues_info (ap is_some e) ∙ rw y f, d, l)
        ]
      ]

  pub Paced-pop_back :
      (s : QueueingLogicRl T) (j now q delay last : ℕ)
      → Paced s q delay last
      → Paced (pop_back s j now).1 q delay last
  unfolding pop_back dequeue discount
  Paced-pop_back s j now q delay last k = elim (Option-cases (get_elem? s.workers_info j)) [
    | inl e ↦ rw (e, pop_back) k
    | inr (w_info, e) ↦ elim (List-cases w_info.queue) [
      | inl n ↦ rw (e, n, pop_back) k
      | inr (top, rest, n) ↦ elim (Bool-cases (leb top.send now)) [
        | inr y ↦ rw (e, n, y, pop_back) k
        | inl y ↦ elim (Option-cases (value_for top.queue_id s.queues_info)) [
          | inl f ↦ rw (e, n, y, f, pop_back) k
          | inr (i_info, f) ↦
              rw (e, n, y, f, pop_back)
                (Paced-write s (discount (dequeue s j w_info rest) top.queue_id i_info) top.queue_id
                  i_info (record i_info { size = (i_info.size + (2 ^ 64 - 1)) % 2 ^ 64 }) q delay
                  last f refl (λ _. (refl, refl)) k)
        ]
      ]
    ]
  ]

  pub push_front-cases :
      (m ticks_of : ℕ → ℕ) (s : QueueingLogicRl T) (i : ℕ) (item : T) (created now : ℕ)
      → (push_front m ticks_of s i item created now
          ≡ (bad_worker, (get_queue ticks_of s i created).1))
        ⊎ ((push_front m ticks_of s i item created now ≡ (full, (get_queue ticks_of s i created).1))
            ⊎ ((w_info : WorkerInfo T) × (push_front m ticks_of s i item created now ≡ (
              pushed,
              enqueue m
                  (get_queue ticks_of s i created).1
                  i
                  (get_queue ticks_of s i created).0
                  w_info
                  item
                  (get_next_tp (get_queue ticks_of s i created).0 now),
            ))))
  unfolding push_front
  push_front-cases m ticks_of s i item created now =
      elim (Option-cases (get_elem? (get_queue ticks_of s i created).1.workers_info (m i))) [
        | inl e ↦ inl (rw (e, push_front))
        | inr (w_info, e) ↦
            elim (Bool-cases (
              leb (get_queue ticks_of s i created).0.capacity
                (get_queue ticks_of s i created).0.size)) [
                  | inl y ↦ inr (inl (rw (e, y, push_front)))
                  | inr y ↦ inr (inr (w_info, rw (e, y, push_front)))
                ]
      ]
