-- ===== src/Queueing/Logic/Ops.antt =====
-- Every operation of QueueingLogic keeps the invariant, and what it does to the deques.
use prog_tm_bmv.Base.{
  ℕ, ◌+◌, ◌-◌, ◌%◌, ◌^◌, ◌<◌, ◌≡◌, ◌≢◌, refl, ap, sym, ◌∙◌, arith, ◌==◌, if◌then◌else◌, List, [],
  ◌∷◌, ◌++◌, length, get_elem?, set, some, Option-cases, inl, inr, value_for, is_some,
  value_for-assign, length-append, get_elem?-some, get_or-set,
}
use native.Mathlib.Decide.{ℕ_discrete}
use prog_tm_bmv.Queueing.Logic.{Qe, QueueInfo, QueueingLogic, emplace_front, discount, size}
use prog_tm_bmv.Queueing.Logic.Inv.{total-set, in_queue, in_queue-append, deque_of, IsValid}
use prog_tm_bmv.Queueing.Logic.Step.{Writes-IsValid, size-some, capacity_of-some}

module _ {ℓ} {T : Type ℓ} (m : ℕ → ℕ) (s : QueueingLogic T) (v : IsValid m s) where
  pub emplace_front-IsValid :
      (q : ℕ) (q_info : QueueInfo) (queue : List (Qe T)) (item : T)
      → value_for q s.queues_info ≡ some q_info
      → get_elem? s.workers_info (m q) ≡ some queue
      → q_info.size < q_info.capacity
      → IsValid m (emplace_front m s q q_info queue item)
  unfolding emplace_front in_queue
  emplace_front-IsValid q q_info queue item found at room =
      let (inside, here) = get_elem?-some s.workers_info (m q) queue [] at in
      let counted : q_info.size ≡ in_queue q queue =
        sym (size-some s q q_info found) ∙ v.counted q ∙ ap (in_queue q) here in
      let fit : q_info.capacity < 2 ^ 64 =
        omega (arith, capacity_of-some s q q_info found, v.capacities q) in
      Writes-IsValid s q (record q_info { size = (q_info.size + 1) % 2 ^ 64 }) _
        (λ i. value_for-assign q _ i s.queues_info (ap is_some found)) m
        (record { e = item; queue_id = q } ∷ queue) v
        (λ i. get_or-set s.workers_info (m q) i _ [] inside) (ground (arith, counted))
        (λ i f. ground (arith, ap (in_queue i) here)) (omega arith) fit refl
        (omega (
          arith,
          v.all_counted,
          total-set s.workers_info (m q) (record { e = item; queue_id = q } ∷ queue) inside,
          ap length here,
        ))

  -- If an element is left, its queue is known, and it is one of the worker that finds it.
  pub found_queue :
      (w q : ℕ)
      → in_queue q (deque_of s w) ≢ 0
      → (w ≡ m q) × (q_info : QueueInfo) × (value_for q s.queues_info ≡ some q_info)
  unfolding size
  found_queue w q n = elim (ℕ_discrete w (m q)) [
    | no off ↦ absurd (n (v.placed q w off))
    | yes own ↦ elim (Option-cases (value_for q s.queues_info)) [
      | inr (q_info, e) ↦ (own, q_info, e)
      | inl e ↦
          let nothing : size s q ≡ 0 = rw (e, size) in
          absurd (n (ap (λ i. in_queue q (deque_of s i)) own ∙ sym (v.counted q) ∙ nothing))
    ]
  ]

  pub discount-IsValid :
      (w : ℕ) (queue front : List (Qe T)) (back : Qe T) (q_info : QueueInfo)
      → get_elem? s.workers_info w ≡ some queue
      → queue ≡ front ++ back ∷ []
      → w ≡ m back.queue_id
      → value_for back.queue_id s.queues_info ≡ some q_info
      → IsValid m
          (discount (record s { workers_info = set s.workers_info w front }) back.queue_id q_info)
  unfolding discount in_queue
  discount-IsValid w queue front back q_info at parts own found =
      let q = back.queue_id in
      let (inside, here) = get_elem?-some s.workers_info w queue [] at in
      let one : in_queue q (deque_of s w) ≡ in_queue q front + 1 =
        ap (in_queue q) (here ∙ parts) ∙ in_queue-append q front (back ∷ []) ∙ ground arith in
      let counted : q_info.size ≡ in_queue q front + 1 =
        sym (size-some s q q_info found)
        ∙ v.counted q
        ∙ ap (λ i. in_queue q (deque_of s i)) (sym own)
        ∙ one in
      let fit : q_info.size < 2 ^ 64 = omega (arith, size-some s q q_info found, v.fits q) in
      Writes-IsValid s q (record q_info { size = (q_info.size + (2 ^ 64 - 1)) % 2 ^ 64 }) _
        (λ i. value_for-assign q _ i s.queues_info (ap is_some found)) m front v
        (λ i.
          get_or-set s.workers_info w i front [] inside
          ∙ ap (λ j. if i == j then front else deque_of s i) own)
        (omega (arith, counted))
        (λ i f. omega (
          arith,
          in_queue-append i front (back ∷ []),
          alone i f,
          ap (in_queue i) (here ∙ parts),
          ap (λ j. in_queue i (deque_of s j)) own,
        ))
        (omega arith) (omega (arith, capacity_of-some s q q_info found, v.capacities q)) refl
        (omega (
          arith,
          v.all_counted,
          total-set s.workers_info w front inside,
          ap length (here ∙ parts),
          length-append front (back ∷ []),
        ))
    where
      alone : (i : ℕ) → i ≢ back.queue_id → in_queue i (back ∷ []) ≡ 0
      alone i f = ground arith
