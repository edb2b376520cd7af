-- ===== src/Queueing/Logic/Enter.antt =====
-- What `get_queue` of QueueingLogic does: it enters a queue that is not known, and changes nothing else.
use prog_tm_bmv.Base.{
  ℕ, ◌%◌, ◌^◌, ◌≡◌, refl, ap, subst, sym, ◌∙◌, arith, ◌==◌, ==_refl, if◌then◌else◌, [], get_or,
  none, some, Option-cases, Bool-cases, inl, inr, value_for, is_some, insert_new,
  value_for-insert_new,
}
use prog_tm_bmv.Queueing.Logic.{QueueInfo, QueueingLogic, get_queue, size}
use prog_tm_bmv.Queueing.Logic.Inv.{total, in_queue, capacity_of, IsValid}
use prog_tm_bmv.Queueing.Logic.Step.{size-Writes, capacity_of-Writes}

module _ {ℓ} {T : Type ℓ} where
  -- What `get_queue` returns.
  pub record Entered (s : QueueingLogic T) (q : ℕ) (r : QueueInfo × QueueingLogic T) : Type ℓ where
    pub found : value_for q r.1.queues_info ≡ some r.0
    pub sizes : (i : ℕ) → size r.1 i ≡ size s i
    pub capacities : (i : ℕ) → capacity_of r.1 i ≡ capacity_of s i
    pub workers : r.1.workers_info ≡ s.workers_info
    pub elements : r.1.element_count ≡ s.element_count

  pub get_queue-Entered : (s : QueueingLogic T) (q : ℕ) → Entered s q (get_queue s q)
  unfolding get_queue size
  get_queue-Entered s q = elim (Option-cases (value_for q s.queues_info)) [
    | inr (q_info, e) ↦ subst (Entered s q) (sym (known q_info e)) (record {
      found = e;
      sizes = λ i. refl;
      capacities = λ i. refl;
      workers = refl;
      elements = refl;
    })
    | inl e ↦ subst (Entered s q) (sym (unknown e)) (record {
      found = new e q ∙ rw (==_refl q);
      sizes = λ i. size-Writes s q fresh_queue entered (new e) i ∙ no_size e i;
      capacities =
          λ i. capacity_of-Writes s q fresh_queue entered (new e) refl i ∙ same_capacity e i;
      workers = refl;
      elements = refl;
    })
  ]
    where
      fresh_queue : QueueInfo
      fresh_queue = record { size = 0; capacity = s.capacity }

      entered : QueueingLogic T
      entered = record s { queues_info = insert_new q fresh_queue s.queues_info }

      known :
          (q_info : QueueInfo)
          → value_for q s.queues_info ≡ some q_info
          → get_queue s q ≡ (q_info, s)
      known q_info e = rw (e, get_queue)

      unknown : value_for q s.queues_info ≡ none → get_queue s q ≡ (fresh_queue, entered)
      unknown e = rw (e, get_queue)

      new :
          value_for q s.queues_info ≡ none
          → (i : ℕ)
          → value_for i (insert_new q fresh_queue s.queues_info)
            ≡ (if i == q then some fresh_queue else value_for i s.queues_info)
      new e i = value_for-insert_new q fresh_queue i s.queues_info (ap is_some e)

      none_size : value_for q s.queues_info ≡ none → size s q ≡ 0
      none_size e = rw (e, size)

      no_size :
          value_for q s.queues_info ≡ none → (i : ℕ) → (if i == q then 0 else size s i) ≡ size s i
      no_size e i = elim (Bool-cases (i == q)) [
        | inl y ↦ let this : i ≡ q = ground arith in rw y (sym (ap (size s) this ∙ none_size e))
        | inr y ↦ rw y
      ]

      none_capacity : value_for q s.queues_info ≡ none → capacity_of s q ≡ s.capacity
      none_capacity e = rw (e, capacity_of)

      same_capacity :
          value_for q s.queues_info ≡ none
          → (i : ℕ) → (if i == q then s.capacity else capacity_of s i) ≡ capacity_of s i
      same_capacity e i = elim (Bool-cases (i == q)) [
        | inl y ↦
            let this : i ≡ q = ground arith in
            rw y (sym (ap (capacity_of s) this ∙ none_capacity e))
        | inr y ↦ rw y
      ]

  pub Entered-IsValid :
      (m : ℕ → ℕ) (s : QueueingLogic T) (q : ℕ) (r : QueueInfo × QueueingLogic T)
      → Entered s q r
      → IsValid m s
      → IsValid m r.1
  Entered-IsValid m s q r n v = record {
    counted =
        λ i. n.sizes i ∙ v.counted i ∙ ap (λ ws. in_queue i (get_or ws (m i) [])) (sym n.workers);
    placed = λ i w f. ap (λ ws. in_queue i (get_or ws w [])) n.workers ∙ v.placed i w f;
    fits = λ i. omega (arith, n.sizes i, v.fits i);
    capacities = λ i. omega (arith, n.capacities i, v.capacities i);
    all_counted = n.elements ∙ v.all_counted ∙ ap (λ ws. total ws % 2 ^ 32) (sym n.workers);
  }
