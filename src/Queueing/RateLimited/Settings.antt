-- ===== src/Queueing/RateLimited/Settings.antt =====
-- `get_queue` of QueueingLogicRL, and the calls that set capacities and rates: no time of sending gets
-- smaller, and no priority queue changes.
use prog_tm_bmv.Base.{
  ℕ, ◌≤◌, ◌≡◌, refl, ap, subst, sym, ◌∙◌, arith, ◌==◌, ==_refl, if◌then◌else◌, none, some,
  Option-cases, Bool-cases, inl, inr, value_for, is_some, insert_new, assign, update_all,
  value_for-assign, value_for-insert_new, value_for-update_all,
}
use prog_tm_bmv.Queueing.RateLimited.{
  QueueInfo, QueueingLogicRl, rate_to_ticks, with_rate, get_queue, set_capacity,
  set_capacity_for_all, set_rate, set_rate_for_all,
}
use prog_tm_bmv.Queueing.RateLimited.Inv.{IsValid, Later, Later-IsValid}

module _ {ℓ} {T : Type ℓ} where
  pub Later-refl : (s : QueueingLogicRl T) → Later s s
  Later-refl s q q_info e = (q_info, e, omega arith)

  -- A write to one queue that lets its time only grow.
  pub Later-assign :
      (s s' : QueueingLogicRl T) (q : ℕ) (q_info r : QueueInfo)
      → value_for q s.queues_info ≡ some q_info
      → s'.queues_info ≡ assign q r s.queues_info
      → q_info.last_sent ≤ r.last_sent
      → Later s s'
  Later-assign s s' q q_info r found e l i i_info f = elim (Bool-cases (i == q)) [
    | inl y ↦
        let this : i ≡ q = ground arith in
        let same : some i_info ≡ some q_info =
          sym f ∙ ap (λ j. value_for j s.queues_info) this ∙ found in
        (r, at i ∙ rw y, ground arith)
    | inr y ↦ (i_info, at i ∙ rw y f, omega arith)
  ]
    where
      at :
          (j : ℕ)
          → value_for j s'.queues_info ≡ (if j == q then some r else value_for j s.queues_info)
      at j = ap (value_for j) e ∙ value_for-assign q r j s.queues_info (ap is_some found)

  -- What `get_queue` returns.
  pub record Entered (s : QueueingLogicRl T) (q : ℕ) (r : QueueInfo × QueueingLogicRl T)
      : Type ℓ where
    pub found : value_for q r.1.queues_info ≡ some r.0
    pub later : Later s r.1
    pub workers : r.1.workers_info ≡ s.workers_info

  pub get_queue-Entered :
      (ticks_of : ℕ → ℕ) (s : QueueingLogicRl T) (q now : ℕ)
      → Entered s q (get_queue ticks_of s q now)
  unfolding get_queue
  get_queue-Entered ticks_of s q now = elim (Option-cases (value_for q s.queues_info)) [
    | inr (q_info, e) ↦
        subst (Entered s q) (sym (known q_info e))
          (record { found = e; later = Later-refl s; workers = refl })
    | inl e ↦ subst (Entered s q) (sym (unknown e)) (record {
      found = new e q ∙ rw (==_refl q);
      later = λ i i_info f. (i_info, new e i ∙ other e i i_info f, omega arith);
      workers = refl;
    })
  ]
    where
      fresh_queue : QueueInfo
      fresh_queue = record {
        size = 0;
        capacity = s.capacity;
        queue_rate_pps = s.queue_rate_pps;
        pkt_delay_ticks = rate_to_ticks ticks_of s.queue_rate_pps;
        last_sent = now;
      }

      entered : QueueingLogicRl T
      entered = record s { queues_info = insert_new q fresh_queue s.queues_info }

      known :
          (q_info : QueueInfo)
          → value_for q s.queues_info ≡ some q_info
          → get_queue ticks_of s q now ≡ (q_info, s)
      known q_info e = rw (e, get_queue)

      unknown :
          value_for q s.queues_info ≡ none → get_queue ticks_of s q now ≡ (fresh_queue, entered)
      unknown e = rw (e, get_queue)

      new :
          value_for q s.queues_info ≡ none
          → (i : ℕ)
          → value_for i (insert_new q fresh_queue s.queues_info)
            ≡ (if i == q then some fresh_queue else value_for i s.queues_info)
      new e i = value_for-insert_new q fresh_queue i s.queues_info (ap is_some e)

      other :
          value_for q s.queues_info ≡ none
          → (i : ℕ) (i_info : QueueInfo) → value_for i s.queues_info ≡ some i_info
          → (if i == q then some fresh_queue else value_for i s.queues_info) ≡ some i_info
      other e i i_info f = elim (Bool-cases (i == q)) [
        | inl y ↦
            let this : i ≡ q = ground arith in
            absurd (cc (ap (λ j. value_for j s.queues_info) this, e, f))
        | inr y ↦ rw y f
      ]

  -- The state is valid still, and no priority queue has changed.
  pub record Keeps (s s' : QueueingLogicRl T) : Type ℓ where
    pub valid : IsValid s'
    pub workers : s'.workers_info ≡ s.workers_info

  pub set_capacity-Keeps :
      (ticks_of : ℕ → ℕ) (s : QueueingLogicRl T)
      → IsValid s
      → (q c now : ℕ) → Keeps s (set_capacity ticks_of s q c now)
  unfolding set_capacity
  set_capacity-Keeps ticks_of s v q c now =
      let r = get_queue ticks_of s q now in
      let n = get_queue-Entered ticks_of s q now in
      record {
        valid =
            Later-IsValid r.1 _ (Later-IsValid s r.1 v n.later n.workers)
              (Later-assign r.1 (set_capacity ticks_of s q c now) q r.0
                (record r.0 { capacity = c }) n.found refl (omega arith))
              refl;
        workers = n.workers;
      }

  pub set_rate-Keeps :
      (ticks_of : ℕ → ℕ) (s : QueueingLogicRl T)
      → IsValid s
      → (q pps now : ℕ) → Keeps s (set_rate ticks_of s q pps now)
  unfolding set_rate with_rate
  set_rate-Keeps ticks_of s v q pps now =
      let r = get_queue ticks_of s q now in
      let n = get_queue-Entered ticks_of s q now in
      record {
        valid =
            Later-IsValid r.1 _ (Later-IsValid s r.1 v n.later n.workers)
              (Later-assign r.1 (set_rate ticks_of s q pps now) q r.0 (with_rate ticks_of pps r.0)
                n.found refl (omega arith))
              refl;
        workers = n.workers;
      }

  Later-update_all :
      (f : QueueInfo → QueueInfo) (s s' : QueueingLogicRl T)
      → ((q_info : QueueInfo) → (f q_info).last_sent ≡ q_info.last_sent)
      → s'.queues_info ≡ update_all f s.queues_info
      → Later s s'
  Later-update_all f s s' same e i i_info g = (
    f i_info,
    ap (value_for i) e ∙ value_for-update_all f i s.queues_info ∙ rw g,
    omega (arith, same i_info),
  )

  pub set_capacity_for_all-Keeps :
      (s : QueueingLogicRl T) → IsValid s → (c : ℕ) → Keeps s (set_capacity_for_all s c)
  unfolding set_capacity_for_all
  set_capacity_for_all-Keeps s v c = record {
    valid =
        Later-IsValid s _ v
          (Later-update_all (λ q_info. record q_info { capacity = c }) s (set_capacity_for_all s c)
            (λ q_info. refl) refl)
          refl;
    workers = refl;
  }

  pub set_rate_for_all-Keeps :
      (ticks_of : ℕ → ℕ) (s : QueueingLogicRl T)
      → IsValid s
      → (pps : ℕ) → Keeps s (set_rate_for_all ticks_of s pps)
  unfolding set_rate_for_all with_rate
  set_rate_for_all-Keeps ticks_of s v pps = record {
    valid =
        Later-IsValid s _ v
          (Later-update_all (with_rate ticks_of pps) s (set_rate_for_all ticks_of s pps)
            (λ q_info. refl) refl)
          refl;
    workers = refl;
  }
