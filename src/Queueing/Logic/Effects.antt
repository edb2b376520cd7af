-- ===== src/Queueing/Logic/Effects.antt =====
-- What the calls of QueueingLogic do to the deque of a worker, on every branch: a push that succeeds
-- puts its element at the front, a pop takes the back, and nothing else changes a deque.
use prog_tm_bmv.Base.{
  ℕ, ◌^◌, ◌<◌, ◌≡◌, ◌≢◌, refl, ap, subst, sym, ◌∙◌, arith, true, false, ◌==◌, leb, if◌then◌else◌,
  List, [], ◌∷◌, ◌++◌, length, get_or, get_elem?, set, none, some, Option-cases, Bool-cases, inl,
  inr, value_for, is_some, update_all, value_for-assign, value_for-update_all, get_elem?-some,
  get_elem?-none, get_or_above, get_or-set,
}
use mathlib.Core.List.{append-nil}
use mathlib.Core.Option
use prog_tm_bmv.Queueing.Logic.{
  Qe, QueueInfo, QueueingLogic, Pushed, pushed, full, bad_worker, Popped, popped, waits,
  out_of_range, split_back, get_queue, emplace_front, push_front, discount, pop_back, size,
  set_capacity, set_capacity_for_all,
}
use prog_tm_bmv.Queueing.Logic.Inv.{
  split_back-none, split_back-some, in_queue, in_queue-append, deque_of, IsValid,
}
use prog_tm_bmv.Queueing.Logic.Step.{Writes-IsValid, size-some}
use prog_tm_bmv.Queueing.Logic.Enter.{Entered, get_queue-Entered, Entered-IsValid}
use prog_tm_bmv.Queueing.Logic.Ops.{emplace_front-IsValid, found_queue, discount-IsValid}

module _ {ℓ} {T : Type ℓ} where
  -- what a push that answers `code` adds to the deque of worker `w`
  abbrev pub arrival : (ℕ → ℕ) → ℕ → ℕ → T → Pushed → List (Qe T)
  arrival m w q item pushed = if w == m q then record { e = item; queue_id = q } ∷ [] else []
  arrival m w q item full = []
  arrival m w q item bad_worker = []

  -- what a pop by worker `worker_id` takes from the deque of worker `w`
  abbrev pub departure : ℕ → ℕ → Popped T → List (Qe T)
  departure w worker_id (popped q item) =
      if w == worker_id then record { e = item; queue_id = q } ∷ [] else []
  departure w worker_id waits = []
  departure w worker_id out_of_range = []

  pub record Pushes (m : ℕ → ℕ) (s : QueueingLogic T) (q : ℕ) (item : T)
      (r : Pushed × QueueingLogic T) : Type ℓ where
    pub valid : IsValid m r.1
    pub deques : (w : ℕ) → deque_of r.1 w ≡ arrival m w q item r.0 ++ deque_of s w

  pub record Pops (m : ℕ → ℕ) (s : QueueingLogic T) (worker_id : ℕ) (r : Popped T × QueueingLogic T)
      : Type ℓ where
    pub valid : IsValid m r.1
    pub deques : (w : ℕ) → deque_of s w ≡ deque_of r.1 w ++ departure w worker_id r.0
    pub serves : deque_of s worker_id ≢ [] → (b : Qe T) × (r.0 ≡ popped b.queue_id b.e)

module _ {ℓ} {T : Type ℓ} (m : ℕ → ℕ) (s : QueueingLogic T) (v : IsValid m s) where
  pub push_front-Pushes : (q : ℕ) (item : T) → Pushes m s q item (push_front m s q item)
  unfolding push_front emplace_front
  push_front-Pushes q item = elim (Option-cases (get_elem? s1.workers_info (m q))) [
    | inl e ↦
        subst (Pushes m s q item) (sym (no_worker e)) (record { valid = valid1; deques = same })
    | inr (queue, e) ↦ elim (Bool-cases (leb q_info.capacity q_info.size)) [
      | inl y ↦
          subst (Pushes m s q item) (sym (no_room queue e y))
            (record { valid = valid1; deques = same })
      | inr y ↦ subst (Pushes m s q item) (sym (room queue e y)) (record {
        valid =
            emplace_front-IsValid m s1 valid1 q q_info queue item entered.found e (ground arith);
        deques = front queue e;
      })
    ]
  ]
    where
      q_info : QueueInfo
      q_info = (get_queue s q).0

      s1 : QueueingLogic T
      s1 = (get_queue s q).1

      entered : Entered s q (get_queue s q)
      entered = get_queue-Entered s q

      valid1 : IsValid m s1
      valid1 = Entered-IsValid m s q (get_queue s q) entered v

      same : (w : ℕ) → deque_of s1 w ≡ deque_of s w
      same w = ap (λ ws. get_or ws w []) entered.workers

      no_worker : get_elem? s1.workers_info (m q) ≡ none → push_front m s q item ≡ (bad_worker, s1)
      no_worker e = rw (e, push_front)

      no_room :
          (queue : List (Qe T))
          → get_elem? s1.workers_info (m q) ≡ some queue
          → leb q_info.capacity q_info.size ≡ true
          → push_front m s q item ≡ (full, s1)
      no_room queue e y = rw (e, y, push_front)

      room :
          (queue : List (Qe T))
          → get_elem? s1.workers_info (m q) ≡ some queue
          → leb q_info.capacity q_info.size ≡ false
          → push_front m s q item ≡ (pushed, emplace_front m s1 q q_info queue item)
      room queue e y = rw (e, y, push_front)

      front :
          (queue : List (Qe T))
          → get_elem? s1.workers_info (m q) ≡ some queue
          → (w : ℕ)
          → deque_of (emplace_front m s1 q q_info queue item) w
            ≡ arrival m w q item pushed ++ deque_of s w
      front queue e w =
          let (inside, here) = get_elem?-some s1.workers_info (m q) queue [] e in
          get_or-set s1.workers_info (m q) w (record { e = item; queue_id = q } ∷ queue) [] inside
          ∙ (elim (Bool-cases (w == m q)) [
            | inl y ↦
                let this : w ≡ m q = ground arith in
                rw y (
                  ap (λ d. record { e = item; queue_id = q } ∷ d)
                    (sym here ∙ same (m q) ∙ ap (deque_of s) (sym this)))
            | inr y ↦ rw y (same w)
          ])

  pub pop_back-Pops : (worker_id : ℕ) → Pops m s worker_id (pop_back s worker_id)
  unfolding pop_back discount in_queue
  pop_back-Pops worker_id = elim (Option-cases (get_elem? s.workers_info worker_id)) [
    | inl e ↦ subst (Pops m s worker_id) (sym (no_worker e)) (unchanged e)
    | inr (queue, e) ↦ elim (Option-cases (split_back queue)) [
      | inl n ↦ subst (Pops m s worker_id) (sym (nothing queue e n)) (unchanged2 queue e n)
      | inr (r, n) ↦
          let (inside, here) = get_elem?-some s.workers_info worker_id queue [] e in
          let parts = split_back-some queue r.0 r.1 n in
          let (own, q_info, found) =
            found_queue m s v worker_id r.1.queue_id (left r.0 r.1 (here ∙ parts)) in
          subst (Pops m s worker_id) (sym (taken queue r q_info e n found)) (record {
            valid = discount-IsValid m s v worker_id queue r.0 r.1 q_info e parts own found;
            deques = back r.0 r.1 inside (here ∙ parts);
            serves = λ _. (r.1, refl);
          })
    ]
  ]
    where
      no_worker :
          get_elem? s.workers_info worker_id ≡ none → pop_back s worker_id ≡ (out_of_range, s)
      no_worker e = rw (e, pop_back)

      nothing :
          (queue : List (Qe T))
          → get_elem? s.workers_info worker_id ≡ some queue
          → split_back queue ≡ none
          → pop_back s worker_id ≡ (waits, s)
      nothing queue e n = rw (e, n, pop_back)

      taken :
          (queue : List (Qe T)) (r : List (Qe T) × Qe T) (q_info : QueueInfo)
          → get_elem? s.workers_info worker_id ≡ some queue
          → split_back queue ≡ some r
          → value_for r.1.queue_id s.queues_info ≡ some q_info
          → pop_back s worker_id ≡ (
            popped r.1.queue_id r.1.e,
            discount
                (record s { workers_info = set s.workers_info worker_id r.0 })
                r.1.queue_id
                q_info,
          )
      taken queue r q_info e n f = rw (e, n, f, pop_back)

      unchanged : get_elem? s.workers_info worker_id ≡ none → Pops m s worker_id (out_of_range, s)
      unchanged e = record {
        valid = v;
        deques = λ w. sym (append-nil (deque_of s w));
        serves = λ f. absurd (
            f (
              get_or_above s.workers_info worker_id []
                (get_elem?-none s.workers_info worker_id e)));
      }

      unchanged2 :
          (queue : List (Qe T))
          → get_elem? s.workers_info worker_id ≡ some queue
          → split_back queue ≡ none
          → Pops m s worker_id (waits, s)
      unchanged2 queue e n = record {
        valid = v;
        deques = λ w. sym (append-nil (deque_of s w));
        serves = λ f.
            absurd (
              f ((get_elem?-some s.workers_info worker_id queue [] e).1 ∙ split_back-none queue n));
      }

      left :
          (front : List (Qe T)) (b : Qe T)
          → deque_of s worker_id ≡ front ++ b ∷ []
          → in_queue b.queue_id (deque_of s worker_id) ≢ 0
      left front b e z = absurd (
          omega (
            arith,
            z,
            ap (in_queue b.queue_id) e,
            in_queue-append b.queue_id front (b ∷ []),
            one b,
          ))
        where
          one : (c : Qe T) → in_queue c.queue_id (c ∷ []) ≡ 1
          one c = ground arith

      back :
          (front : List (Qe T)) (b : Qe T)
          → worker_id < length s.workers_info
          → deque_of s worker_id ≡ front ++ b ∷ []
          → (w : ℕ)
          → deque_of s w
            ≡ get_or (set s.workers_info worker_id front) w []
              ++ (if w == worker_id then b ∷ [] else [])
      back front b inside e w = elim (Bool-cases (w == worker_id)) [
        | inl y ↦
            let this : w ≡ worker_id = ground arith in
            rw y (
              ap (deque_of s) this
              ∙ e
              ∙ ap (λ d. d ++ b ∷ [])
                  (sym (get_or-set s.workers_info worker_id w front [] inside ∙ rw y)))
        | inr y ↦
            rw y
              (sym (append-nil _ ∙ (get_or-set s.workers_info worker_id w front [] inside ∙ rw y)))
      ]

  -- `set_capacity` changes no deque, and no size.
  pub set_capacity-IsValid :
      (q c : ℕ)
      → c < 2 ^ 64
      → IsValid m (set_capacity s q c) × ((w : ℕ) → deque_of (set_capacity s q c) w ≡ deque_of s w)
  unfolding set_capacity
  set_capacity-IsValid q c h =
      let r = get_queue s q in
      let n = get_queue-Entered s q in
      let valid = Entered-IsValid m s q r n v in
      (
        Writes-IsValid r.1 q (record r.0 { capacity = c }) _
            (λ i. value_for-assign q _ i r.1.queues_info (ap is_some n.found)) m
            (deque_of r.1 (m q)) valid (one_deque r.1)
            (sym (size-some r.1 q r.0 n.found) ∙ valid.counted q) (λ i f. refl)
            (omega (arith, size-some r.1 q r.0 n.found, valid.fits q)) h refl valid.all_counted,
        λ w. ap (λ ws. get_or ws w []) n.workers,
      )
    where
      one_deque :
          (s0 : QueueingLogic T) (i : ℕ)
          → deque_of s0 i ≡ (if i == m q then deque_of s0 (m q) else deque_of s0 i)
      one_deque s0 i = elim (Bool-cases (i == m q)) [
        | inl y ↦ let this : i ≡ m q = ground arith in rw y (ap (deque_of s0) this)
        | inr y ↦ rw y
      ]

  pub set_capacity_for_all-IsValid : (c : ℕ) → c < 2 ^ 64 → IsValid m (set_capacity_for_all s c)
  unfolding set_capacity_for_all size
  set_capacity_for_all-IsValid c h = record {
    counted = λ q. sizes q ∙ v.counted q;
    placed = v.placed;
    fits = λ q. omega (arith, sizes q, v.fits q);
    capacities = λ q. ground (arith, at q);
    all_counted = v.all_counted;
  }
    where
      with_c : QueueInfo → QueueInfo
      with_c q_info = record q_info { capacity = c }

      at :
          (q : ℕ)
          → value_for q (update_all (λ q_info. record q_info { capacity = c }) s.queues_info)
            ≡ Option.map with_c (value_for q s.queues_info)
      at q = value_for-update_all with_c q s.queues_info

      sizes : (q : ℕ) → size (set_capacity_for_all s c) q ≡ size s q
      sizes q = ground (arith, at q)
