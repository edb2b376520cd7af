-- ===== src/Queueing/Logic/Step.antt =====
-- What an operation of QueueingLogic that writes one queue's information and one deque must do to keep
-- the invariant.
use prog_tm_bmv.Base.{
  ℕ, ◌%◌, ◌^◌, ◌<◌, ◌≡◌, ◌≢◌, ap, sym, ◌∙◌, arith, ◌==◌, ==_refl, if◌then◌else◌, List, some,
  Bool-cases, false, inl, inr, value_for,
}
use prog_tm_bmv.Queueing.Logic.{Qe, QueueInfo, QueueingLogic, size}
use prog_tm_bmv.Queueing.Logic.Inv.{total, in_queue, deque_of, capacity_of, IsValid}

module _ {ℓ} {T : Type ℓ} where
  -- The information of one queue is written.
  abbrev pub Writes : QueueingLogic T → ℕ → QueueInfo → QueueingLogic T → Type 0
  Writes s q q_info s' =
      (i : ℕ)
      → value_for i s'.queues_info ≡ (if i == q then some q_info else value_for i s.queues_info)

module _ {ℓ} {T : Type ℓ} (s : QueueingLogic T) (q : ℕ) (q_info : QueueInfo) (s' : QueueingLogic T)
    (w : Writes s q q_info s') where
  pub size-Writes : (i : ℕ) → size s' i ≡ (if i == q then q_info.size else size s i)
  unfolding size
  size-Writes i = ground (arith, w i)

  pub capacity_of-Writes :
      s'.capacity ≡ s.capacity
      → (i : ℕ) → capacity_of s' i ≡ (if i == q then q_info.capacity else capacity_of s i)
  capacity_of-Writes c i = ground (arith, w i)

  pub Writes-IsValid :
      (m : ℕ → ℕ) (d : List (Qe T))
      → IsValid m s
      → ((i : ℕ) → deque_of s' i ≡ (if i == m q then d else deque_of s i))
      → q_info.size ≡ in_queue q d
      → ((i : ℕ) → i ≢ q → in_queue i d ≡ in_queue i (deque_of s (m q)))
      → q_info.size < 2 ^ 64
      → q_info.capacity < 2 ^ 64
      → s'.capacity ≡ s.capacity
      → s'.element_count ≡ total s'.workers_info % 2 ^ 32
      → IsValid m s'
  Writes-IsValid m d v deques here others fit fit_capacity same all = record {
    counted = λ i. elim (Bool-cases (i == q)) [
      | inl e ↦
          let this : i ≡ q = ground arith in
          size-Writes i
          ∙ rw (this, ==_refl q) (here ∙ ap (in_queue q) (sym (deques (m q) ∙ rw (==_refl (m q)))))
      | inr e ↦ size-Writes i ∙ rw e (v.counted i ∙ sym (other i (m i) (ground arith)))
    ];
    placed = λ i j f. elim (Bool-cases (i == q)) [
      | inl e ↦
          let this : i ≡ q = ground arith in
          let off : (j == m q) ≡ false = ground (arith, f) in
          ap (in_queue i) (deques j ∙ rw off) ∙ v.placed i j f
      | inr e ↦ other i j (ground arith) ∙ v.placed i j f
    ];
    fits = λ i. ground (arith, size-Writes i, v.fits i);
    capacities = λ i. ground (arith, capacity_of-Writes same i, v.capacities i);
    all_counted = all;
  }
    where
      other : (i j : ℕ) → i ≢ q → in_queue i (deque_of s' j) ≡ in_queue i (deque_of s j)
      other i j f = ap (in_queue i) (deques j) ∙ (elim (Bool-cases (j == m q)) [
        | inl e ↦ let this : j ≡ m q = ground arith in rw (this, ==_refl (m q)) (others i f)
        | inr e ↦ rw e
      ])

module _ {ℓ} {T : Type ℓ} (s : QueueingLogic T) (q : ℕ) (q_info : QueueInfo)
    (found : value_for q s.queues_info ≡ some q_info) where
  pub size-some : size s q ≡ q_info.size
  unfolding size
  size-some = rw (found, size)

  pub capacity_of-some : capacity_of s q ≡ q_info.capacity
  capacity_of-some = rw (found, capacity_of)
