-- ===== src/Queueing/Logic/Run.antt =====
-- Histories of calls of QueueingLogic: the invariant, the order of the elements, and the bounds.
use prog_tm_bmv.Base.{
  ℕ, zero, suc, ◌^◌, ◌<◌, ◌≡◌, refl, ap, sym, ◌∙◌, arith, ◌==◌, ==_refl, List, [], ◌∷◌, ◌++◌,
  reverse, length, replicate, get_or-replicate, length-append, Bool-cases, inl, inr,
}
use mathlib.Core.List.{append-nil, append_assoc, reverse-append}
use prog_tm_bmv.Queueing.Logic.{
  Qe, QueueingLogic, Pushed, pushed, full, bad_worker, Popped, popped, waits, out_of_range, create,
  push_front, pop_back, set_capacity, set_capacity_for_all,
}
use prog_tm_bmv.Queueing.Logic.Inv.{deque_of, IsValid, create-IsValid}
use prog_tm_bmv.Queueing.Logic.Effects.{
  arrival, departure, push_front-Pushes, pop_back-Pops, set_capacity-IsValid,
  set_capacity_for_all-IsValid,
}

pub data Call {ℓ} (T : Type ℓ) : Type ℓ where
  push : ℕ → T → Call T
  pop : ℕ → Call T
  change_capacity : ℕ → ℕ → Call T
  change_all_capacities : ℕ → Call T

module _ {ℓ} {T : Type ℓ} where
  -- the capacities that are given are 64-bit numbers
  abbrev pub IsTyped : Call T → Type 0
  IsTyped (push q item) = Unit
  IsTyped (pop w) = Unit
  IsTyped (change_capacity q c) = c < 2 ^ 64
  IsTyped (change_all_capacities c) = c < 2 ^ 64

  abbrev pub AllTyped : List (Call T) → Type 0
  AllTyped [] = Unit
  AllTyped (c ∷ calls) = IsTyped c × AllTyped calls

  -- The state after a call, the elements that it has put into the deque of worker `w`, and those that
  -- it has handed out to this worker.
  unfoldable pub make :
      (ℕ → ℕ) → ℕ → QueueingLogic T → Call T → QueueingLogic T × List (Qe T) × List (Qe T)
  make m w s (push q item) =
      let (code, s') = push_front m s q item in (s', arrival m w q item code, [])
  make m w s (pop i) = let (result, s') = pop_back s i in (s', [], departure w i result)
  make m w s (change_capacity q c) = (set_capacity s q c, [], [])
  make m w s (change_all_capacities c) = (set_capacity_for_all s c, [], [])

  -- The same for a list of calls, the first one first, with the elements in the order of the calls.
  unfoldable pub run :
      (ℕ → ℕ) → ℕ → QueueingLogic T → List (Call T) → QueueingLogic T × List (Qe T) × List (Qe T)
  run m w s [] = (s, [], [])
  run m w s (c ∷ calls) =
      let (s1, arrived, left) = make m w s c in
      let (s2, arrived2, left2) = run m w s1 calls in (s2, arrived ++ arrived2, left ++ left2)

pops-AllTyped {ℓ} : (T : Type ℓ) (w n : ℕ) → AllTyped (replicate {A = Call T} n (pop w))
pops-AllTyped T w zero = tt
pops-AllTyped T w (suc n) = (tt, pops-AllTyped T w n)

module _ {ℓ} {T : Type ℓ} (m : ℕ → ℕ) (w : ℕ) where
  -- What has waited and what arrives, oldest first, is what leaves and what still waits.
  record InOrder (s : QueueingLogic T) (r : QueueingLogic T × List (Qe T) × List (Qe T))
      : Type ℓ where
    valid : IsValid m r.0
    order : reverse (deque_of s w) ++ r.1 ≡ r.2 ++ reverse (deque_of r.0 w)

  arrival_one :
      (q : ℕ) (item : T) (code : Pushed)
      → reverse (arrival m w q item code) ≡ arrival m w q item code
  arrival_one q item pushed = elim (Bool-cases (w == m q)) [ inl y ↦ rw y | inr y ↦ rw y ]
  arrival_one q item full = refl
  arrival_one q item bad_worker = refl

  departure_one :
      (i : ℕ) (result : Popped T) → reverse (departure w i result) ≡ departure w i result
  departure_one i (popped q item) = elim (Bool-cases (w == i)) [ inl y ↦ rw y | inr y ↦ rw y ]
  departure_one i waits = refl
  departure_one i out_of_range = refl

  make-InOrder :
      (s : QueueingLogic T) → IsValid m s → (c : Call T) → IsTyped c → InOrder s (make m w s c)
  unfolding make set_capacity_for_all
  make-InOrder s v (push q item) t =
      let p = push_front-Pushes m s v q item in
      record {
        valid = p.valid;
        order =
            ap (λ d. reverse (deque_of s w) ++ d)
              (sym (arrival_one q item (push_front m s q item).0))
            ∙ sym (reverse-append (arrival m w q item (push_front m s q item).0) (deque_of s w))
            ∙ ap reverse (sym (p.deques w));
      }
  make-InOrder s v (pop i) t =
      let p = pop_back-Pops m s v i in
      record {
        valid = p.valid;
        order =
            append-nil _
            ∙ ap reverse (p.deques w)
            ∙ reverse-append (deque_of (pop_back s i).1 w) (departure w i (pop_back s i).0)
            ∙ ap (λ d. d ++ reverse (deque_of (pop_back s i).1 w))
                (departure_one i (pop_back s i).0);
      }
  make-InOrder s v (change_capacity q c) t =
      let (valid, same) = set_capacity-IsValid m s v q c t in
      record { valid = valid; order = append-nil _ ∙ ap reverse (sym (same w)) }
  make-InOrder s v (change_all_capacities c) t = record {
    valid = set_capacity_for_all-IsValid m s v c t;
    order = append-nil _;
  }

  run-InOrder :
      (s : QueueingLogic T)
      → IsValid m s
      → (calls : List (Call T)) → AllTyped calls
      → InOrder s (run m w s calls)
  unfolding run
  run-InOrder s v [] t = record { valid = v; order = append-nil _ }
  run-InOrder s v (c ∷ calls) t =
      let a = make m w s c in
      let first = make-InOrder s v c t.0 in
      let rest = run-InOrder a.0 first.valid calls t.1 in
      let b = run m w a.0 calls in
      record {
        valid = rest.valid;
        order =
            sym (append_assoc (reverse (deque_of s w)) a.1 b.1)
            ∙ ap (λ d. d ++ b.1) first.order
            ∙ append_assoc a.2 (reverse (deque_of a.0 w)) b.1
            ∙ ap (λ d. a.2 ++ d) rest.order
            ∙ sym (append_assoc a.2 b.2 (reverse (deque_of b.0 w)));
      }

  no_deque : (nb_workers capacity : ℕ) → deque_of {T = T} (create nb_workers capacity) w ≡ []
  unfolding create
  no_deque nb_workers capacity = get_or-replicate nb_workers w []

  -- After any calls on a new object, with capacities below 2 ^ 64, each worker has got the
  -- elements that were put into its queues, in the order of the calls, and the others still wait
  -- in that order; the state is valid.
  pub run_in_order :
      (nb_workers capacity : ℕ) (calls : List (Call T))
      → capacity < 2 ^ 64
      → AllTyped calls
      → IsValid m (run m w (create nb_workers capacity) calls).0
        × ((run m w (create nb_workers capacity) calls).1
            ≡ (run m w (create nb_workers capacity) calls).2
              ++ reverse (deque_of (run m w (create nb_workers capacity) calls).0 w))
  run_in_order nb_workers capacity calls h t =
      let i =
        run-InOrder (create nb_workers capacity) (create-IsValid m nb_workers capacity h) calls t in
      (
        i.valid,
        ap (λ d. reverse d ++ (run m w (create nb_workers capacity) calls).1)
              (sym (no_deque nb_workers capacity))
            ∙ i.order,
      )

  no_length : (d : List (Qe T)) → length d ≡ 0 → d ≡ []
  no_length [] e = refl
  no_length (x ∷ d) e = absurd (omega arith)

  shorter :
      (n : ℕ) (s : QueueingLogic T)
      → IsValid m s
      → length (deque_of s w) ≡ suc n
      → length (deque_of (pop_back s w).1 w) ≡ n
  shorter n s v e =
      let p = pop_back-Pops m s v w in
      let (b, r) = p.serves (λ z. absurd (omega (arith, ap length z, e))) in
      let one : length (departure w w (pop_back s w).0) ≡ 1 =
        ap (λ d. length (departure w w d)) r ∙ rw (==_refl w) in
      omega (
        arith,
        one,
        ap length (p.deques w),
        length-append (deque_of (pop_back s w).1 w) (departure w w (pop_back s w).0),
      )

  pops_left :
      (n : ℕ) (s : QueueingLogic T)
      → IsValid m s
      → length (deque_of s w) ≡ n
      → deque_of (run m w s (replicate n (pop w))).0 w ≡ []
  unfolding run make
  pops_left zero s v e = no_length (deque_of s w) e
  pops_left (suc n) s v e =
      pops_left n (pop_back s w).1 (pop_back-Pops m s v w).valid (shorter n s v e)

  pops_arrive : (n : ℕ) (s : QueueingLogic T) → (run m w s (replicate n (pop w))).1 ≡ []
  unfolding run make
  pops_arrive zero s = refl
  pops_arrive (suc n) s = pops_arrive n (pop_back s w).1

  -- In a valid state, a worker that makes as many calls of pop_back as its deque has elements gets
  -- all of them, oldest first, without waiting, and its deque is empty.
  pub drained :
      (s : QueueingLogic T)
      → IsValid m s
      → ((run m w s (replicate (length (deque_of s w)) (pop w))).2 ≡ reverse (deque_of s w))
        × (deque_of (run m w s (replicate (length (deque_of s w)) (pop w))).0 w ≡ [])
  drained s v =
      let n = length (deque_of s w) in
      let i = run-InOrder s v (replicate n (pop w)) (pops-AllTyped T w n) in
      let none_left = pops_left n s v refl in
      (
        sym (append-nil _)
            ∙ ap (λ d. (run m w s (replicate n (pop w))).2 ++ reverse d) (sym none_left)
            ∙ sym i.order
            ∙ ap (λ d. reverse (deque_of s w) ++ d) (pops_arrive n s)
            ∙ append-nil _,
        none_left,
      )
