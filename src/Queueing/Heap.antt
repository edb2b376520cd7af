-- ===== src/Queueing/Heap.antt =====
-- include/bm/bm_sim/queueing.h, QE and QEComp of QueueingLogicRL and of QueueingLogicPriRL: elements that
-- wait until a time in a std::priority_queue, the list of its elements with the top first. Of two
-- elements that compare equal, which the library leaves open, the one that came first goes first.
pub mod Order
use prog_tm_bmv.Base.{ℕ, Bool, ◌==◌, ltb, if◌then◌else◌, List, [], ◌∷◌}

-- `QE`
pub record Qe {ℓ} (T : Type ℓ) : Type ℓ where
  pub e : T
  pub queue_id : ℕ
  pub send : ℕ
  pub id : ℕ

module _ {ℓ} {T : Type ℓ} where
  -- `QEComp`: the left element comes after the right one.
  unfoldable pub comes_after : Qe T → Qe T → Bool
  comes_after lhs rhs = if lhs.send == rhs.send then ltb rhs.id lhs.id else ltb rhs.send lhs.send

  -- `emplace` of the priority queue
  unfoldable pub emplace : List (Qe T) → Qe T → List (Qe T)
  emplace [] x = x ∷ []
  emplace (y ∷ ys) x = let rest = emplace ys x in if comes_after y x then x ∷ y ∷ ys else y ∷ rest
