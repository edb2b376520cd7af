-- ===== src/Base/Maps.antt =====
-- `std::unordered_map` with keys in ℕ, as an association list.
use Prim.Native.Nat.{ℕ}
use mathlib.Core.Path.{◌≡◌, refl, ap, sym, ◌∙◌}
use mathlib.Core.Logic.{inl, inr}
use mathlib.Core.Bool.{Bool, true, false}
use mathlib.Core.Option
use mathlib.Core.Option.{Option, none, some}
use mathlib.Core.List.{List, [], ◌∷◌}
use native.Mathlib.Omega.{arith}
use prog_tm_bmv.Base.Tests.{◌==◌, if◌then◌else◌, Bool-cases}

module _ {ℓ} {V : Type ℓ} where
  -- `find`: the value of a key
  unfoldable pub value_for : ℕ → List (ℕ × V) → Option V
  value_for k [] = none
  value_for k ((j, v) ∷ m) = if k == j then some v else value_for k m

  abbrev pub is_some : Option V → Bool
  is_some none = false
  is_some (some v) = true

  abbrev pub has_key : ℕ → List (ℕ × V) → Bool
  has_key k m = is_some (value_for k m)

  -- `insert`, which leaves a key that is there as it is
  unfoldable pub insert_new : ℕ → V → List (ℕ × V) → List (ℕ × V)
  insert_new k v m = if has_key k m then m else (k, v) ∷ m

  -- a write through the reference to the value of a key
  unfoldable pub assign : ℕ → V → List (ℕ × V) → List (ℕ × V)
  assign k v [] = []
  assign k v ((j, w) ∷ m) = let rest = assign k v m in if k == j then (j, v) ∷ m else (j, w) ∷ rest

  -- `erase`
  unfoldable pub erase : ℕ → List (ℕ × V) → List (ℕ × V)
  erase k [] = []
  erase k ((j, w) ∷ m) = let rest = erase k m in if k == j then rest else (j, w) ∷ rest

  -- a loop that writes to every value
  unfoldable pub update_all : (V → V) → List (ℕ × V) → List (ℕ × V)
  update_all f [] = []
  update_all f ((j, w) ∷ m) = (j, f w) ∷ update_all f m

  pub value_for-update_all :
      (f : V → V) (k : ℕ) (m : List (ℕ × V))
      → value_for k (update_all f m) ≡ Option.map f (value_for k m)
  unfolding value_for update_all
  value_for-update_all f k [] = refl
  value_for-update_all f k ((j, w) ∷ m) = elim (Bool-cases (k == j)) [
    | inl same ↦ rw same
    | inr other ↦ rw other (value_for-update_all f k m)
  ]

  pub value_for-erase :
      (k i : ℕ) (m : List (ℕ × V))
      → value_for i (erase k m) ≡ (if i == k then none else value_for i m)
  unfolding value_for erase
  value_for-erase k i [] = ground arith
  value_for-erase k i ((j, w) ∷ m) = ground (arith, value_for-erase k i m)

  pub value_for-insert_new :
      (k : ℕ) (v : V) (i : ℕ) (m : List (ℕ × V))
      → has_key k m ≡ false
      → value_for i (insert_new k v m) ≡ (if i == k then some v else value_for i m)
  unfolding value_for insert_new
  value_for-insert_new k v i m e = rw e

  pub insert_new_kept :
      (k : ℕ) (v : V) (m : List (ℕ × V)) → has_key k m ≡ true → insert_new k v m ≡ m
  unfolding insert_new
  insert_new_kept k v m e = rw e

  pub value_for-assign :
      (k : ℕ) (v : V) (i : ℕ) (m : List (ℕ × V))
      → has_key k m ≡ true
      → value_for i (assign k v m) ≡ (if i == k then some v else value_for i m)
  unfolding value_for assign
  value_for-assign k v i [] e = absurd (ground arith)
  value_for-assign k v i ((j, w) ∷ m) e = elim (Bool-cases (k == j)) [
    | inl same ↦ rw same (ground arith)
    | inr other ↦
        let later : has_key k m ≡ true =
          ap (λ t. is_some (if t then some w else value_for k m)) (sym other) ∙ e in
        rw other (ground (arith, value_for-assign k v i m later))
  ]

  pub has_key-assign :
      (k : ℕ) (v : V) (i : ℕ) (m : List (ℕ × V))
      → has_key k m ≡ true
      → has_key i (assign k v m) ≡ has_key i m
  has_key-assign k v i m e = ap is_some (value_for-assign k v i m e) ∙ (elim (Bool-cases (i == k)) [
    | inl same ↦ let this : i ≡ k = ground arith in rw (same, this) (sym e)
    | inr other ↦ rw other
  ])

  pub value_for-erase_same :
      (k i : ℕ) (m : List (ℕ × V)) → (i == k) ≡ true → value_for i (erase k m) ≡ none
  value_for-erase_same k i m y = value_for-erase k i m ∙ rw y

  pub value_for-erase_other :
      (k i : ℕ) (m : List (ℕ × V)) → (i == k) ≡ false → value_for i (erase k m) ≡ value_for i m
  value_for-erase_other k i m y = value_for-erase k i m ∙ rw y

  pub value_for-assign_same :
      (k : ℕ) (v : V) (i : ℕ) (m : List (ℕ × V))
      → has_key k m ≡ true
      → (i == k) ≡ true
      → value_for i (assign k v m) ≡ some v
  value_for-assign_same k v i m e y = value_for-assign k v i m e ∙ rw y

  pub value_for-assign_other :
      (k : ℕ) (v : V) (i : ℕ) (m : List (ℕ × V))
      → has_key k m ≡ true
      → (i == k) ≡ false
      → value_for i (assign k v m) ≡ value_for i m
  value_for-assign_other k v i m e y = value_for-assign k v i m e ∙ rw y

  pub value_for-insert_new_same :
      (k : ℕ) (v : V) (i : ℕ) (m : List (ℕ × V))
      → has_key k m ≡ false
      → (i == k) ≡ true
      → value_for i (insert_new k v m) ≡ some v
  value_for-insert_new_same k v i m e y = value_for-insert_new k v i m e ∙ rw y

  pub value_for-insert_new_other :
      (k : ℕ) (v : V) (i : ℕ) (m : List (ℕ × V))
      → has_key k m ≡ false
      → (i == k) ≡ false
      → value_for i (insert_new k v m) ≡ value_for i m
  value_for-insert_new_other k v i m e y = value_for-insert_new k v i m e ∙ rw y
