-- ===== src/Handles.antt =====
-- include/bm/bm_sim/handle_mgr.h: HandleMgr hands out the smallest free handle, over a DynamicBitset.
-- The `assert` of `get_handle` is not a branch here; the invariant of Handles/Inv.antt implies it.
pub mod Inv
pub mod Release
pub mod Restore
pub mod Walk
mod Tests
use prog_tm_bmv.Base.{ℕ, ◌+◌, ◌%◌, ◌^◌, Bool, true, false, ltb, leb, ◌==◌, if◌then◌else◌, ◌||◌, not}
use prog_tm_bmv.Bitset
use prog_tm_bmv.Bitset.{DynamicBitset, npos}

-- "Return 0 on success, -1 on failure"
pub data Rc : Type 0 where
  ok failure : Rc

pub record HandleMgr : Type 0 where
  pub handles : DynamicBitset
  pub first_unset : ℕ

abbrev pub fresh : HandleMgr
fresh = record { handles = Bitset.empty; first_unset = 0 }

-- The search result as a place for the next handle: the size where the search found none.
abbrev or_size : ℕ → ℕ → ℕ
or_size found s = if found == npos then s else found

unfoldable pub get_handle : HandleMgr → Rc × ℕ × HandleMgr
get_handle m =
    let pos = m.first_unset in
    let s = Bitset.size m.handles in
    if ltb pos s
    then (let handles' = (Bitset.set_bit m.handles pos).0 in
        (
          ok,
          pos,
          record {
            handles = handles';
            first_unset = or_size (Bitset.find_unset_next handles' pos) s;
          },
        ))
    else (
      ok,
      pos,
      record { handles = Bitset.push_back m.handles true; first_unset = (pos + 1) % 2 ^ 64 },
    )

unfoldable pub release_handle : HandleMgr → ℕ → Rc × HandleMgr
release_handle m pos =
    if leb (Bitset.size m.handles) pos
    then (failure, m)
    else (let (handles', was_set) = Bitset.reset m.handles pos in
        if not was_set then (failure, record m { handles = handles' }) else (
          ok,
          record {
            handles = handles';
            first_unset = if ltb pos m.first_unset then pos else m.first_unset;
          },
        ))

unfoldable pub set_handle : HandleMgr → ℕ → Rc × HandleMgr
set_handle m pos =
    let s = Bitset.size m.handles in
    let grown = if leb s pos then Bitset.resize m.handles ((pos + 1) % 2 ^ 64) else m.handles in
    let (handles', was_clear) = Bitset.set_bit grown pos in
    if not was_clear then (failure, record m { handles = handles' }) else (
      ok,
      record {
        handles = handles';
        first_unset =
            if m.first_unset == pos
            then or_size (Bitset.find_unset_next handles' pos) s
            else m.first_unset;
      },
    )

unfoldable pub size : HandleMgr → ℕ
size m = Bitset.count m.handles

unfoldable pub valid_handle : HandleMgr → ℕ → Bool
valid_handle m pos = if leb (Bitset.size m.handles) pos then false else Bitset.test m.handles pos

unfoldable pub clear : HandleMgr → HandleMgr
clear m = record { handles = Bitset.clear m.handles; first_unset = 0 }

-- Iterators are their index, and `npos` is `-1`, the index of `end()`.
unfoldable pub begin : HandleMgr → ℕ
begin m = let pos = Bitset.find_first m.handles in if pos == npos then npos else pos

-- `operator++`
unfoldable pub next : HandleMgr → ℕ → ℕ
next m index = let pos = Bitset.find_next m.handles index in if pos == npos then npos else pos
