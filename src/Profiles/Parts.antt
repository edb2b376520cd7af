-- ===== src/Profiles/Parts.antt =====
-- The parts of ActionProfile (src/bm_sim/action_profile.cpp, include/bm/bm_sim/action_profile.h,
-- include/bm/bm_sim/ras.h): indices, counts of references, and groups.
use prog_tm_bmv.Base.{
  ℕ, ◌+◌, ◌-◌, ◌/◌, ◌%◌, ◌^◌, ◌==◌, Bool, true, false, if◌then◌else◌, List, [], ◌∷◌, ◌++◌, length,
  get_or, get_elem?, set, Option, none, some,
}
use prog_tm_bmv.Handles.{Rc, ok, failure}

-- What is used of `boost::container::flat_set`.
pub record FlatSet : Type 1 where
  pub Carrier : Type 0
  pub empty : Carrier
  pub insert : ℕ → Carrier → Carrier
  pub erase : ℕ → Carrier → Carrier
  pub has : ℕ → Carrier → Bool
  pub size : Carrier → ℕ
  pub nth : ℕ → Carrier → ℕ
  pub elements : Carrier → List ℕ

-- the error codes that occur here, of `MatchErrorCode`
pub data MatchErrorCode : Type 0 where
  success error bad_action_data invalid_mbr_handle invalid_grp_handle mbr_still_used grp_still_used
        mbr_already_in_grp mbr_not_in_grp :
      MatchErrorCode

-- An operation returns its code, or `at` throws `std::out_of_range`.
pub data Outcome : Type 0 where
  returns : MatchErrorCode → Outcome
  throws : Outcome

-- `IndirectIndex`: a member or a group, in the 8 bits above the index
abbrev pub make_mbr_index : ℕ → ℕ
make_mbr_index index = index

abbrev pub make_grp_index : ℕ → ℕ
make_grp_index index = 2 ^ 24 + index

abbrev pub is_mbr : ℕ → Bool
is_mbr index = index / 2 ^ 24 == 0

abbrev pub get : ℕ → ℕ
get index = index % 2 ^ 24

pub record IndirectIndexRefCount : Type 0 where
  pub mbr_count : List ℕ
  pub grp_count : List ℕ

abbrev write_count : List ℕ → ℕ → ℕ → List ℕ
write_count v i value = if i == length v then v ++ value ∷ [] else set v i value

unfoldable pub set_count : IndirectIndexRefCount → ℕ → ℕ → IndirectIndexRefCount
set_count c index value =
    if is_mbr index
    then record c { mbr_count = write_count c.mbr_count (get index) value }
    else record c { grp_count = write_count c.grp_count (get index) value }

unfoldable pub get_count : IndirectIndexRefCount → ℕ → ℕ
get_count c index =
    if is_mbr index then get_or c.mbr_count (get index) 0 else get_or c.grp_count (get index) 0

-- adds to a 32-bit count, which wraps around
abbrev pub add_at : List ℕ → ℕ → ℕ → List ℕ
add_at v i n = set v i ((get_or v i 0 + n) % 2 ^ 32)

unfoldable pub increase : IndirectIndexRefCount → ℕ → IndirectIndexRefCount
increase c index =
    if is_mbr index
    then record c { mbr_count = add_at c.mbr_count (get index) 1 }
    else record c { grp_count = add_at c.grp_count (get index) 1 }

unfoldable pub decrease : IndirectIndexRefCount → ℕ → IndirectIndexRefCount
decrease c index =
    if is_mbr index
    then record c { mbr_count = add_at c.mbr_count (get index) (2 ^ 32 - 1) }
    else record c { grp_count = add_at c.grp_count (get index) (2 ^ 32 - 1) }

abbrev pub no_counts : IndirectIndexRefCount
no_counts = record { mbr_count = []; grp_count = [] }

abbrev pub is_failure : Rc → Bool
is_failure ok = false
is_failure failure = true

abbrev pub is_success : MatchErrorCode → Bool
is_success success = true
is_success error = false
is_success bad_action_data = false
is_success invalid_mbr_handle = false
is_success invalid_grp_handle = false
is_success mbr_still_used = false
is_success grp_still_used = false
is_success mbr_already_in_grp = false
is_success mbr_not_in_grp = false

-- the loop of `delete_group` over the members
unfoldable pub decrease_each : IndirectIndexRefCount → List ℕ → IndirectIndexRefCount
decrease_each c [] = c
decrease_each c (mbr ∷ mbrs) = decrease_each (decrease c (make_mbr_index mbr)) mbrs

module _ (S : FlatSet) where
  -- RandAccessUIntSet: 1 if the member was added or removed, else 0
  unfoldable pub add : S.Carrier → ℕ → ℕ × S.Carrier
  add members mbr = (if S.has mbr members then 0 else 1, S.insert mbr members)

  unfoldable pub remove : S.Carrier → ℕ → ℕ × S.Carrier
  remove members mbr = (if S.has mbr members then 1 else 0, S.erase mbr members)

  -- GroupInfo
  unfoldable pub add_member_to : S.Carrier → ℕ → MatchErrorCode × S.Carrier
  add_member_to mbrs mbr =
      let (added, mbrs') = add mbrs mbr in
      (if added == 0 then mbr_already_in_grp else success, mbrs')

  unfoldable pub delete_member_from : S.Carrier → ℕ → MatchErrorCode × S.Carrier
  delete_member_from mbrs mbr =
      let (removed, mbrs') = remove mbrs mbr in
      (if removed == 0 then mbr_not_in_grp else success, mbrs')

  -- GroupMgr: nothing where `at` throws, or where the group is empty and the code divides by 0
  unfoldable pub get_from_hash : List S.Carrier → ℕ → ℕ → Option ℕ
  get_from_hash groups grp h = elim (get_elem? groups grp) [
    | none ↦ none
    | some group_info ↦
        if S.size group_info == 0 then none else some (S.nth (h % S.size group_info) group_info)
  ]

  unfoldable pub insert_group : List S.Carrier → ℕ → List S.Carrier
  insert_group groups grp =
      if grp == length groups then groups ++ S.empty ∷ [] else set groups grp S.empty
