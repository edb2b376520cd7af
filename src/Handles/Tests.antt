-- ===== src/Handles/Tests.antt =====
-- The theorems on include/bm/bm_sim/handle_mgr.h at a manager that has given out one handle.
use prog_tm_bmv.Base.{◌≡◌, arith, [], ◌∷◌}
use prog_tm_bmv.Handles.{HandleMgr, begin, fresh, get_handle, release_handle, set_handle}
use prog_tm_bmv.Handles.Inv.{live, IsValid, fresh-IsValid, Gives, get_handle-Gives}
use prog_tm_bmv.Handles.Release.{Releases, release_handle-Releases, get, release, run, run-IsValid}
use prog_tm_bmv.Handles.Restore.{Sets, set_handle-Sets}
use prog_tm_bmv.Handles.Walk.{visits, live_list, visits_lem}

abbrev used : HandleMgr
used = (get_handle fresh).2

used-IsValid : IsValid used
used-IsValid = (get_handle-Gives fresh fresh-IsValid (omega arith)).valid

get_handle-Gives_example : Gives fresh (get_handle fresh)
get_handle-Gives_example = get_handle-Gives fresh fresh-IsValid (omega arith)

release_handle-Releases_example : Releases used 0 (release_handle used 0)
release_handle-Releases_example = release_handle-Releases used used-IsValid 0

run-IsValid_example : IsValid (run fresh (get ∷ get ∷ release 0 ∷ get ∷ []))
run-IsValid_example =
    run-IsValid (get ∷ get ∷ release 0 ∷ get ∷ []) fresh fresh-IsValid (omega arith)

set_handle-Sets_example : Sets used 5 (set_handle used 5)
set_handle-Sets_example = set_handle-Sets used used-IsValid.bits 5 (omega arith)

visits_lem_example : visits 9 used (begin used) ≡ live_list (live used) 0 used.handles.num_bits
visits_lem_example =
    visits_lem used used-IsValid 9
      (omega (arith, (get_handle-Gives fresh fresh-IsValid (omega arith)).grows))
