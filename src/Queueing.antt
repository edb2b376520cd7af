-- ===== src/Queueing.antt =====
-- include/bm/bm_sim/queueing.h: the three queueing blocks between the ingress and the egress threads.
-- A lock makes each call one step. A call that blocks on a condition variable answers that it waits,
-- and is made again after another call; the notifications are left out.
pub mod Logic
pub mod Heap
pub mod RateLimited
