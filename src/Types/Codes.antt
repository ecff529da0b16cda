-- ===== src/Types/Codes.antt =====
-- The integer codes in which statuses, priorities and modes are stored.
use usenet_dl.Base.{◌≡◌, refl, ltb, arith}
use usenet_dl.Base.Int.{ltb_ℤ}
use usenet_dl.Types.{
  Status, queued, status_from_i32, status_to_i32, Priority, low, priority_from_i32, priority_to_i32,
  rank, PostProcess, post_process_from_i32, post_process_to_i32,
}

pub status_from_i32-to_i32 : (s : Status) → status_from_i32 (status_to_i32 s) ≡ s
unfolding status_from_i32 status_to_i32
status_from_i32-to_i32 queued = refl
status_from_i32-to_i32 _ = refl

pub priority_from_i32-to_i32 : (p : Priority) → priority_from_i32 (priority_to_i32 p) ≡ p
unfolding priority_from_i32 priority_to_i32
priority_from_i32-to_i32 low = refl
priority_from_i32-to_i32 _ = refl

post_process_from_i32-to_i32 : (p : PostProcess) → post_process_from_i32 (post_process_to_i32 p) ≡ p
unfolding post_process_from_i32 post_process_to_i32
post_process_from_i32-to_i32 PostProcess.none = refl
post_process_from_i32-to_i32 _ = refl

-- The stored code of each status, priority and post-processing mode is read back as the same value,
-- and the codes order the priorities as `Ord` does, which the database's `ORDER BY priority` uses.
pub codes_round_trip :
    (s : Status) (p q : Priority) (m : PostProcess)
    → (status_from_i32 (status_to_i32 s) ≡ s)
      × (priority_from_i32 (priority_to_i32 p) ≡ p)
      × (post_process_from_i32 (post_process_to_i32 m) ≡ m)
      × (ltb_ℤ (priority_to_i32 p) (priority_to_i32 q) ≡ ltb (rank p) (rank q))
unfolding priority_to_i32
codes_round_trip s p q m = (
  status_from_i32-to_i32 s,
  priority_from_i32-to_i32 p,
  post_process_from_i32-to_i32 m,
  ground arith,
)
