-- ===== src/Ethercat/Backend/Starting/Released.antt =====
-- What a stop and a failing start leave, and the order of what they undo.
use heimasdk_snapshot_migrat.Prelude.{
  List, ℕ, ◌≡◌, refl, inl, inr, Bool, true, false, ◌&&◌, [], Bool-cases, if◌then◌else◌, ltb,
}
use heimasdk_snapshot_migrat.Prelude.Int.{pos, negsuc, leb_ℤ}
use heimasdk_snapshot_migrat.Status.{set_running, set_fault}
use heimasdk_snapshot_migrat.Motor.Limits.{error_code_backend_fault}
use heimasdk_snapshot_migrat.Ethercat.Backend.{EthercatRuntime}
use heimasdk_snapshot_migrat.Ethercat.Backend.States.{Event}
use heimasdk_snapshot_migrat.Ethercat.Backend.States.Order.{
  Phase, idle, running, closed, Runs, done, frees, closes_idle, closes, unlocks_idle, unlocks,
  AllRequests, times, frees_master, closes_device, unlocks_file, no_more,
  range_best_effort-AllRequests,
}
use heimasdk_snapshot_migrat.Ethercat.Backend.Configure.{MasterCalls}
use heimasdk_snapshot_migrat.Ethercat.Backend.Starting.{release, fail_start, range_best_effort}

-- The resources are given back, and no thread runs.
pub record IsReleased {F : Type 0} (rt : EthercatRuntime F) : Type 0 where
  pub no_master : rt.master ≡ false
  pub no_device : rt.master_fd ≡ negsuc 0
  pub no_lock : rt.master_lock ≡ false
  pub no_domains : rt.domains ≡ []
  pub not_running : rt.running ≡ false
  pub not_reported : rt.status.running ≡ false

module _ {F : Type 0} where
  release-Runs : (rt : EthercatRuntime F) → Runs idle (release rt).1 closed
  unfolding release
  release-Runs rt = elim (Bool-cases rt.master) [
    | inl m ↦ elim (Bool-cases (leb_ℤ (pos 0) rt.master_fd)) [
      | inl f ↦ rw (m, f) (frees (closes (unlocks done)))
      | inr f ↦ rw (m, f) (frees (unlocks done))
    ]
    | inr m ↦ elim (Bool-cases (leb_ℤ (pos 0) rt.master_fd)) [
      | inl f ↦ rw (m, f) (closes_idle (unlocks done))
      | inr f ↦ rw (m, f) (unlocks_idle done)
    ]
  ]

  pub fail_start-IsReleased :
      (rt : EthercatRuntime F)
      → rt.running ≡ false
      → IsReleased (fail_start rt).0
        × ((fail_start rt).0.status.degraded ≡ true)
        × ((fail_start rt).0.status.error_code ≡ pos error_code_backend_fault)
        × Runs idle (fail_start rt).1 closed
  unfolding fail_start release
  fail_start-IsReleased rt h = (
    record {
      no_master = refl;
      no_device = refl;
      no_lock = refl;
      no_domains = refl;
      not_running = h;
      not_reported = refl;
    },
    refl,
    refl,
    release-Runs (record rt {
      status = set_fault (pos error_code_backend_fault) (set_running false rt.status);
    }),
  )

-- The trace gives back exactly what the runtime held: the master once if it was requested, the device
-- once if it was open, and the lock once.
pub record GivesBack {F : Type 0} (rt : EthercatRuntime F) (events : List Event) : Type 0 where
  pub master : times frees_master events ≡ (if rt.master then 1 else 0)
  pub device : times closes_device events ≡ (if leb_ℤ (pos 0) rt.master_fd then 1 else 0)
  pub lock : times unlocks_file events ≡ 1

-- Where a thread that can be joined or not is.
abbrev pub phase_of : Bool → Phase
phase_of thread = if thread then running else idle

module _ {F : Type 0} (calls : MasterCalls) where
  pub range_requests :
      (rt : EthercatRuntime F) (state : ℕ) → AllRequests (range_best_effort calls rt state)
  range_requests rt state = elim (Bool-cases (leb_ℤ (pos 0) rt.master_fd && ltb 0 rt.slave_count)) [
    | inl e ↦ rw e (range_best_effort-AllRequests calls.accepts rt.slave_count 0 state)
    | inr e ↦ rw e no_more
  ]
