-- ===== src/Status/Cycles.antt =====
-- The statistics after a run of cycles.
use heimasdk_snapshot_migrat.Prelude.{
  ℕ, ◌+◌, ◌%◌, ◌^◌, ◌≤◌, ◌≡◌, refl, Bool, ◌&&◌, List, [], ◌∷◌, arith, length, ltb, if◌then◌else◌,
}
use heimasdk_snapshot_migrat.Status.{BackendStatus, record_cycle}

pub record Cycle : Type 0 where
  pub cycle_ns : ℕ
  pub period_ns : ℕ
  pub wakeup_latency_ns : ℕ

pub record_cycles : List Cycle → BackendStatus → BackendStatus
record_cycles [] s = s
record_cycles (c ∷ cs) s =
    record_cycles cs (record_cycle c.cycle_ns c.period_ns c.wakeup_latency_ns s)

abbrev one_if : Bool → ℕ
one_if b = if b then 1 else 0

-- The cycles that ran longer than their period, and those that woke up late.
pub misses : List Cycle → ℕ
misses [] = 0
misses (c ∷ cs) = one_if (ltb 0 c.period_ns && ltb c.period_ns c.cycle_ns) + misses cs

pub late : List Cycle → ℕ
late [] = 0
late (c ∷ cs) = one_if (ltb 0 c.wakeup_latency_ns) + late cs

-- Every cycle's length is at most `bound`.
abbrev AllWithin : ℕ → List Cycle → Type 0
AllWithin bound [] = Unit
AllWithin bound (c ∷ cs) = (c.cycle_ns ≤ bound) × AllWithin bound cs

-- From `old`, a run of cycles leads to `new`.
pub record Counted (cs : List Cycle) (old new : BackendStatus) : Type 0 where
  pub cycles : new.cycle_count % 2 ^ 64 ≡ (old.cycle_count + length cs) % 2 ^ 64
  pub missed : new.deadline_miss_count % 2 ^ 64 ≡ (old.deadline_miss_count + misses cs) % 2 ^ 64
  pub woken_late : new.late_wakeup_count % 2 ^ 64 ≡ (old.late_wakeup_count + late cs) % 2 ^ 64
  pub grows : old.max_cycle_ns ≤ new.max_cycle_ns
  pub longest : AllWithin new.max_cycle_ns cs

-- The step of one cycle.
record_cycle_lem :
    (c : Cycle) (s : BackendStatus) (r : BackendStatus)
    → r ≡ record_cycle c.cycle_ns c.period_ns c.wakeup_latency_ns s
    → (r.cycle_count % 2 ^ 64 ≡ (s.cycle_count + 1) % 2 ^ 64)
      × (r.deadline_miss_count % 2 ^ 64
          ≡ (s.deadline_miss_count + one_if (ltb 0 c.period_ns && ltb c.period_ns c.cycle_ns))
            % 2 ^ 64)
      × (r.late_wakeup_count % 2 ^ 64
          ≡ (s.late_wakeup_count + one_if (ltb 0 c.wakeup_latency_ns)) % 2 ^ 64)
      × (s.max_cycle_ns ≤ r.max_cycle_ns)
      × (c.cycle_ns ≤ r.max_cycle_ns)
unfolding record_cycle
record_cycle_lem c s r e =
    rw e (ground arith, ground arith, ground arith, ground arith, ground arith)

-- After any run of cycles the counters have grown, modulo 2^64, by the number of cycles, of missed
-- deadlines and of late wakeups, and the longest cycle is at least every cycle of the run.
pub record_cycles-Counted :
    (cs : List Cycle) (s : BackendStatus) → Counted cs s (record_cycles cs s)
unfolding record_cycles misses late
record_cycles-Counted [] s = record {
  cycles = ground arith;
  missed = ground arith;
  woken_late = ground arith;
  grows = ground arith;
  longest = tt;
}
record_cycles-Counted (c ∷ cs) s =
    let next = record_cycle c.cycle_ns c.period_ns c.wakeup_latency_ns s in
    let h = record_cycles-Counted cs next in
    let (n, m, l, g, k) = record_cycle_lem c s next refl in
    record {
      cycles = omega (arith, h.cycles, n);
      missed = omega (arith, h.missed, m);
      woken_late = omega (arith, h.woken_late, l);
      grows = omega (arith, h.grows, g);
      longest = (omega (arith, h.grows, k), h.longest);
    }
