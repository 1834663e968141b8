-- ===== src/BenchWorkflow/Settings.antt =====
-- `parseRealtimeSettings`.
use heimasdk_snapshot_migrat.Prelude.{
  ℕ, ◌≡◌, inl, inr, ◌≤◌, Bool, true, ◌&&◌, List, Option, none, some, arith,
}
use heimasdk_snapshot_migrat.Prelude.Int.{ℤ, pos, negsuc, leb_ℤ, ◌≤ℤ◌}
use heimasdk_snapshot_migrat.BenchWorkflow.Numbers.{
  parse_non_negative_int, parse_non_negative_int_range, largest,
}

pub record RealtimeThreadSettings : Type 0 where
  pub priority : ℤ
  pub cpu : ℤ
  pub valid : Bool

abbrev cpu_valid : Option (List ℕ) → ℤ → Bool
cpu_valid none cpu = leb_ℤ (negsuc 0) cpu
cpu_valid (some text) cpu = leb_ℤ (pos 0) cpu

pub parse_realtime_settings : Option (List ℕ) → Option (List ℕ) → ℤ → ℤ → RealtimeThreadSettings
parse_realtime_settings priority_text cpu_text default_priority default_cpu =
    let priority = parse_non_negative_int priority_text default_priority in
    let cpu = parse_non_negative_int cpu_text default_cpu in
    record {
      priority = priority;
      cpu = cpu;
      valid = leb_ℤ (pos 0) priority && cpu_valid cpu_text cpu;
    }

-- Valid settings have a priority of at least 0 and a processor of at least -1, which stands for none;
-- a processor that was given as a text is a number from 0 to 100000000.
pub parse_realtime_settings_valid :
    (priority_text cpu_text : Option (List ℕ)) (default_priority default_cpu : ℤ)
    → (parse_realtime_settings priority_text cpu_text default_priority default_cpu).valid ≡ true
    → (pos 0
        ≤ℤ (parse_realtime_settings priority_text cpu_text default_priority default_cpu).priority)
      × (negsuc 0
          ≤ℤ (parse_realtime_settings priority_text cpu_text default_priority default_cpu).cpu)
      × ((text : List ℕ)
          → cpu_text ≡ some text
          → (n : ℕ) × (n ≤ largest)
            × ((parse_realtime_settings priority_text cpu_text default_priority default_cpu).cpu
                ≡ pos n))
unfolding parse_realtime_settings
parse_realtime_settings_valid priority_text none default_priority default_cpu h =
    (ground arith, ground arith, λ text e. cc)
parse_realtime_settings_valid priority_text (some given) default_priority default_cpu h = (
  ground arith,
  ground arith,
  λ text e. elim (parse_non_negative_int_range given default_cpu) [
    | inl r ↦ absurd (ground arith)
    | inr r ↦ r
  ],
)
