-- ===== src/Half/Tests.antt =====
-- The smallest subnormal, and the one half of the largest.
use heimasdk_snapshot_migrat.Prelude.{◌≡◌, ◌≢◌, ◌≤◌, true, false, refl, arith, bit_and}
use heimasdk_snapshot_migrat.Half.{single_to_half, half_to_single}
use heimasdk_snapshot_migrat.Half.Heima.{heima_half_to_single}
use heimasdk_snapshot_migrat.Half.Roundtrip.{single_to_half-half_to_single}
use heimasdk_snapshot_migrat.Half.Agreement.{is_subnormal, heima_half_to_single-differs}

single_to_half-half_to_single_example : single_to_half (half_to_single 1) ≡ 1
single_to_half-half_to_single_example = single_to_half-half_to_single 1 (omega arith) refl

heima_half_to_single-differs_example :
    (is_subnormal 512 ≡ false → heima_half_to_single 512 ≡ half_to_single 512)
    × (is_subnormal 512 ≡ true
        → 256 ≤ bit_and 512 0x03ff
        → heima_half_to_single 512 ≢ half_to_single 512)
heima_half_to_single-differs_example = heima_half_to_single-differs 512 (omega arith)
