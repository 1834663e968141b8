-- ===== src/BenchWorkflow/Tests.antt =====
-- Numbers and settings of a command line.
use heimasdk_snapshot_migrat.Prelude.{◌≡◌, refl, some, codes, arith}
use heimasdk_snapshot_migrat.Prelude.Int.{pos, negsuc}
use heimasdk_snapshot_migrat.BenchWorkflow.Numbers.{
  read_digits, read_number, skip_spaces, strtol, decimal, parse_non_negative_int,
  parse_non_negative_int-decimal,
}

parse_non_negative_int-decimal_example :
    parse_non_negative_int (some (decimal 4097 4096)) (pos 7) ≡ pos 4096
parse_non_negative_int-decimal_example = parse_non_negative_int-decimal 4096 (pos 7) (omega arith)

-- White space and a sign at the front are read over; anything after the number is refused.
reads_signed : parse_non_negative_int (some (codes "  +80")) (pos 7) ≡ pos 80
unfolding parse_non_negative_int strtol skip_spaces read_number read_digits
reads_signed = refl

refuses_unit : parse_non_negative_int (some (codes "80ms")) (pos 7) ≡ negsuc 0
unfolding parse_non_negative_int strtol skip_spaces read_number read_digits
refuses_unit = refl
