-- ===== src/Examples/Numbers.antt =====
-- Runs of the number parser and of the emitter of integers.
use teptris.Base.{
  true, false, [], ◌++◌, none, some, ltb, if◌then◌else◌, Bytes, codes, ◌≡◌, refl, arith, pos,
  negsuc,
}
use teptris.Common.Chartype.{is_dec, is_hex}
use teptris.Emit.Numbers.RoundTrip.{parse_number-emit_i64}
use teptris.Emit.Numbers.{digits, emit_i64}
use teptris.Parse.Numbers.Decimal.{decimal-horner}
use teptris.Parse.Numbers.Magnitude.{horner, digit_value, mag_from-horner}
use teptris.Parse.Numbers.{
  integer, infinity, mag_from, magnitude_max, decimal, unsigned_number, parse_number,
}
use teptris.Parse.Result.{ok, fail, err_syntax, out_of_range}
use teptris.Parse.Strings.{hexval}

-- Digits of both cases, and the byte in front of `0`, whose value wraps.
hexval_run : (hexval b'f' ≡ 15) × (hexval b'F' ≡ 15) × (hexval b'/' ≡ 4294967295)
unfolding hexval
hexval_run = (refl, refl, refl)

smallest_run : emit_i64 (negsuc 9223372036854775807) ≡ codes "-9223372036854775808"
unfolding emit_i64 digits
smallest_run = refl

underscores_run : parse_number true (codes "-1_000 ") ≡ ok (integer (negsuc 999)) (codes " ")
unfolding parse_number unsigned_number decimal is_dec hexval
underscores_run = refl

radix_run : parse_number false (codes "0xFF]") ≡ ok (integer (pos 255)) (codes "]")
unfolding parse_number unsigned_number is_dec is_hex hexval
radix_run = refl

out_of_range_run :
    parse_number false (codes "9223372036854775808") ≡ fail err_syntax out_of_range []
unfolding parse_number unsigned_number decimal is_dec hexval
out_of_range_run = refl

infinity_run : parse_number true (codes "-inf") ≡ ok (infinity true) []
unfolding parse_number unsigned_number
infinity_run = refl

parse_number-emit_i64_example :
    parse_number true (emit_i64 (negsuc 9223372036854775807) ++ codes ", ")
    ≡ ok (integer (negsuc 9223372036854775807)) (codes ", ")
unfolding is_dec
parse_number-emit_i64_example =
    parse_number-emit_i64 (negsuc 9223372036854775807) (codes ", ") (ground arith) refl

-- One more than the largest.
abbrev too_large : Bytes
too_large = codes "18446744073709551616"

mag_from-horner_example :
    mag_from 10 0 too_large
    ≡ (if ltb magnitude_max (horner 10 0 too_large) then none else some (horner 10 0 too_large))
unfolding digit_value
mag_from-horner_example =
    mag_from-horner 10 0 too_large (ground arith) (ground arith) (ground arith) (
      refl,
      (
        refl,
        (
          refl,
          (
            refl,
            (
              refl,
              (
                refl,
                (
                  refl,
                  (
                    refl,
                    (
                      refl,
                      (
                        refl,
                        (
                          refl,
                          (
                            refl,
                            (refl, (refl, (refl, (refl, (refl, (refl, (refl, (refl, tt)))))))),
                          ),
                        ),
                      ),
                    ),
                  ),
                ),
              ),
            ),
          ),
        ),
      ),
    )

decimal-horner_example :
    decimal true (codes "420" ++ codes "\n") ≡ ok (integer (negsuc 419)) (codes "\n")
unfolding is_dec horner digit_value
decimal-horner_example =
    decimal-horner true (codes "420") (codes "\n") (refl, (refl, (refl, tt))) (ground arith)
      (ground arith) refl (ground arith) refl
