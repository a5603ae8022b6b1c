-- ===== src/Commands/Counters/Overflow.antt =====
-- The overflow guard of `incrBy`: it refuses exactly the sums that do not fit an int64.
use gedis.Base.{ℕ, suc, ◌-◌, ◌^◌, ◌<◌, ◌≡◌, ◌↔◌, ◌∙◌, false, arith, leb, if◌then◌else◌}
use gedis.Base.Int.{ℤ, pos, negsuc, IsInt64, add64, sub64, ◌+ℤ◌, ◌-ℤ◌, of_bits-to_bits}
use gedis.Commands.Counters.{max_int64, min_int64, would_overflow}

exact_difference : (a b : ℤ) → IsInt64 (a -ℤ b) → sub64 a b ≡ a -ℤ b
unfolding sub64
exact_difference a b h = of_bits-to_bits (a -ℤ b) h

pub exact_sum : (a b : ℤ) → IsInt64 (a +ℤ b) → add64 a b ≡ a +ℤ b
unfolding add64
exact_sum a b h = of_bits-to_bits (a +ℤ b) h

-- Neither bound less a delta of its own sign wraps.
max_less : (d : ℕ) → d < 2 ^ 63 → sub64 max_int64 (pos d) ≡ pos (2 ^ 63 - 1 - d)
unfolding ◌-ℤ◌
max_less d h =
    let difference : max_int64 -ℤ pos d ≡ pos (2 ^ 63 - 1 - d) = ground arith in
    exact_difference max_int64 (pos d) (rw difference (omega arith)) ∙ difference

-- The least sum's place: -(2 ^ 63) + d + 1.
abbrev lowest : ℕ → ℤ
lowest d = if leb (2 ^ 63) (suc d) then pos (suc d - 2 ^ 63) else negsuc (2 ^ 63 - suc d - 1)

min_less : (d : ℕ) → d < 2 ^ 63 → sub64 min_int64 (negsuc d) ≡ lowest d
unfolding ◌-ℤ◌
min_less d h =
    let difference : min_int64 -ℤ negsuc d ≡ lowest d = ground arith in
    let fits : IsInt64 (lowest d) = ground arith in
    exact_difference min_int64 (negsuc d) (rw difference fits) ∙ difference

-- The guard refuses exactly the sums beyond int64.
pub guard :
    (cur delta : ℤ)
    → IsInt64 cur
    → IsInt64 delta
    → (would_overflow cur delta ≡ false) ↔ IsInt64 (cur +ℤ delta)
unfolding would_overflow ◌+ℤ◌
guard (pos n) (pos d) h k = rw (would_overflow, max_less d k.0) (ground arith)
guard (negsuc n) (pos d) h k = rw (would_overflow, max_less d k.0) (ground arith)
guard (pos n) (negsuc d) h k = rw (would_overflow, min_less d k.1) (ground arith)
guard (negsuc n) (negsuc d) h k = rw (would_overflow, min_less d k.1) (ground arith)
