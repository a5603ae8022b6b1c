-- ===== src/Cluster/Slot.antt =====
-- Slots of keys: internal/cluster/slot.go.
pub mod Tags
use gedis.Base.{
  ℕ, zero, suc, ◌+◌, ◌-◌, ◌*◌, ◌/◌, ◌%◌, ◌^◌, Bool, true, false, not, ◌&&◌, ◌||◌, Option, none,
  some, List, [], ◌∷◌, ◌++◌, if◌then◌else◌, ◌==◌, leb, ltb, Bytes, bytes_eq, take, drop, Result, ok,
  err, panic, out_of_fuel, ◌>>=◌,
}
use Prim.Native.Nat.{bit_xor}
use gedis.Base.Int.{ℤ, pos, negsuc, ltb_ℤ}
use gedis.Base.Text.Decimal.{parse_int}
use gedis.Base.Text.Trim.{trim_space}

-- `NumSlots`.
abbrev pub num_slots : ℕ
num_slots = 16384

-- One bit of the inner loop of `crc16`, on a uint16.
unfoldable pub crc16_bit : ℕ → ℕ
crc16_bit crc = if leb 0x8000 crc then bit_xor (crc * 2 % 2 ^ 16) 0x1021 else crc * 2 % 2 ^ 16

unfoldable pub crc16_bits : ℕ → ℕ → ℕ
crc16_bits zero crc = crc
crc16_bits (suc k) crc = crc16_bits k (crc16_bit crc)

unfoldable pub crc16_from : ℕ → Bytes → ℕ
crc16_from crc [] = crc
crc16_from crc (c ∷ s) = crc16_from (crc16_bits 8 (bit_xor crc (c * 2 ^ 8 % 2 ^ 16))) s

unfoldable pub crc16 : Bytes → ℕ
crc16 s = crc16_from 0 s

unfoldable pub index_byte : Bytes → ℕ → Option ℕ
index_byte [] c = none
index_byte (x ∷ s) c =
    let rest = index_byte s c in
    if x == c then some 0 else elim rest [ none ↦ none | some i ↦ some (suc i) ]

-- The part of the key in braces, given what follows the first "{".
unfoldable pub tag_in : Bytes → Bytes → Bytes
tag_in key after = elim (index_byte after b'}') [
  | none ↦ key
  | some j ↦ if j == 0 then key else take j after
]

unfoldable pub tag : Bytes → Bytes
tag key = elim (index_byte key b'{') [ none ↦ key | some i ↦ tag_in key (drop (suc i) key) ]

-- `& (NumSlots - 1)` keeps the low 14 bits.
unfoldable pub slot : Bytes → ℕ
slot key = crc16 (tag key) % num_slots

-- The errors of `ParseSlotRanges`, with the text that is refused.
pub data RangeError : Type 0 where
  empty_slot_spec : RangeError
  invalid_slot_range : Bytes → RangeError
  slot_range_out : Bytes → RangeError
  invalid_slot : Bytes → RangeError

-- A closed range of slots.
abbrev pub Range : Type 0
Range = ℤ × ℤ

unfoldable pub check_range : Bytes → Option ℤ → Option ℤ → Result RangeError Range
check_range s none hi = err (invalid_slot_range s)
check_range s (some lo) none = err (invalid_slot_range s)
check_range s (some lo) (some hi) =
    if ltb_ℤ lo (pos 0) || (not (ltb_ℤ hi (pos num_slots)) || ltb_ℤ hi lo)
    then err (slot_range_out s)
    else ok (lo, hi)

unfoldable pub check_slot : Bytes → Option ℤ → Result RangeError Range
check_slot s none = err (invalid_slot s)
check_slot s (some n) =
    if ltb_ℤ n (pos 0) || not (ltb_ℤ n (pos num_slots)) then err (invalid_slot s) else ok (n, n)

-- One element of the list, with its white space trimmed.
unfoldable pub parse_slot_range : Bytes → Result RangeError Range
parse_slot_range s = if bytes_eq s [] then err empty_slot_spec else elim (index_byte s b'-') [
  | some i ↦
      check_range s (parse_int (trim_space (take i s))) (parse_int (trim_space (drop (suc i) s)))
  | none ↦ check_slot s (parse_int s)
]

unfoldable pub parse_slot_ranges : List Bytes → Result RangeError (List Range)
parse_slot_ranges [] = ok []
parse_slot_ranges (s ∷ specs) = do
  r ← parse_slot_range (trim_space s)
  rs ← parse_slot_ranges specs
  ok (r ∷ rs)
