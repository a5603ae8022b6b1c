-- ===== src/Base/Text/Fields.antt =====
-- `strings.Fields`, `strings.SplitN(s, sep, 2)` with a separator of one byte, and the lower case of
-- ASCII letters by which `strings.EqualFold` compares ASCII text.
use gedis.Base.Tests.{leb, ◌==◌, if◌then◌else◌}
use gedis.Base.Lists.{Bytes, All}
use Prim.Native.Nat.{ℕ, zero, suc, ◌+◌, ◌-◌}
use mathlib.Core.Path.{◌≡◌}
use mathlib.Core.Bool.{Bool, true, false, ◌&&◌, ◌||◌}
use mathlib.Core.Logic.{◌≢◌}
use mathlib.Core.Option.{Option, none, some}
use mathlib.Core.List.{List, [], ◌∷◌, ◌++◌}
use native.Mathlib.Omega.{arith}

-- The bytes of the white space that the text begins with: 0 if its first rune is none. White space
-- of more than one byte is in UTF-8; a lead byte never stands inside another rune.
unfoldable pub space_width : Bytes → ℕ
space_width [] = 0
space_width (c ∷ []) = if c == 32 || (leb 9 c && leb c 13) then 1 else 0
space_width (c ∷ d ∷ []) =
    if c == 32 || (leb 9 c && leb c 13)
    then 1
    else if c == 0xc2 && (d == 0x85 || d == 0xa0)
    then 2
    else 0
space_width (c ∷ d ∷ e ∷ _) =
    if c == 32 || (leb 9 c && leb c 13)
    then 1
    else if c == 0xc2 && (d == 0x85 || d == 0xa0)
    then 2
    else if c == 0xe1 && (d == 0x9a && e == 0x80)
    then 3
    else if c == 0xe2
        && (d == 0x80 && ((leb 0x80 e && leb e 0x8a) || (e == 0xa8 || (e == 0xa9 || e == 0xaf))))
    then 3
    else if c == 0xe2 && (d == 0x81 && e == 0x9f)
    then 3
    else if c == 0xe3 && (d == 0x80 && e == 0x80)
    then 3
    else 0

abbrev close_field : Bytes → List Bytes → List Bytes
close_field [] fs = fs
close_field (c ∷ cs) fs = (c ∷ cs) ∷ fs

-- `skip` bytes of white space are still to be passed; `cur` is the field that is being read.
unfoldable pub fields_from : ℕ → Bytes → Bytes → List Bytes
unfolding space_width
fields_from skip cur [] = close_field cur []
fields_from (suc k) cur (c ∷ cs) = fields_from k cur cs
fields_from zero cur (c ∷ cs) =
    let more = fields_from 0 (cur ++ (c ∷ [])) cs in
    let next = close_field cur (fields_from (space_width (c ∷ cs) - 1) [] cs) in
    if space_width (c ∷ cs) == 0 then more else next

unfoldable pub fields : Bytes → List Bytes
unfolding fields_from
fields s = fields_from 0 [] s

-- `parts := strings.SplitN(s, sep, 2)`: the two parts, or `none` where there is one only
unfoldable pub cut : ℕ → Bytes → Option (Bytes × Bytes)
cut sep [] = none
cut sep (c ∷ cs) =
    if c == sep
    then some ([], cs)
    else elim (cut sep cs) [ none ↦ none | some (a, b) ↦ some (c ∷ a, b) ]

pub cut-append :
    (sep : ℕ) (a b : Bytes) → All (λ c. c ≢ sep) a → cut sep (a ++ (sep ∷ b)) ≡ some (a, b)
unfolding cut
cut-append sep [] b h = ground arith
cut-append sep (x ∷ a) b (hx, h) = ground (arith, cut-append sep a b h)

abbrev lower : ℕ → ℕ
lower c = if leb b'A' c && leb c b'Z' then c + 32 else c

-- `strings.EqualFold(s, want)` for a `want` of ASCII letters that no other rune folds to
unfoldable pub equal_fold : Bytes → Bytes → Bool
equal_fold [] [] = true
equal_fold [] (y ∷ ys) = false
equal_fold (x ∷ xs) [] = false
equal_fold (x ∷ xs) (y ∷ ys) = lower x == lower y && equal_fold xs ys
