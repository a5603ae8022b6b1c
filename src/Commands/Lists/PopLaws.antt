-- ===== src/Commands/Lists/PopLaws.antt =====
-- LPOP and RPOP against the list that a key has.
use gedis.Base.{
  ℕ, ◌≡◌, length-append, All-split, arith, Bool, none, some, List, [], ◌∷◌, ◌++◌, Bytes, codes,
  length, ltb, if◌then◌else◌,
}
use gedis.Datastruct.ListCodec.{IsStorable}
use gedis.Datastruct.Strings.{IsShort}
use gedis.Base.Int.{ℤ}
use gedis.Commands.Store.{Event}
use gedis.Commands.Lists.Stored.{Held, Fits}

-- What `popOne` leaves of a list: no key where nothing is left.
abbrev pub left_over : List Bytes → ℤ → Held
left_over [] expiry = none
left_over (e ∷ es) expiry = some (e ∷ es, expiry)

abbrev pub pop_event : Bool → Bytes → Event
pop_event tail key = (codes "l", ((if tail then codes "rpop" else codes "lpop"), key))

abbrev pub del_event : Bytes → Event
del_event key = (codes "g", (codes "del", key))

abbrev pub pop_events : Bool → Bytes → List Bytes → List Event
pop_events tail key [] = del_event key ∷ pop_event tail key ∷ []
pop_events tail key (e ∷ es) = pop_event tail key ∷ []

-- The elements that stay and those that go, in the list's order.
abbrev pub IsCut : Bool → ℕ → List Bytes → List Bytes × List Bytes → Type 0
IsCut tail count elems (out, kept) =
    ((if tail then kept ++ out else out ++ kept) ≡ elems)
    × (length out ≡ (if ltb (length elems) count then length elems else count))

pub part_IsStorable : (xs ys : List Bytes) → IsStorable (xs ++ ys) → IsStorable xs × IsStorable ys
part_IsStorable xs ys (fits, short) =
    let (left, right) = All-split IsShort xs ys short in
    ((omega (arith, length-append xs ys), left), (omega (arith, length-append xs ys), right))

pub left_over-Fits :
    (now : ℤ) (elems kept : List Bytes) (expiry : ℤ)
    → IsStorable kept
    → Fits now (some (elems, expiry))
    → Fits now (left_over kept expiry)
left_over-Fits now elems [] expiry h fits = tt
left_over-Fits now elems (e ∷ es) expiry h fits = (h, fits.1, fits.2)
