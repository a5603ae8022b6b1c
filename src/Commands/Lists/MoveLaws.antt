-- ===== src/Commands/Lists/MoveLaws.antt =====
-- LMOVE and RPOPLPUSH against the lists that their keys have.
use gedis.Base.{
  some-injective, none-some, ◌≡◌, refl, sym, ap, ◌∙◌, Bool, true, false, none, some, List, [], ◌∷◌,
  ◌++◌, Bytes, codes, if◌then◌else◌, Option-cases, inl, inr, ok,
}
use gedis.Base.Int.{ℤ}
use gedis.Protocol.Value.{bulk_of}
use gedis.Commands.Store.{Kv, KvLaws, World, notify, noted, Event}
use gedis.Commands.Lists.Moves.{
  take_end, add_end, push_name, pop_name, move_to, move_from, move_core,
}
use gedis.Commands.Lists.Stored.{
  Held, Fits, Holds, Leaves, read_list-Holds, Holds-Same, Leaves-after_Same,
}
use gedis.Commands.Lists.Written.{write_list-Holds, Leaves-noted, bytes_eq_self}

-- The element at one end of a list and the others.
abbrev pub IsEnd : Bool → List Bytes → Bytes → List Bytes → Type 0
IsEnd from_tail elems elem kept = (if from_tail then kept ++ (elem ∷ []) else elem ∷ kept) ≡ elems

no_end :
    (e e' : Bytes) (es : List Bytes)
    → take_end true (e' ∷ es) ≡ none
    → take_end true (e ∷ (e' ∷ es)) ≡ none
unfolding take_end
no_end e e' es h = rw (take_end, h) refl

end_below :
    (e e' : Bytes) (es : List Bytes) (cut : Bytes × List Bytes)
    → take_end true (e' ∷ es) ≡ some cut
    → take_end true (e ∷ (e' ∷ es)) ≡ some (cut.0, e ∷ cut.1)
unfolding take_end
end_below e e' es cut h = rw (take_end, h) refl

abbrev joined : Bytes × List Bytes → List Bytes
joined c = c.1 ++ (c.0 ∷ [])

pub take_end-IsEnd :
    (from_tail : Bool) (elems : List Bytes) (elem : Bytes) (kept : List Bytes)
    → take_end from_tail elems ≡ some (elem, kept)
    → IsEnd from_tail elems elem kept
unfolding take_end
take_end-IsEnd false [] elem kept h = cc
take_end-IsEnd true [] elem kept h = cc
take_end-IsEnd false (e ∷ es) elem kept h = ap (λ c. c.0 ∷ c.1) (sym (some-injective h))
take_end-IsEnd true (e ∷ []) elem kept h = ap joined (sym (some-injective h))
take_end-IsEnd true (e ∷ (e' ∷ es)) elem kept h = elim (Option-cases (take_end true (e' ∷ es))) [
  | inl nothing ↦ absurd (none-some (sym (no_end e e' es nothing) ∙ h))
  | inr (cut, found) ↦
      ap joined (sym (some-injective (sym (end_below e e' es cut found) ∙ h)))
      ∙ ap (◌∷◌ e) (take_end-IsEnd true (e' ∷ es) cut.0 cut.1 found)
]

module _ {S : Type 0} {kv : Kv S} (laws : KvLaws kv) (now : ℤ) where
  move_to_same :
      (key : Bytes) (from_tail to_tail : Bool) (elem : Bytes) (kept elems : List Bytes) (expiry : ℤ)
      (w : World S)
      → Holds laws now w key (some (elems, expiry))
      → Fits now (some (add_end to_tail elem elems, expiry))
      → (w' : World S) × (move_to kv now key key from_tail to_tail elem
            (kept, expiry)
            (elems, expiry)
            w
          ≡ (ok (bulk_of elem), w'))
        × Leaves laws now w key
            (some (add_end to_tail elem elems, expiry))
            ((codes "l", (pop_name from_tail, key)) ∷ (codes "l", (push_name to_tail, key)) ∷ [])
            w'
  unfolding move_to notify
  move_to_same key from_tail to_tail elem kept elems expiry w held fits =
      let o : Held = some (add_end to_tail elem elems, expiry) in
      let pushed : Event = (codes "l", (push_name to_tail, key)) in
      let popped : Event = (codes "l", (pop_name from_tail, key)) in
      let (w', wrote, leaves) =
        write_list-Holds laws now key (some (elems, expiry)) (add_end to_tail elem elems) expiry w
          held fits in
      (
        noted popped (noted pushed w'),
        rw (move_to, bytes_eq_self key, wrote) refl,
        Leaves-noted laws now w (noted pushed w') key o popped (pushed ∷ [])
            (Leaves-noted laws now w w' key o pushed [] leaves),
      )

  -- LMOVE and RPOPLPUSH with the same key twice: the element is added at the destination's end, and
  -- it is not removed from the end where it was, so that the list grows by it.
  pub move_core_same :
      (key : Bytes) (from_tail to_tail : Bool) (elem : Bytes) (kept elems : List Bytes) (expiry : ℤ)
      (w : World S)
      → take_end from_tail elems ≡ some (elem, kept)
      → Holds laws now w key (some (elems, expiry))
      → Fits now (some (add_end to_tail elem elems, expiry))
      → (w' : World S) × (move_core kv now key key from_tail to_tail w ≡ (ok (bulk_of elem), w'))
        × Leaves laws now w key
            (some (add_end to_tail elem elems, expiry))
            ((codes "l", (pop_name from_tail, key)) ∷ (codes "l", (push_name to_tail, key)) ∷ [])
            w'
  unfolding move_core move_from
  move_core_same key from_tail to_tail elem kept elems expiry w cut held fits =
      let o : Held = some (elems, expiry) in
      let (w1, got, same) = read_list-Holds laws now key o w held in
      let held1 = Holds-Same laws now w w1 key o same held in
      let (w2, again, same') = read_list-Holds laws now key o w1 held1 in
      let held2 = Holds-Same laws now w1 w2 key o same' held1 in
      let (w3, done, leaves) =
        move_to_same key from_tail to_tail elem kept elems expiry w2 held2 fits in
      let o' : Held = some (add_end to_tail elem elems, expiry) in
      let es : List Event =
        (codes "l", (pop_name from_tail, key)) ∷ (codes "l", (push_name to_tail, key)) ∷ [] in
      (
        w3,
        rw (move_core, got, cut, move_from, again, done) refl,
        Leaves-after_Same laws now w w1 w3 key o' es same
            (Leaves-after_Same laws now w1 w2 w3 key o' es same' leaves),
      )
