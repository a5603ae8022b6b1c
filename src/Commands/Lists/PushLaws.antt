-- ===== src/Commands/Lists/PushLaws.antt =====
-- LPUSH and RPUSH against the list that a key has.
use gedis.Base.{
  ◌≡◌, refl, sym, ap, ◌∙◌, Bool, true, false, none, some, List, [], ◌∷◌, ◌++◌, Bytes, codes, length,
  if◌then◌else◌, ok, map, append_assoc, append-nil,
}
use mathlib.Core.List.{reverse, reverse-cons}
use gedis.Base.Int.{ℤ, pos}
use gedis.Protocol.Value.{Value, integer, bulk_of}
use gedis.Sentinel.Answer.{arg_string, bulk_bytes}
use gedis.Commands.Store.{Kv, KvLaws, World, notify, noted, Event, after_read}
use gedis.Commands.Lists.Ends.{push_values, push_on, push}
use gedis.Commands.Lists.Stored.{
  Held, Fits, Holds, Leaves, read_list-Holds, Holds-Same, Leaves-after_Same, read_answer,
}
use gedis.Commands.Lists.Written.{write_list-Holds, Leaves-noted}

abbrev pub elems_of : Held → List Bytes
elems_of none = []
elems_of (some held) = held.0

abbrev pub expiry_of : Held → ℤ
expiry_of none = pos 0
expiry_of (some held) = held.1

-- The list after a push: LPUSH leaves its last value first.
abbrev pub pushed : Bool → List Bytes → List Bytes → List Bytes
pushed true vs elems = reverse vs ++ elems
pushed false vs elems = elems ++ vs

abbrev pub push_event : Bool → Bytes → Event
push_event head key = (codes "l", ((if head then codes "lpush" else codes "rpush"), key))

reversed :
    (v : Bytes) (vs elems : List Bytes) → reverse vs ++ (v ∷ elems) ≡ reverse (v ∷ vs) ++ elems
reversed v vs elems =
    sym (ap (λ s. s ++ elems) (reverse-cons v vs) ∙ append_assoc (reverse vs) (v ∷ []) elems)

push_values-pushed :
    (head : Bool) (vs elems : List Bytes)
    → push_values head (map bulk_of vs) elems ≡ some (pushed head vs elems)
unfolding push_values arg_string bulk_bytes
push_values-pushed true [] elems = refl
push_values-pushed false [] elems = ap some (sym (append-nil elems))
push_values-pushed true (v ∷ vs) elems =
    push_values-pushed true vs (v ∷ elems) ∙ ap some (reversed v vs elems)
push_values-pushed false (v ∷ vs) elems =
    push_values-pushed false vs (elems ++ (v ∷ [])) ∙ ap some (append_assoc elems (v ∷ []) vs)

module _ {S : Type 0} {kv : Kv S} (laws : KvLaws kv) (now : ℤ) where
  push_on_any :
      (head : Bool) (key : Bytes) (vs : List Value) (o : Held) (w : World S)
      → after_read
          (read_answer o, w)
          (push_on kv now head key vs ([], pos 0))
          (push_on kv now head key vs)
        ≡ push_on kv now head key vs (elems_of o, expiry_of o) w
  push_on_any head key vs none w = refl
  push_on_any head key vs (some held) w = refl

  push_on_held :
      (head : Bool) (key : Bytes) (vs : List Bytes) (o : Held) (w : World S)
      → Holds laws now w key o
      → Fits now (some (pushed head vs (elems_of o), expiry_of o))
      → (w' : World S) × (push_on kv now head key (map bulk_of vs) (elems_of o, expiry_of o) w
          ≡ (ok (integer (pos (length (pushed head vs (elems_of o))))), w'))
        × Leaves laws now w key
            (some (pushed head vs (elems_of o), expiry_of o))
            (push_event head key ∷ [])
            w'
  unfolding push_on notify
  push_on_held head key vs o w held fits =
      let list = pushed head vs (elems_of o) in
      let (w', wrote, leaves) = write_list-Holds laws now key o list (expiry_of o) w held fits in
      (
        noted (push_event head key) w',
        rw (push_on, push_values-pushed head vs (elems_of o), wrote) refl,
        Leaves-noted laws now w w' key (some (list, expiry_of o)) (push_event head key) [] leaves,
      )

  -- LPUSH and RPUSH of bulk strings, on a key that is missing or has a list: the reply is the new
  -- length; the key has the list with the values at the head, the last one first, or at the tail in
  -- their order, with the expiry it had; every other key is as it was, and `Notify` is called once.
  -- The new list fits its encoding.
  pub push_held :
      (head : Bool) (key v : Bytes) (vs : List Bytes) (o : Held) (w : World S)
      → Holds laws now w key o
      → Fits now (some (pushed head (v ∷ vs) (elems_of o), expiry_of o))
      → (w' : World S) × (push kv now head (bulk_of key ∷ map bulk_of (v ∷ vs)) w
          ≡ (ok (integer (pos (length (pushed head (v ∷ vs) (elems_of o))))), w'))
        × Leaves laws now w key
            (some (pushed head (v ∷ vs) (elems_of o), expiry_of o))
            (push_event head key ∷ [])
            w'
  unfolding push arg_string bulk_bytes
  push_held head key v vs o w held fits =
      let (w1, got, same) = read_list-Holds laws now key o w held in
      let (w2, done, leaves) =
        push_on_held head key (v ∷ vs) o w1 (Holds-Same laws now w w1 key o same held) fits in
      (
        w2,
        rw (push, got, push_on_any head key (map bulk_of (v ∷ vs)) o w1, done) refl,
        Leaves-after_Same laws now w w1 w2 key
            (some (pushed head (v ∷ vs) (elems_of o), expiry_of o)) (push_event head key ∷ []) same
            leaves,
      )
