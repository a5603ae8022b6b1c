-- ===== src/Commands/Lists/Written.antt =====
-- What writing and deleting a list leaves in a store that does not fail.
use gedis.Base.{
  ◌≡◌, ◌≢◌, refl, sym, ap, ◌∙◌, true, false, Option, none, some, List, [], ◌∷◌, ◌++◌, Bytes, codes,
  bytes_eq, bytes_eq_iff, ok, Bool-cases, inl, inr, absurd_Bool,
}
use gedis.Base.Int.{ℤ}
use gedis.Datastruct.Entry.{encode, type_list, list_key}
use gedis.Datastruct.ListCodec.{encode_list}
use gedis.Commands.Store.{Kv, KvLaws, Event, World, noted}
use gedis.Commands.Lookup.{type_prefixes}
use gedis.Commands.Lookup.Laws.{Shows, Updates, set_call, delete_call}
use gedis.Commands.Lists.{write_list, delete_list}
use gedis.Commands.Lists.Stored.{Held, stored, at_list, Fits, Holds, Untouched, Leaves}

pub bytes_eq_self : (k : Bytes) → bytes_eq k k ≡ true
bytes_eq_self k = (bytes_eq_iff k k).1 refl

pub bytes_eq_other : (j k : Bytes) → j ≢ k → bytes_eq j k ≡ false
bytes_eq_other j k other = elim (Bool-cases (bytes_eq j k)) [
  | inl same ↦ absurd (other ((bytes_eq_iff j k).0 same))
  | inr h ↦ h
]

module _ {S : Type 0} {kv : Kv S} (laws : KvLaws kv) (now : ℤ) where
  Shows-Updates :
      (w w' : World S) (key : Bytes) (v v' : Option Bytes)
      → Shows laws now w key (at_list v) type_prefixes
      → Updates laws now w (list_key key) v' w'
      → Shows laws now w' key (at_list v') type_prefixes
  unfolding type_prefixes list_key
  Shows-Updates w w' key v v' (s, (h, (l, (st, (z, (hll, (x, (vs, u))))))))
        (valid, shows, quiet, counted) =
      (
        shows (codes "s:" ++ key) ∙ s,
        (
          shows (codes "h:" ++ key) ∙ h,
          (
            shows (codes "l:" ++ key) ∙ rw (bytes_eq_self (codes "l:" ++ key)) refl,
            (
              shows (codes "st:" ++ key) ∙ st,
              (
                shows (codes "z:" ++ key) ∙ z,
                (
                  shows (codes "hll:" ++ key) ∙ hll,
                  (shows (codes "x:" ++ key) ∙ x, (shows (codes "vs:" ++ key) ∙ vs, tt)),
                ),
              ),
            ),
          ),
        ),
      )

  Untouched-Updates :
      (w w' : World S) (key : Bytes) (v : Option Bytes)
      → Updates laws now w (list_key key) v w'
      → Untouched laws now w key w'
  Untouched-Updates w w' key v (valid, shows, quiet, counted) j other =
      shows j ∙ rw (bytes_eq_other j (list_key key) other) refl

  unequal : (j k : Bytes) → bytes_eq j k ≡ false → j ≢ k
  unequal j k h e = absurd_Bool (sym ((bytes_eq_iff j k).1 e) ∙ h)

  Shows-Untouched :
      (w w' : World S) (key changed : Bytes) (v : Option Bytes)
      → key ≢ changed
      → Untouched laws now w changed w'
      → Shows laws now w key (at_list v) type_prefixes
      → Shows laws now w' key (at_list v) type_prefixes
  unfolding type_prefixes list_key
  Shows-Untouched w w' key changed v different same (s, (h, (l, (st, (z, (hll, (x, (vs, u)))))))) =
      let kept : (p : Bytes)
          → bytes_eq (p ++ key) (list_key changed) ≡ false
          → laws.look w'.store (p ++ key) ≡ laws.look w.store (p ++ key) =
        λ p apart. same (p ++ key) (unequal (p ++ key) (list_key changed) apart) in
      (
        kept (codes "s:") refl ∙ s,
        (
          kept (codes "h:") refl ∙ h,
          (
            kept (codes "l:") (bytes_eq_other key changed different) ∙ l,
            (
              kept (codes "st:") refl ∙ st,
              (
                kept (codes "z:") refl ∙ z,
                (
                  kept (codes "hll:") refl ∙ hll,
                  (kept (codes "x:") refl ∙ x, (kept (codes "vs:") refl ∙ vs, tt)),
                ),
              ),
            ),
          ),
        ),
      )

  -- What another key has stays.
  pub Holds-Leaves :
      (w w' : World S) (key changed : Bytes) (o o' : Held) (es : List Event)
      → key ≢ changed
      → Leaves laws now w changed o' es w'
      → Holds laws now w key o
      → Holds laws now w' key o
  Holds-Leaves w w' key changed o o' es different (held, untouched, events) (valid, shows, fits) =
      (held.0, Shows-Untouched w w' key changed (stored o) different untouched shows, fits)

  Leaves-Updates :
      (w w' : World S) (key : Bytes) (o o' : Held)
      → Holds laws now w key o
      → Fits now o'
      → Updates laws now w (list_key key) (stored o') w'
      → Leaves laws now w key o' [] w'
  Leaves-Updates w w' key o o' (valid, shows, fits) fits' updates = (
    (updates.0, Shows-Updates w w' key (stored o) (stored o') shows updates, fits'),
    Untouched-Updates w w' key (stored o') updates,
    updates.2,
  )

  pub write_list-Holds :
      (key : Bytes) (o : Held) (elems : List Bytes) (expiry : ℤ) (w : World S)
      → Holds laws now w key o
      → Fits now (some (elems, expiry))
      → (w' : World S) × (write_list kv now key elems expiry w ≡ (ok tt, w'))
        × Leaves laws now w key (some (elems, expiry)) [] w'
  unfolding write_list
  write_list-Holds key o elems expiry w held fits =
      let (w', eq, updates) =
        set_call laws now w (list_key key) (encode type_list expiry (encode_list elems)) held.0 in
      (w', eq, Leaves-Updates w w' key o (some (elems, expiry)) held fits updates)

  pub delete_list-Holds :
      (key : Bytes) (o : Held) (w : World S)
      → Holds laws now w key o
      → (w' : World S) × (delete_list kv now key w ≡ (ok tt, w')) × Leaves laws now w key none [] w'
  unfolding delete_list
  delete_list-Holds key o w held =
      let (w', eq, updates) = delete_call laws now w (list_key key) held.0 in
      (w', eq, Leaves-Updates w w' key o none held tt updates)

  pub Leaves-noted :
      (w w' : World S) (key : Bytes) (o : Held) (e : Event) (es : List Event)
      → Leaves laws now w key o es w'
      → Leaves laws now w key o (e ∷ es) (noted e w')
  Leaves-noted w w' key o e es (held, untouched, events) = (held, untouched, ap (◌∷◌ e) events)
