-- ===== src/Sentinel/Down.antt =====
-- The marks of internal/sentinel/sdown.go after any probes: an address is down exactly if the last
-- probe of it failed and a master's specification names it.
mod Marks
use gedis.Base.{
  ℕ, suc, ◌+◌, ◌^◌, ◌<◌, ◌≤◌, ◌≡◌, refl, sym, ap, ◌∙◌, Bool, true, false, not, ◌&&◌, ◌||◌, Option,
  none, some, List, [], ◌∷◌, if◌then◌else◌, ltb, Bytes, bytes_eq, bytes_eq_iff, length, All,
  Bool-cases, ◌⊎◌, inl, inr, Table, put, map_values, any_value, arith,
}
use mathlib.Core.Path.{fun_ext}
use gedis.Base.Int.{ℤ, pos, add64, ◌+ℤ◌}
use gedis.Sentinel.Registry.{
  NodeSpec, MasterState, Registry, new_registry, masters_of, new_state, watches, is_down,
  contains_addr,
}
use gedis.Sentinel.Probe.{
  reached, record_failure, record_probe_state, record_probe, is_subjectively_down,
}
use Marks.{Tracks, watches-record_probe_state, reached-pos, Tracks-step}

-- A result of a probe: the address, and whether it answered.
abbrev pub Probe : Type 0
Probe = Bytes × Bool

unfoldable pub record_all : Registry → List Probe → Registry
record_all r [] = r
record_all r (p ∷ ps) = record_all (record_probe r p.0 p.1) ps

-- Whether the last probe of the address failed, `f` before the first.
unfoldable pub last_failed : Bytes → Bool → List Probe → Bool
last_failed a f [] = f
last_failed a f (p ∷ ps) = last_failed a (if bytes_eq a p.0 then not p.1 else f) ps

abbrev AllTrack : ℕ → Bytes → Bool → Table MasterState → Type 0
AllTrack n a f t = All (λ p. Tracks n a f p.1) t

AllTrack-step :
    (n : ℕ) (a b : Bytes) (f ok : Bool) (t : Table MasterState)
    → suc n < 2 ^ 63
    → AllTrack n a f t
    → AllTrack
        (suc n)
        a
        (if bytes_eq a b then not ok else f)
        (map_values (record_probe_state b ok) t)
unfolding map_values
AllTrack-step n a b f ok [] h t = t
AllTrack-step n a b f ok (p ∷ ps) h t =
    (Tracks-step n a b f ok p.1 h t.0, AllTrack-step n a b f ok ps h t.1)

AllTrack-record_all :
    (n : ℕ) (a : Bytes) (f : Bool) (r : Registry) (ps : List Probe)
    → n + length ps < 2 ^ 63
    → AllTrack n a f r.masters
    → (m : ℕ) × AllTrack m a (last_failed a f ps) (record_all r ps).masters
unfolding record_all last_failed record_probe
AllTrack-record_all n a f r [] h t = (n, t)
AllTrack-record_all n a f r (p ∷ ps) h t =
    AllTrack-record_all (suc n) a (if bytes_eq a p.0 then not p.1 else f) (record_probe r p.0 p.1)
      ps (omega arith) (AllTrack-step n a p.0 f p.1 r.masters (omega arith) t)

abbrev listed : Bytes → List Bytes → Bool
listed a [] = false
listed a (b ∷ bs) = bytes_eq a b || listed a bs

-- Whether a master's specification names the address, as the master's or as a slave's.
unfoldable pub watched : Registry → Bytes → Bool
watched r a = any_value (λ st. listed a (st.spec.master_addr ∷ st.spec.slaves)) r.masters

contains_addr-listed : (a : Bytes) (bs : List Bytes) → contains_addr bs a ≡ listed a bs
unfolding contains_addr
contains_addr-listed a [] = refl
contains_addr-listed a (b ∷ bs) =
    ground (arith, contains_addr-listed a bs, bytes_eq_iff a b, bytes_eq_iff b a)

watches-listed :
    (a : Bytes) (st : MasterState) → listed a (st.spec.master_addr ∷ st.spec.slaves) ≡ watches st a
unfolding watches
watches-listed a st =
    ap (◌||◌ (bytes_eq a st.spec.master_addr)) (sym (contains_addr-listed a st.spec.slaves))

watched-any_value :
    (r : Registry) (a : Bytes) → watched r a ≡ any_value (λ st. watches st a) r.masters
unfolding watched
watched-any_value r a = ap (λ f. any_value f r.masters) (fun_ext (watches-listed a))

any_value-watches :
    (a b : Bytes) (ok : Bool) (t : Table MasterState)
    → any_value (λ st. watches st a) (map_values (record_probe_state b ok) t)
      ≡ any_value (λ st. watches st a) t
unfolding any_value map_values
any_value-watches a b ok [] = refl
any_value-watches a b ok (p ∷ t) =
    rw (watches-record_probe_state a b ok p.1, any_value-watches a b ok t) refl

watches-record_all :
    (r : Registry) (a : Bytes) (ps : List Probe)
    → any_value (λ st. watches st a) (record_all r ps).masters
      ≡ any_value (λ st. watches st a) r.masters
unfolding record_all record_probe
watches-record_all r a [] = refl
watches-record_all r a (p ∷ ps) =
    watches-record_all (record_probe r p.0 p.1) a ps ∙ any_value-watches a p.0 p.1 r.masters

AllTrack-any_value :
    (n : ℕ) (a : Bytes) (f : Bool) (t : Table MasterState)
    → AllTrack n a f t
    → (any_value (λ st. st.down a) t ≡ (any_value (λ st. watches st a) t && f))
      × (any_value (λ st. reached (st.sdown_count a)) t ≡ (any_value (λ st. watches st a) t && f))
unfolding any_value
AllTrack-any_value n a f [] h = (refl, refl)
AllTrack-any_value n a f (p ∷ t) ((c, count, le, down, up), h) =
    let (rest_down, rest_up) = AllTrack-any_value n a f t h in
    (rw (down, rest_down) (ground arith), rw (count, up, rest_up) (ground arith))

AllTrack-put :
    (n : ℕ) (a : Bytes) (f : Bool) (k : Bytes) (st : MasterState) (t : Table MasterState)
    → Tracks n a f st
    → AllTrack n a f t
    → AllTrack n a f (put k st t)
unfolding put
AllTrack-put n a f k st [] h t = (h, t)
AllTrack-put n a f k st (p ∷ ps) h t = elim (Bool-cases (bytes_eq p.0 k)) [
  | inl same ↦ rw same (h, t.1)
  | inr other ↦ rw other (t.0, AllTrack-put n a f k st ps h t.1)
]

Tracks-new_state : (a : Bytes) (s : NodeSpec) → Tracks 0 a false (new_state s)
unfolding new_state
Tracks-new_state a s = (0, refl, omega arith, ground arith, reached-pos 0 ∙ ground arith)

AllTrack-masters_of :
    (a : Bytes) (specs : List NodeSpec) (t : Table MasterState)
    → AllTrack 0 a false t
    → AllTrack 0 a false (masters_of specs t)
unfolding masters_of
AllTrack-masters_of a [] t h = h
AllTrack-masters_of a (s ∷ ss) t h =
    AllTrack-masters_of a ss (put s.name (new_state s) t)
      (AllTrack-put 0 a false s.name (new_state s) t (Tracks-new_state a s) h)

AllTrack-new_registry :
    (specs : List NodeSpec) (down_after : ℤ) (a : Bytes)
    → AllTrack 0 a false (new_registry specs down_after).masters
unfolding new_registry
AllTrack-new_registry specs down_after a = AllTrack-masters_of a specs [] tt

-- After any sequence of fewer than 2 ^ 63 probes from a new registry, both down marks of an address
-- say the same: some master's specification names it, and the last probe of it failed.
pub down_marks :
    (specs : List NodeSpec) (down_after : ℤ) (a : Bytes) (ps : List Probe)
    → length ps < 2 ^ 63
    → (is_down (record_all (new_registry specs down_after) ps) a
        ≡ (watched (new_registry specs down_after) a && last_failed a false ps))
      × (is_subjectively_down (record_all (new_registry specs down_after) ps) a
          ≡ (watched (new_registry specs down_after) a && last_failed a false ps))
unfolding is_down is_subjectively_down
down_marks specs down_after a ps h =
    let r : Registry = new_registry specs down_after in
    let (m, tracked) =
      AllTrack-record_all 0 a false r ps (omega arith) (AllTrack-new_registry specs down_after a) in
    rw (watched-any_value r a, ← watches-record_all r a ps)
      (AllTrack-any_value m a (last_failed a false ps) (record_all r ps).masters tracked)
