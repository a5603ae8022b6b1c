-- ===== src/Sentinel/Down/Marks.antt =====
-- What the probes of internal/sentinel/sdown.go leave in the state of one master.
use gedis.Base.{
  ℕ, suc, ◌^◌, ◌<◌, ◌≤◌, ◌≡◌, refl, ◌∙◌, Bool, true, false, not, ◌&&◌, if◌then◌else◌, ltb, Bytes,
  bytes_eq, bytes_eq_iff, Bool-cases, inl, inr, arith,
}
use gedis.Base.Int.{pos, add64, ◌+ℤ◌}
use gedis.Sentinel.Registry.{MasterState, watches}
use gedis.Sentinel.Probe.{reached, record_failure, record_probe_state}

-- What the state of a master says of the address after at most `n` probes, the last of which of
-- the address failed or not (`f`).
abbrev pub Tracks : ℕ → Bytes → Bool → MasterState → Type 0
Tracks n a f st =
    (c : ℕ) × (st.sdown_count a ≡ pos c)
    × (c ≤ n)
    × (st.down a ≡ (watches st a && f))
    × (reached (pos c) ≡ (watches st a && f))

pub watches-record_probe_state :
    (a b : Bytes) (ok : Bool) (st : MasterState)
    → watches (record_probe_state b ok st) a ≡ watches st a
unfolding watches record_probe_state record_failure
watches-record_probe_state a b ok st = ground arith

add64-suc : (c : ℕ) → suc c < 2 ^ 63 → add64 (pos c) (pos 1) ≡ pos (suc c)
unfolding add64 ◌+ℤ◌
add64-suc c h = ground arith

pub reached-pos : (c : ℕ) → reached (pos c) ≡ ltb 0 c
unfolding reached
reached-pos c = ground arith

-- A probe of another address, or of one that the master does not name, leaves the marks.
sdown_count-other :
    (a b : Bytes) (ok : Bool) (st : MasterState)
    → bytes_eq a b ≡ false
    → (record_probe_state b ok st).sdown_count a ≡ st.sdown_count a
unfolding record_probe_state record_failure
sdown_count-other a b ok st other = ground arith

down-other :
    (a b : Bytes) (ok : Bool) (st : MasterState)
    → bytes_eq a b ≡ false
    → (record_probe_state b ok st).down a ≡ st.down a
unfolding record_probe_state record_failure
down-other a b ok st other = ground arith

marks-answered :
    (a : Bytes) (st : MasterState)
    → watches st a ≡ true
    → ((record_probe_state a true st).sdown_count a ≡ pos 0)
      × ((record_probe_state a true st).down a ≡ false)
unfolding record_probe_state
marks-answered a st w = ground (arith, bytes_eq_iff a a)

marks-failed :
    (a : Bytes) (st : MasterState) (c : ℕ)
    → watches st a ≡ true
    → suc c < 2 ^ 63
    → st.sdown_count a ≡ pos c
    → ((record_probe_state a false st).sdown_count a ≡ pos (suc c))
      × ((record_probe_state a false st).down a ≡ true)
unfolding record_probe_state record_failure
marks-failed a st c w h count = ground (arith, bytes_eq_iff a a, add64-suc c h, reached-pos (suc c))

marks-unwatched :
    (a : Bytes) (ok : Bool) (st : MasterState)
    → watches st a ≡ false
    → record_probe_state a ok st ≡ st
unfolding record_probe_state
marks-unwatched a ok st w = rw w

Tracks-unchanged :
    (n : ℕ) (a b : Bytes) (f ok : Bool) (st : MasterState)
    → bytes_eq a b ≡ false
    → Tracks n a f st
    → Tracks (suc n) a f (record_probe_state b ok st)
Tracks-unchanged n a b f ok st other (c, count, le, down, up) =
    rw (watches-record_probe_state a b ok st) (
      c,
      (sdown_count-other a b ok st other) ∙ count,
      omega arith,
      (down-other a b ok st other) ∙ down,
      up,
    )

Tracks-unwatched :
    (n : ℕ) (a : Bytes) (f ok : Bool) (st : MasterState)
    → watches st a ≡ false
    → Tracks n a f st
    → Tracks (suc n) a (not ok) (record_probe_state a ok st)
Tracks-unwatched n a f ok st w (c, count, le, down, up) =
    rw (marks-unwatched a ok st w) (c, count, omega arith, down ∙ rw w refl, up ∙ rw w refl)

Tracks-same :
    (n : ℕ) (a : Bytes) (f ok : Bool) (st : MasterState)
    → suc n < 2 ^ 63
    → watches st a ≡ true
    → Tracks n a f st
    → Tracks (suc n) a (not ok) (record_probe_state a ok st)
Tracks-same n a f true st h w (c, count, le, down, up) =
    rw (watches-record_probe_state a a true st, w)
      (0, (marks-answered a st w).0, omega arith, (marks-answered a st w).1, reached-pos 0)
Tracks-same n a f false st h w (c, count, le, down, up) =
    let marks = marks-failed a st c w (omega arith) count in
    rw (watches-record_probe_state a a false st, w)
      (suc c, marks.0, omega arith, marks.1, reached-pos (suc c) ∙ ground arith)

pub Tracks-step :
    (n : ℕ) (a b : Bytes) (f ok : Bool) (st : MasterState)
    → suc n < 2 ^ 63
    → Tracks n a f st
    → Tracks (suc n) a (if bytes_eq a b then not ok else f) (record_probe_state b ok st)
Tracks-step n a b f ok st h t = elim (Bool-cases (bytes_eq a b)) [
  | inr other ↦ rw other (Tracks-unchanged n a b f ok st other t)
  | inl same ↦
      rw (same, ← (bytes_eq_iff a b).0 same)
        (elim (Bool-cases (watches st a)) [
          | inl w ↦ Tracks-same n a f ok st h w t
          | inr w ↦ Tracks-unwatched n a f ok st w t
        ])
]
