-- ===== src/Sentinel/Promotion.antt =====
-- `SelectSlave` of internal/sentinel/select.go promotes the slave that Redis would.
pub mod Meaning
use Meaning.{
  Usable, IsCandidate, Before, Usable-skipped, skipped-Usable, candidate-Known, Known-candidate,
  Before-less,
}
use gedis.Base.{
  ◌≡◌, ◌⊎◌, inl, inr, refl, sym, ◌∙◌, true, false, some, List, [], ◌∷◌, map, Bytes, In, absurd_Bool,
  get, Result, ok, err, panic, out_of_fuel,
}
use gedis.Sentinel.Registry.{MasterState, Registry, SentinelError, no_healthy_slave}
use gedis.Sentinel.Select.{
  SlaveInfo, less, index_infos, candidate, candidates, skipped, select_slave,
}
use gedis.Sentinel.Selection.{Selected, select_slave-best}

-- What `SelectSlave` promises of a registered master with these slaves.
abbrev pub Promoted : Registry → List Bytes → List SlaveInfo → Result SentinelError Bytes → Type 0
Promoted r slaves infos (ok addr) =
    (c : SlaveInfo) × IsCandidate slaves infos c
    × (c.addr ≡ addr)
    × Usable r c
    × ((d : SlaveInfo) → IsCandidate slaves infos d → Usable r d → ¬ Before d c)
Promoted r slaves infos (err e) =
    (e ≡ no_healthy_slave) × ((d : SlaveInfo) → IsCandidate slaves infos d → ¬ Usable r d)
Promoted r slaves infos panic = ⊥
Promoted r slaves infos out_of_fuel = ⊥

In-map : {A B : Type 0} (f : A → B) (a : A) (xs : List A) → In a xs → In (f a) (map f xs)
In-map f a [] h = elim h [ ]
In-map f a (x ∷ xs) (inl e) = inl (rw e refl)
In-map f a (x ∷ xs) (inr h) = inr (In-map f a xs h)

map-In :
    {A B : Type 0} (f : A → B) (b : B) (xs : List A)
    → In b (map f xs)
    → (a : A) × In a xs × (b ≡ f a)
map-In f b [] h = elim h [ ]
map-In f b (x ∷ xs) (inl e) = (x, inl refl, e)
map-In f b (x ∷ xs) (inr h) = let (a, m, e) = map-In f b xs h in (a, inr m, e)

In-candidates :
    (slaves : List Bytes) (infos : List SlaveInfo) (c : SlaveInfo)
    → IsCandidate slaves infos c
    → In c (candidates slaves infos)
unfolding candidates
In-candidates slaves infos c (a, m, known) =
    rw (Known-candidate infos a c known) (In-map (candidate (index_infos infos [])) a slaves m)

candidates-IsCandidate :
    (slaves : List Bytes) (infos : List SlaveInfo) (c : SlaveInfo)
    → In c (candidates slaves infos)
    → IsCandidate slaves infos c
unfolding candidates
candidates-IsCandidate slaves infos c h =
    let (a, m, e) = map-In (candidate (index_infos infos [])) c slaves h in
    (a, m, rw e (candidate-Known infos a))

Selected-Promoted :
    (r : Registry) (slaves : List Bytes) (infos : List SlaveInfo)
    (outcome : Result SentinelError Bytes)
    → Selected r (candidates slaves infos) outcome
    → Promoted r slaves infos outcome
Selected-Promoted r slaves infos (ok addr) (c, m, e, usable, best) = (
  c,
  candidates-IsCandidate slaves infos c m,
  e,
  skipped-Usable r c usable,
  λ d k u before. absurd_Bool (
      sym (Before-less d c before)
      ∙ best d (In-candidates slaves infos d k) (Usable-skipped r d u)),
)
Selected-Promoted r slaves infos (err e) (same, all) = (
  same,
  λ d k u. absurd_Bool (sym (all d (In-candidates slaves infos d k)) ∙ Usable-skipped r d u),
)
Selected-Promoted r slaves infos panic h = h
Selected-Promoted r slaves infos out_of_fuel h = h

-- For a registered master, `SelectSlave` returns the address of a usable slave of it that
-- no usable one comes before, or the error that no slave is healthy, and then none is usable.
-- A slave is usable if no master has it marked down and the last INFO entry about it says that it is
-- online, or no state, or there is no entry. One comes before another by the lower priority (100
-- without an entry), then the higher offset, then the lesser run id, then the lesser address.
pub select_slave-Promoted :
    (r : Registry) (name : Bytes) (infos : List SlaveInfo) (st : MasterState)
    → get name r.masters ≡ some st
    → Promoted r st.spec.slaves infos (select_slave r name infos)
select_slave-Promoted r name infos st h =
    Selected-Promoted r st.spec.slaves infos (select_slave r name infos)
      (select_slave-best r name infos st h)
