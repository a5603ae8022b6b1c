-- ===== src/Sentinel/Selection.antt =====
-- `SelectSlave` of internal/sentinel/select.go promotes a best usable slave.
pub mod Order
use gedis.Base.{
  ℕ, ◌≡◌, ◌⊎◌, inl, inr, refl, sym, ◌∙◌, Bool, true, false, Option, none, some, List, [], ◌∷◌, map,
  if◌then◌else◌, Bytes, All, In, absurd_Bool, ◌↔◌, Bool-cases, Option-cases, get, Result, ok, err,
  panic, out_of_fuel, arith,
}
use gedis.Sentinel.Registry.{MasterState, Registry, SentinelError, no_healthy_slave}
use gedis.Sentinel.Select.{
  SlaveInfo, less, skipped, first_usable, insert_slave, sort_slaves, candidates, select_slave,
}
use Order.{less-asym, less_trans}

-- A member of the list, as `In` says it, that the loop can return.
abbrev pub Chosen : Registry → Bytes → List SlaveInfo → Type 0
Chosen r addr cs =
    (c : SlaveInfo) × In c cs
    × (c.addr ≡ addr)
    × (skipped r c ≡ false)
    × ((d : SlaveInfo) → In d cs → skipped r d ≡ false → less d c ≡ false)

abbrev Sorted : List SlaveInfo → Type 0
Sorted [] = Unit
Sorted (c ∷ cs) = All (λ d. less d c ≡ false) cs × Sorted cs

All-insert_slave :
    (P : SlaveInfo → Type 0) (i : SlaveInfo) (cs : List SlaveInfo)
    → P i
    → All P cs
    → All P (insert_slave i cs)
unfolding insert_slave
All-insert_slave P i [] p h = (p, h)
All-insert_slave P i (j ∷ js) p h = elim (Bool-cases (less j i)) [
  | inl before ↦ rw before (h.0, All-insert_slave P i js p h.1)
  | inr after ↦ rw after (p, h)
]

All-map {ℓ κ} :
    {A : Type 0} {P : A → Type ℓ} {Q : A → Type κ} (f : (x : A) → P x → Q x) (xs : List A)
    → All P xs
    → All Q xs
All-map f [] h = tt
All-map f (x ∷ xs) h = (f x h.0, All-map f xs h.1)

Sorted-insert_slave : (i : SlaveInfo) (cs : List SlaveInfo) → Sorted cs → Sorted (insert_slave i cs)
unfolding insert_slave
Sorted-insert_slave i [] h = (h, h)
Sorted-insert_slave i (j ∷ js) h = elim (Bool-cases (less j i)) [
  | inl before ↦ rw before (
    All-insert_slave (λ d. less d j ≡ false) i js (less-asym j i before) h.0,
    Sorted-insert_slave i js h.1,
  )
  | inr after ↦ rw after ((after, All-map (λ d k. less_trans d j i k after) js h.0), h)
]

Sorted-sort_slaves : (cs : List SlaveInfo) → Sorted (sort_slaves cs)
unfolding sort_slaves
Sorted-sort_slaves [] = tt
Sorted-sort_slaves (c ∷ cs) = Sorted-insert_slave c (sort_slaves cs) (Sorted-sort_slaves cs)

in_between {ℓ κ} :
    (d i j : SlaveInfo) (A : Type ℓ) (B : Type κ)
    → B ↔ ((d ≡ i) ⊎ A)
    → ((d ≡ j) ⊎ B) ↔ ((d ≡ i) ⊎ ((d ≡ j) ⊎ A))
in_between d i j A B (there, back) = (
  λ h. elim h [
    | inl e ↦ inr (inl e)
    | inr b ↦ elim (there b) [ inl e ↦ inl e | inr a ↦ inr (inr a) ]
  ],
  λ h. elim h [
    | inl e ↦ inr (back (inl e))
    | inr (inl e) ↦ inl e
    | inr (inr a) ↦ inr (back (inr a))
  ],
)

In-insert_slave :
    (d i : SlaveInfo) (cs : List SlaveInfo) → In d (insert_slave i cs) ↔ ((d ≡ i) ⊎ In d cs)
unfolding insert_slave
In-insert_slave d i [] = (λ h. h, λ h. h)
In-insert_slave d i (j ∷ js) = elim (Bool-cases (less j i)) [
  | inl before ↦
      rw before (in_between d i j (In d js) (In d (insert_slave i js)) (In-insert_slave d i js))
  | inr after ↦ rw after (λ h. h, λ h. h)
]

In-sort_slaves : (d : SlaveInfo) (cs : List SlaveInfo) → In d (sort_slaves cs) ↔ In d cs
unfolding sort_slaves
In-sort_slaves d [] = (λ h. h, λ h. h)
In-sort_slaves d (c ∷ cs) =
    let (there, back) = In-insert_slave d c (sort_slaves cs) in
    let (down, up) = In-sort_slaves d cs in
    (
      λ h. elim (there h) [ inl e ↦ inl e | inr k ↦ inr (down k) ],
      λ h. back (elim h [ inl e ↦ inl e | inr k ↦ inr (up k) ]),
    )

All-In : {A : Type 0} (P : A → Type 0) (xs : List A) → All P xs → (x : A) → In x xs → P x
All-In P [] h x i = elim i [ ]
All-In P (y ∷ ys) h x (inl e) = rw e h.0
All-In P (y ∷ ys) h x (inr k) = All-In P ys h.1 x k

Chosen-skip :
    (r : Registry) (c : SlaveInfo) (cs : List SlaveInfo) (addr : Bytes)
    → skipped r c ≡ true
    → Chosen r addr cs
    → Chosen r addr (c ∷ cs)
Chosen-skip r c cs addr skip (b, i, e, usable, best) = (
  b,
  inr i,
  e,
  usable,
  λ d j u. elim j [ inl same ↦ absurd_Bool (sym skip ∙ rw (← same) u) | inr k ↦ best d k u ],
)

less_irrefl : (c : SlaveInfo) → less c c ≡ false
less_irrefl c = elim (Bool-cases (less c c)) [ inl h ↦ less-asym c c h | inr h ↦ h ]

Chosen-first :
    (r : Registry) (c : SlaveInfo) (cs : List SlaveInfo) (addr : Bytes)
    → skipped r c ≡ false
    → All (λ d. less d c ≡ false) cs
    → Path (Result SentinelError Bytes) (ok c.addr) (ok addr)
    → Chosen r addr (c ∷ cs)
Chosen-first r c cs addr usable sorted h = (
  c,
  inl refl,
  cc,
  usable,
  λ d j u. elim j [
    | inl same ↦ rw same (less_irrefl c)
    | inr k ↦ All-In (λ x. less x c ≡ false) cs sorted d k
  ],
)

first_usable-ok :
    (r : Registry) (cs : List SlaveInfo) (addr : Bytes)
    → Sorted cs
    → first_usable r cs ≡ ok addr
    → Chosen r addr cs
unfolding first_usable
first_usable-ok r [] addr s h = cc
first_usable-ok r (c ∷ cs) addr s h = elim (Bool-cases (skipped r c)) [
  | inl skip ↦ Chosen-skip r c cs addr skip (first_usable-ok r cs addr s.1 (sym (rw skip refl) ∙ h))
  | inr usable ↦ Chosen-first r c cs addr usable s.0 (sym (rw usable refl) ∙ h)
]

absurd_result {ℓ} :
    {A : Type ℓ} (addr : Bytes) (e : SentinelError)
    → Path (Result SentinelError Bytes) (ok addr) (err e)
    → A
absurd_result addr e h = cc

first_usable-err :
    (r : Registry) (cs : List SlaveInfo) (e : SentinelError)
    → first_usable r cs ≡ err e
    → (e ≡ no_healthy_slave) × ((d : SlaveInfo) → In d cs → skipped r d ≡ true)
unfolding first_usable
first_usable-err r [] e h = (cc, λ d i. elim i [ ])
first_usable-err r (c ∷ cs) e h = elim (Bool-cases (skipped r c)) [
  | inl skip ↦
      let (same, rest) = first_usable-err r cs e (sym (rw skip refl) ∙ h) in
      (same, λ d i. elim i [ inl eq ↦ rw eq skip | inr k ↦ rest d k ])
  | inr usable ↦ absurd_result c.addr e (sym (rw usable refl) ∙ h)
]

Chosen-unsorted :
    (r : Registry) (addr : Bytes) (cs : List SlaveInfo)
    → Chosen r addr (sort_slaves cs)
    → Chosen r addr cs
Chosen-unsorted r addr cs (c, i, e, usable, best) =
    (c, (In-sort_slaves c cs).0 i, e, usable, λ d j u. best d ((In-sort_slaves d cs).1 j) u)

-- What `select_slave` promises of a registered master's candidates.
abbrev pub Selected : Registry → List SlaveInfo → Result SentinelError Bytes → Type 0
Selected r cs (ok addr) = Chosen r addr cs
Selected r cs (err e) = (e ≡ no_healthy_slave) × ((d : SlaveInfo) → In d cs → skipped r d ≡ true)
Selected r cs panic = ⊥
Selected r cs out_of_fuel = ⊥

first_usable-total :
    (r : Registry) (cs : List SlaveInfo)
    → ((addr : Bytes) × (first_usable r cs ≡ ok addr))
      ⊎ ((e : SentinelError) × (first_usable r cs ≡ err e))
unfolding first_usable
first_usable-total r [] = inr (no_healthy_slave, refl)
first_usable-total r (c ∷ cs) = elim (Bool-cases (skipped r c)) [
  | inl skip ↦ rw skip (first_usable-total r cs)
  | inr usable ↦ rw usable (inl (c.addr, refl))
]

Selected-first_usable :
    (r : Registry) (cs : List SlaveInfo) → Selected r cs (first_usable r (sort_slaves cs))
Selected-first_usable r cs = elim (first_usable-total r (sort_slaves cs)) [
  | inl (addr, h) ↦ rw h (
      Chosen-unsorted r addr cs (first_usable-ok r (sort_slaves cs) addr (Sorted-sort_slaves cs) h))
  | inr (e, h) ↦
      let (same, all) = first_usable-err r (sort_slaves cs) e h in
      rw h (same, λ d i. all d ((In-sort_slaves d cs).1 i))
]

select_slave-some :
    (r : Registry) (name : Bytes) (infos : List SlaveInfo) (st : MasterState)
    → get name r.masters ≡ some st
    → select_slave r name infos ≡ first_usable r (sort_slaves (candidates st.spec.slaves infos))
unfolding select_slave
select_slave-some r name infos st h = rw (h, select_slave) refl

-- For a registered master, `SelectSlave` returns the address of a candidate that is not skipped
-- and that no other candidate which is not skipped comes before; or the error that no slave is
-- healthy, and then every candidate is skipped.
pub select_slave-best :
    (r : Registry) (name : Bytes) (infos : List SlaveInfo) (st : MasterState)
    → get name r.masters ≡ some st
    → Selected r (candidates st.spec.slaves infos) (select_slave r name infos)
select_slave-best r name infos st h =
    rw (select_slave-some r name infos st h)
      (Selected-first_usable r (candidates st.spec.slaves infos))
