-- ===== src/Sentinel/Promotion/Meaning.antt =====
-- What `SelectSlave` of internal/sentinel/select.go means by the best slave: the slaves with what
-- INFO says of them, those that may be promoted, and the order of Redis, each apart from the code.
use gedis.Base.{
  ◌≡◌, ◌≢◌, ◌⊎◌, inl, inr, refl, sym, ap, ◌∙◌, Bool, true, false, some, List, [], ◌∷◌, ◌++◌, Bytes,
  bytes_eq, bytes_eq_iff, bytes_lt, codes, All, In, Bool-cases, absurd_Bool, Table, get, put,
  get-put, get-put_other, any_value, arith,
}
use gedis.Base.Int.{pos, ◌<ℤ◌}
use gedis.Sentinel.Registry.{MasterState, Registry, is_down}
use gedis.Sentinel.Select.{SlaveInfo, less, default_info, index_infos, candidate, skipped}
use gedis.Sentinel.Selection.Order.{bytes_lt-asym}

-- Some master has marked the address down.
abbrev pub Down : Registry → Bytes → Type 0
Down r a = (p : Bytes × MasterState) × In p r.masters × (p.1.down a ≡ true)

-- It is not down, and INFO says that it is online or nothing of its state.
abbrev pub Usable : Registry → SlaveInfo → Type 0
Usable r c = (¬ Down r c.addr) × ((c.state ≡ []) ⊎ (c.state ≡ codes "online"))

-- No entry is about the address.
abbrev pub Unnamed : List SlaveInfo → Bytes → Type 0
Unnamed infos a = All (λ i. i.addr ≢ a) infos

-- The last entry about the address.
abbrev pub LastFor : List SlaveInfo → Bytes → SlaveInfo → Type 0
LastFor infos a c =
    (before : List SlaveInfo) × (after : List SlaveInfo) × (infos ≡ before ++ (c ∷ after))
    × (c.addr ≡ a)
    × Unnamed after a

-- What is known of a slave: the last entry about it, or else the priority 100 and nothing more.
abbrev pub Known : List SlaveInfo → Bytes → SlaveInfo → Type 0
Known infos a c =
    LastFor infos a c
    ⊎ (Unnamed infos a
        × (c ≡ record { addr = a; priority = pos 100; offset = pos 0; run_id = []; state = [] }))

abbrev pub IsCandidate : List Bytes → List SlaveInfo → SlaveInfo → Type 0
IsCandidate slaves infos c = (a : Bytes) × In a slaves × Known infos a c

-- The lower priority, then the higher offset, then the lesser run id, then the lesser address.
abbrev pub Before : SlaveInfo → SlaveInfo → Type 0
Before a b =
    (a.priority <ℤ b.priority)
    ⊎ ((a.priority ≡ b.priority)
        × ((b.offset <ℤ a.offset)
            ⊎ ((a.offset ≡ b.offset)
                × ((bytes_lt a.run_id b.run_id ≡ true)
                    ⊎ ((a.run_id ≡ b.run_id) × (bytes_lt a.addr b.addr ≡ true))))))

pub Before-less : (a b : SlaveInfo) → Before a b → less a b ≡ true
unfolding less
Before-less a b (inl h) = ground arith
Before-less a b (inr (p, inl h)) = ground arith
Before-less a b (inr (p, inr (o, inl h))) =
    ground (arith, bytes_lt-asym a.run_id b.run_id h, bytes_eq_iff a.run_id b.run_id)
Before-less a b (inr (p, inr (o, inr (e, h)))) = ground (arith, bytes_eq_iff a.run_id b.run_id)

any_value-In :
    {A : Type 0} (f : A → Bool) (p : Bytes × A) (t : Table A)
    → In p t
    → f p.1 ≡ true
    → any_value f t ≡ true
unfolding any_value
any_value-In f p [] m h = elim m [ ]
any_value-In f p (q ∷ t) (inl e) h = rw (sym (ap (λ (x : Bytes × _). f x.1) e) ∙ h) refl
any_value-In f p (q ∷ t) (inr m) h = ground (arith, any_value-In f p t m h)

In-any_value :
    {A : Type 0} (f : A → Bool) (t : Table A)
    → any_value f t ≡ true
    → (p : Bytes × A) × In p t × (f p.1 ≡ true)
unfolding any_value
In-any_value f [] h = absurd_Bool (sym h)
In-any_value f (q ∷ t) h = elim (Bool-cases (f q.1)) [
  | inl here ↦ (q, inl refl, here)
  | inr other ↦ let (p, m, k) = In-any_value f t (sym (rw other refl) ∙ h) in (p, inr m, k)
]

pub Usable-skipped : (r : Registry) (c : SlaveInfo) → Usable r c → skipped r c ≡ false
unfolding skipped is_down
Usable-skipped r c (up, online) =
    elim (Bool-cases (any_value (λ (st : MasterState). st.down c.addr) r.masters)) [
      | inl down ↦ absurd (up (In-any_value (λ st. st.down c.addr) r.masters down))
      | inr here ↦ ground (arith, bytes_eq_iff c.state [], bytes_eq_iff c.state (codes "online"))
    ]

not_skipped_up : (r : Registry) (c : SlaveInfo) → skipped r c ≡ false → is_down r c.addr ≡ false
unfolding skipped
not_skipped_up r c h = ground arith

Down-is_down : (r : Registry) (a : Bytes) → Down r a → is_down r a ≡ true
unfolding is_down
Down-is_down r a (p, m, d) = any_value-In (λ st. st.down a) p r.masters m d

pub skipped-Usable : (r : Registry) (c : SlaveInfo) → skipped r c ≡ false → Usable r c
unfolding skipped
skipped-Usable r c h = (
  λ down. absurd_Bool (sym (Down-is_down r c.addr down) ∙ not_skipped_up r c h),
  ground (arith, bytes_eq_iff c.state [], bytes_eq_iff c.state (codes "online")),
)

get-put_at :
    (i : SlaveInfo) (a : Bytes) (t : Table SlaveInfo) → i.addr ≡ a → get a (put i.addr i t) ≡ some i
get-put_at i a t e = ap (λ k. get k (put i.addr i t)) (sym e) ∙ get-put i.addr i t

-- An entry about another address leaves what the index has.
Unnamed-get :
    (infos : List SlaveInfo) (a : Bytes) (t : Table SlaveInfo)
    → Unnamed infos a
    → get a (index_infos infos t) ≡ get a t
unfolding index_infos
Unnamed-get [] a t h = refl
Unnamed-get (i ∷ infos) a t (other, h) =
    Unnamed-get infos a (put i.addr i t) h ∙ get-put_other i.addr a i t other

LastFor-get :
    (before : List SlaveInfo) (c : SlaveInfo) (after : List SlaveInfo) (a : Bytes)
    (t : Table SlaveInfo)
    → c.addr ≡ a
    → Unnamed after a
    → get a (index_infos (before ++ (c ∷ after)) t) ≡ some c
unfolding index_infos
LastFor-get [] c after a t e h = Unnamed-get after a (put c.addr c t) h ∙ get-put_at c a t e
LastFor-get (i ∷ before) c after a t e h = LastFor-get before c after a (put i.addr i t) e h

LastFor-cases :
    (infos : List SlaveInfo) (a : Bytes) → Unnamed infos a ⊎ ((c : SlaveInfo) × LastFor infos a c)
LastFor-cases [] a = inl tt
LastFor-cases (i ∷ infos) a = elim (LastFor-cases infos a) [
  | inr (c, (before, after, e, same, h)) ↦ inr (c, (i ∷ before, after, ap (◌∷◌ i) e, same, h))
  | inl h ↦ elim (Bool-cases (bytes_eq i.addr a)) [
    | inl same ↦ inr (i, ([], infos, refl, (bytes_eq_iff i.addr a).0 same, h))
    | inr other ↦ inl ((λ e. absurd_Bool (sym ((bytes_eq_iff i.addr a).1 e) ∙ other)), h)
  ]
]

pub candidate-Known :
    (infos : List SlaveInfo) (a : Bytes) → Known infos a (candidate (index_infos infos []) a)
unfolding candidate default_info get
candidate-Known infos a = elim (LastFor-cases infos a) [
  | inl h ↦ rw (candidate, Unnamed-get infos a [] h) (inr (h, refl))
  | inr (c, (before, after, e, same, h)) ↦
      rw (candidate, e, LastFor-get before c after a [] same h) (inl (before, after, refl, same, h))
]

pub Known-candidate :
    (infos : List SlaveInfo) (a : Bytes) (c : SlaveInfo)
    → Known infos a c
    → c ≡ candidate (index_infos infos []) a
unfolding candidate default_info get
Known-candidate infos a c (inl (before, after, e, same, h)) =
    rw (candidate, e, LastFor-get before c after a [] same h) refl
Known-candidate infos a c (inr (h, e)) = rw (candidate, Unnamed-get infos a [] h) e
