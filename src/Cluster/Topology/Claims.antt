-- ===== src/Cluster/Topology/Claims.antt =====
-- A topology that `Build` of internal/cluster/topo.go makes gives every node the slots it lists.
use gedis.Base.{
  ℕ, zero, suc, ◌+◌, ◌<◌, ◌≤◌, ◌≡◌, ◌⊎◌, inl, inr, refl, sym, ap, ◌∙◌, true, false, Option, none,
  some, List, [], ◌∷◌, ◌++◌, ◌==◌, length, In, Bytes, bytes_eq, absurd_Bool, ==_iff, Bool-cases,
  Option-cases, Result, ok, err, bind-eq-ok, ok-injective, arith,
}
use gedis.Base.Int.{pos, negsuc, ltb_ℤ, pos_part, ◌≤ℤ◌}
use gedis.Cluster.Slot.{Range, num_slots}
use gedis.Cluster.Topology.{
  TopoNode, Topology, TopologyError, claimed_twice, missing_addr, invalid_node_addr,
  invalid_server_addr, no_owner, empty_topology, own, slots_in, claim_slots, claim_ranges,
  split_addr, node_of, with_node, self_after, specs_or_self, build_nodes, finish_build, build,
}

-- What has an owner keeps it, and the nodes stay.
abbrev Extends : Topology → Topology → Type 0
Extends t u =
    ((x : ℕ) → ltb_ℤ (t.owner x) (pos 0) ≡ false → u.owner x ≡ t.owner x) × (u.nodes ≡ t.nodes)

absurd_claim {ℓ} :
    {A : Type ℓ} (s : ℕ) (u : Topology)
    → Path (Result TopologyError Topology) (err (claimed_twice s)) (ok u)
    → A
absurd_claim s u h = cc

own-owner : (k s : ℕ) (t : Topology) → (own (pos k) t s).owner s ≡ pos k
unfolding own
own-owner k s t = ground arith

own-owner_other :
    (k s x : ℕ) (t : Topology)
    → ltb_ℤ (t.owner s) (pos 0) ≡ true
    → ltb_ℤ (t.owner x) (pos 0) ≡ false
    → (own (pos k) t s).owner x ≡ t.owner x
unfolding own
own-owner_other k s x t free taken = elim (Bool-cases (x == s)) [
  | inl same ↦ absurd_Bool (sym free ∙ rw (← (==_iff x s).0 same) taken)
  | inr other ↦ rw other refl
]

own-nodes : (k s : ℕ) (t : Topology) → (own (pos k) t s).nodes ≡ t.nodes
unfolding own
own-nodes k s t = refl

claimed_step :
    (k n s : ℕ) (t u : Topology)
    → ltb_ℤ (t.owner s) (pos 0) ≡ true
    → Extends (own (pos k) t s) u × ((x : ℕ) → suc s ≤ x → x < suc s + n → u.owner x ≡ pos k)
    → Extends t u × ((x : ℕ) → s ≤ x → x < s + suc n → u.owner x ≡ pos k)
claimed_step k n s t u free ((keeps, same), later) = (
  (
    λ x taken.
        keeps x (rw (own-owner_other k s x t free taken) taken)
        ∙ own-owner_other k s x t free taken,
    same ∙ own-nodes k s t,
  ),
  λ x a b. elim (Bool-cases (x == s)) [
    | inl here ↦
        rw ((==_iff x s).0 here) (keeps s (rw (own-owner k s t) (ground arith)) ∙ own-owner k s t)
    | inr other ↦ later x (ground arith) (omega arith)
  ],
)

Extends-claim_slots :
    (k n s : ℕ) (t u : Topology)
    → claim_slots (pos k) n s t ≡ ok u
    → Extends t u × ((x : ℕ) → s ≤ x → x < s + n → u.owner x ≡ pos k)
unfolding claim_slots
Extends-claim_slots k zero s t u h =
    rw (← ok-injective h) ((λ x taken. refl, refl), λ x a b. absurd (omega arith))
Extends-claim_slots k (suc n) s t u h = elim (Bool-cases (ltb_ℤ (t.owner s) (pos 0))) [
  | inr taken ↦ absurd_claim s u (sym (rw taken refl) ∙ h)
  | inl free ↦
      claimed_step k n s t u free
        (Extends-claim_slots k n (suc s) (own (pos k) t s) u (sym (rw free refl) ∙ h))
]

-- The slots that the loops of `Build` visit for a range.
abbrev Covers : Range → ℕ → Type 0
Covers r x = (pos_part r.0 ≤ x) × (x < pos_part r.0 + slots_in r)

Covers-between : (r : Range) (x : ℕ) → r.0 ≤ℤ pos x → pos x ≤ℤ r.1 → x < num_slots → Covers r x
unfolding slots_in
Covers-between (pos lo, pos hi) x a b c = (omega arith, ground arith)
Covers-between (pos lo, negsuc hi) x a b c = absurd (omega arith)
Covers-between (negsuc lo, pos hi) x a b c = (omega arith, ground arith)
Covers-between (negsuc lo, negsuc hi) x a b c = absurd (omega arith)

Extends-trans : (t u v : Topology) → Extends t u → Extends u v → Extends t v
Extends-trans t u v (keeps, same) (keeps_on, same_on) =
    (λ x taken. keeps_on x (rw (keeps x taken) taken) ∙ keeps x taken, same_on ∙ same)

Extends-claim_ranges :
    (k : ℕ) (rs : List Range) (t u : Topology)
    → claim_ranges (pos k) rs t ≡ ok u
    → Extends t u × ((r : Range) → In r rs → (x : ℕ) → Covers r x → u.owner x ≡ pos k)
unfolding claim_ranges
Extends-claim_ranges k [] t u h =
    rw (← ok-injective h) ((λ x taken. refl, refl), λ r i x c. elim i [ ])
Extends-claim_ranges k (q ∷ rs) t u h =
    let (m, first, tail) = bind-eq-ok (claim_slots (pos k) (slots_in q) (pos_part q.0) t) _ h in
    let (here, owned) = Extends-claim_slots k (slots_in q) (pos_part q.0) t m first in
    let (later, rest) = Extends-claim_ranges k rs m u tail in
    (
      Extends-trans t m u here later,
      λ r i x c. elim i [
        | inl same ↦
            let at_x : m.owner x ≡ pos k = owned x (rw (← same) c.0) (rw (← same) c.1) in
            later.0 x (rw at_x (ground arith)) ∙ at_x
        | inr more ↦ rest r more x c
      ],
    )

-- The node at a place of the list.
abbrev pub ListedAt : List TopoNode → ℕ → TopoNode → Type 0
ListedAt [] j n = ⊥
ListedAt (m ∷ ms) zero n = m ≡ n
ListedAt (m ∷ ms) (suc j) n = ListedAt ms j n

ListedAt-append :
    (ms : List TopoNode) (m n : TopoNode) (j : ℕ)
    → ListedAt (ms ++ (m ∷ [])) j n
    → ListedAt ms j n ⊎ ((j ≡ length ms) × (m ≡ n))
ListedAt-append [] m n zero h = inr (refl, h)
ListedAt-append [] m n (suc j) h = elim h [ ]
ListedAt-append (q ∷ ms) m n zero h = inl h
ListedAt-append (q ∷ ms) m n (suc j) h = elim (ListedAt-append ms m n j h) [
  | inl old ↦ inl old
  | inr (e, same) ↦ inr (ap suc e, same)
]

abbrev Claims : Topology → Type 0
Claims t =
    (j : ℕ) (n : TopoNode)
    → ListedAt t.nodes j n
    → (r : Range) → In r n.ranges
    → (x : ℕ) → Covers r x
    → t.owner x ≡ pos j

Claims-claim_ranges :
    (t u : Topology) (m : TopoNode)
    → claim_ranges (pos (length t.nodes)) m.ranges (with_node t m) ≡ ok u
    → Claims t
    → Claims u
Claims-claim_ranges t u m h claims =
    let (ext, owned) = Extends-claim_ranges (length t.nodes) m.ranges (with_node t m) u h in
    λ j n listed r i x c. elim (ListedAt-append t.nodes m n j (rw (← ext.1) listed)) [
      | inl old ↦
          let before : t.owner x ≡ pos j = claims j n old r i x c in
          ext.0 x (rw before (ground arith)) ∙ before
      | inr (e, same) ↦ rw e (owned r (rw same i) x c)
    ]

no_error {ℓ} :
    {A : Type ℓ} (e : TopologyError) (p : Option ℕ × Topology)
    → Path (Result TopologyError (Option ℕ × Topology)) (err e) (ok p)
    → A
no_error e p h = cc

no_topology {ℓ} :
    {A : Type ℓ} (t : Topology)
    → Path (Result TopologyError Topology) (err invalid_server_addr) (ok t)
    → A
no_topology t h = cc

Claims-empty_topology : Claims (empty_topology true no_owner)
unfolding empty_topology
Claims-empty_topology j n listed r i x c = elim listed [ ]

Claims-build_nodes :
    (derive_id : Bytes → Bytes) (self_addr : Bytes × Bytes) (specs : List TopoNode)
    (here : Option ℕ) (t : Topology) (p : Option ℕ × Topology)
    → build_nodes derive_id self_addr specs here t ≡ ok p
    → Claims t
    → Claims p.1
unfolding build_nodes
Claims-build_nodes derive_id self_addr [] here t p h claims = rw (← ok-injective h) claims
Claims-build_nodes derive_id self_addr (s ∷ specs) here t p h claims =
    elim (Bool-cases (bytes_eq s.addr [])) [
      | inl empty ↦ no_error missing_addr p (sym (rw (build_nodes, empty) refl) ∙ h)
      | inr named ↦ elim (Option-cases (split_addr s.addr)) [
        | inl bad ↦
            no_error (invalid_node_addr s.addr) p (sym (rw (build_nodes, named, bad) refl) ∙ h)
        | inr (hp, good) ↦
            let m : TopoNode = node_of derive_id s in
            let (u, claimed, tail) =
              bind-eq-ok (claim_ranges (pos (length t.nodes)) m.ranges (with_node t m))
                (λ u.
                  build_nodes derive_id self_addr specs
                    (self_after here self_addr hp (length t.nodes)) u)
                (sym (rw (build_nodes, named, good) refl) ∙ h) in
            Claims-build_nodes derive_id self_addr specs
              (self_after here self_addr hp (length t.nodes)) u p tail
              (Claims-claim_ranges t u m claimed claims)
      ]
    ]

Claims-finish_build :
    (p : Option ℕ × Topology) (t : Topology) → finish_build p ≡ ok t → Claims p.1 → Claims t
unfolding finish_build
Claims-finish_build (none, u) t h claims = cc
Claims-finish_build (some i, u) t h claims = rw (← ok-injective h) claims

-- Where `Build` succeeds, every slot within a range of a node of the topology has the place of that
-- node as its owner.
pub build-claims :
    (derive_id : Bytes → Bytes) (self_addr : Bytes) (specs : List TopoNode) (t : Topology) (j : ℕ)
    (n : TopoNode) (r : Range) (x : ℕ)
    → build derive_id self_addr specs ≡ ok t
    → ListedAt t.nodes j n
    → In r n.ranges
    → r.0 ≤ℤ pos x
    → pos x ≤ℤ r.1
    → x < num_slots
    → t.owner x ≡ pos j
unfolding build
build-claims derive_id self_addr specs t j n r x h listed i a b c =
    elim (Option-cases (split_addr self_addr)) [
      | inl bad ↦ no_topology t (sym (rw (build, bad) refl) ∙ h)
      | inr (self, good) ↦
          let (p, nodes, finished) =
            bind-eq-ok
              (build_nodes derive_id self (specs_or_self self_addr specs) none
                (empty_topology true no_owner))
              finish_build (sym (rw (build, good) refl) ∙ h) in
          Claims-finish_build p t finished
            (Claims-build_nodes derive_id self (specs_or_self self_addr specs) none
              (empty_topology true no_owner) p nodes Claims-empty_topology)
            j n listed r i x (Covers-between r x a b c)
    ]
