-- ===== src/Cluster/Persist/Owners.antt =====
-- A snapshot that `UnmarshalSnapshot` of internal/cluster/snapshot.go reads names nodes only.
use gedis.Base.{
  ℕ, suc, ◌+◌, ◌<◌, ◌≡◌, inl, inr, refl, sym, ◌∙◌, true, false, some, List, [], ◌∷◌, ◌==◌, Bytes,
  bytes_eq, codes, length, Bool-cases, Option-cases, Result, ok, err, bind-eq-ok, ok-injective,
  arith,
}
use gedis.Base.Int.{ℤ, pos}
use gedis.Base.Text.Decimal.{parse_uint}
use gedis.Base.Text.Fields.{fields}
use gedis.Cluster.Topology.{TopoNode, Snapshot, at, no_owner}
use gedis.Cluster.Migration.Invariant.{Below}
use gedis.Cluster.Persist.{
  SnapshotError, Loading, last_with_id, slot_of, owner_line, slot_rest, slot_line, seen_epoch,
  epoch_line, is_slot_word, slot_words, read_words, read_lines, lines_from, empty_snapshot,
  unmarshal_snapshot, bad_epoch, bad_epoch_line, bad_line, unknown_id, missing_epoch,
}

-- Every owner so far is a node.
abbrev NodesOnly : List TopoNode → Loading → Type 0
NodesOnly nodes l = (s : ℕ) → Below (l.0.owner s) (length nodes)

last_with_id-bound :
    (ns : List TopoNode) (id : Bytes) (i j : ℕ) → last_with_id ns id i ≡ some j → j < i + length ns
unfolding last_with_id
last_with_id-bound [] id i j h = cc
last_with_id-bound (n ∷ ns) id i j h = ground (arith, last_with_id-bound ns id (suc i) j)

no_load {ℓ} :
    {A : Type ℓ} (e : SnapshotError) (l : Loading)
    → Path (Result SnapshotError Loading) (err e) (ok l)
    → A
no_load e l h = cc

Below-at : (f : ℕ → ℤ) (n s : ℕ) (o : ℤ) (k : ℕ) → Below o k → Below (f s) k → Below (at f n o s) k
Below-at f n s o k here there = elim (Bool-cases (s == n)) [
  | inl same ↦ rw same here
  | inr other ↦ rw other there
]

abbrev with_owner : Loading → ℕ → ℤ → Loading
with_owner l slot o = (record l.0 { owner = at l.0.owner slot o }, l.1)

NodesOnly-with_owner :
    (nodes : List TopoNode) (l m : Loading) (slot : ℕ) (o : ℤ)
    → Path (Result SnapshotError Loading) (ok (with_owner l slot o)) (ok m)
    → Below o (length nodes)
    → NodesOnly nodes l
    → NodesOnly nodes m
NodesOnly-with_owner nodes l m slot o h bound only =
    rw (← ok-injective h) (λ s. Below-at l.0.owner slot s o (length nodes) bound (only s))

NodesOnly-owner_line :
    (nodes : List TopoNode) (l m : Loading) (slot : ℕ) (id : Bytes)
    → owner_line nodes l slot id ≡ ok m
    → NodesOnly nodes l
    → NodesOnly nodes m
unfolding owner_line
NodesOnly-owner_line nodes l m slot id h only = elim (Bool-cases (bytes_eq id (codes "-"))) [
  | inl free ↦
      NodesOnly-with_owner nodes l m slot no_owner (sym (rw (owner_line, free) refl) ∙ h) refl only
  | inr named ↦ elim (Option-cases (last_with_id nodes id 0)) [
    | inl unknown ↦ no_load (unknown_id id) m (sym (rw (owner_line, named, unknown) refl) ∙ h)
    | inr (i, known) ↦
        NodesOnly-with_owner nodes l m slot (pos i) (sym (rw (owner_line, named, known) refl) ∙ h)
          (omega (arith, last_with_id-bound nodes id 0 i known)) only
  ]
]

-- What keeps the owners keeps them nodes.
NodesOnly-same :
    (nodes : List TopoNode) (l k m : Loading)
    → Path (Result SnapshotError Loading) (ok k) (ok m)
    → k.0.owner ≡ l.0.owner
    → NodesOnly nodes l
    → NodesOnly nodes m
NodesOnly-same nodes l k m h same only = rw (← ok-injective h) (λ s. rw same (only s))

NodesOnly-slot_line :
    (nodes : List TopoNode) (l m : Loading) (word slot_text id : Bytes)
    → slot_line nodes l word slot_text id ≡ ok m
    → NodesOnly nodes l
    → NodesOnly nodes m
unfolding slot_line slot_rest
NodesOnly-slot_line nodes l m word slot_text id h only =
    let (slot, found, tail) = bind-eq-ok (slot_of slot_text) (slot_rest nodes l word id) h in
    elim (Bool-cases (bytes_eq word (codes "owner"))) [
      | inl owner ↦
          NodesOnly-owner_line nodes l m slot id (sym (rw (slot_rest, owner) refl) ∙ tail) only
      | inr other ↦ elim (Bool-cases (bytes_eq word (codes "migrating"))) [
        | inl away ↦
            NodesOnly-same nodes l (record l.0 { migrating = at l.0.migrating slot (some id) }, l.1)
              m (sym (rw (slot_rest, other, away) refl) ∙ tail) refl only
        | inr in_from ↦
            NodesOnly-same nodes l (record l.0 { importing = at l.0.importing slot (some id) }, l.1)
              m (sym (rw (slot_rest, other, in_from) refl) ∙ tail) refl only
      ]
    ]

NodesOnly-epoch_line :
    (nodes : List TopoNode) (l m : Loading) (ws : List Bytes)
    → epoch_line l ws ≡ ok m
    → NodesOnly nodes l
    → NodesOnly nodes m
unfolding epoch_line
NodesOnly-epoch_line nodes l m [] h only = no_load bad_epoch_line m h
NodesOnly-epoch_line nodes l m (text ∷ []) h only = elim (Option-cases (parse_uint text)) [
  | inl bad ↦ no_load bad_epoch m (sym (rw (epoch_line, bad) refl) ∙ h)
  | inr (n, good) ↦
      NodesOnly-same nodes l (record l.0 { epoch = n }, true) m
        (sym (rw (epoch_line, good) refl) ∙ h) refl only
]
NodesOnly-epoch_line nodes l m (text ∷ v ∷ ws) h only = no_load bad_epoch_line m h

NodesOnly-slot_words :
    (nodes : List TopoNode) (l m : Loading) (word : Bytes) (ws : List Bytes)
    → slot_words nodes l word ws ≡ ok m
    → NodesOnly nodes l
    → NodesOnly nodes m
unfolding slot_words
NodesOnly-slot_words nodes l m word [] h only = no_load bad_line m h
NodesOnly-slot_words nodes l m word (a ∷ []) h only = no_load bad_line m h
NodesOnly-slot_words nodes l m word (a ∷ b ∷ []) h only =
    NodesOnly-slot_line nodes l m word a b h only
NodesOnly-slot_words nodes l m word (a ∷ b ∷ c ∷ ws) h only = no_load bad_line m h

NodesOnly-read_words :
    (nodes : List TopoNode) (l m : Loading) (ws : List Bytes)
    → read_words nodes l ws ≡ ok m
    → NodesOnly nodes l
    → NodesOnly nodes m
unfolding read_words
NodesOnly-read_words nodes l m [] h only = NodesOnly-same nodes l l m h refl only
NodesOnly-read_words nodes l m (word ∷ ws) h only =
    elim (Bool-cases (bytes_eq word (codes "epoch"))) [
      | inl epoch ↦ NodesOnly-epoch_line nodes l m ws (sym (rw (read_words, epoch) refl) ∙ h) only
      | inr other ↦ elim (Bool-cases (is_slot_word word)) [
        | inl slot ↦
            NodesOnly-slot_words nodes l m word ws (sym (rw (read_words, other, slot) refl) ∙ h)
              only
        | inr bad ↦ no_load bad_line m (sym (rw (read_words, other, bad) refl) ∙ h)
      ]
    ]

NodesOnly-read_lines :
    (nodes : List TopoNode) (l m : Loading) (lines : List Bytes)
    → read_lines nodes l lines ≡ ok m
    → NodesOnly nodes l
    → NodesOnly nodes m
unfolding read_lines
NodesOnly-read_lines nodes l m [] h only = NodesOnly-same nodes l l m h refl only
NodesOnly-read_lines nodes l m (line ∷ rest) h only =
    let (k, first, tail) =
      bind-eq-ok (read_words nodes l (fields line)) (λ k. read_lines nodes k rest) h in
    NodesOnly-read_lines nodes k m rest tail
      (NodesOnly-read_words nodes l k (fields line) first only)

no_snapshot {ℓ} :
    {A : Type ℓ} (e : SnapshotError) (s : Snapshot)
    → Path (Result SnapshotError Snapshot) (err e) (ok s)
    → A
no_snapshot e s h = cc

seen_epoch-true : (l : Loading) → l.1 ≡ true → seen_epoch l ≡ ok l.0
unfolding seen_epoch
seen_epoch-true l h = rw (seen_epoch, h) refl

seen_epoch-false : (l : Loading) → l.1 ≡ false → seen_epoch l ≡ err missing_epoch
unfolding seen_epoch
seen_epoch-false l h = rw (seen_epoch, h) refl

-- Where `UnmarshalSnapshot` succeeds, each slot's owner is -1 or the place of one of the nodes.
pub unmarshal_snapshot-Below :
    (text : Bytes) (nodes : List TopoNode) (snap : Snapshot) (s : ℕ)
    → unmarshal_snapshot text nodes ≡ ok snap
    → Below (snap.owner s) (length nodes)
unfolding unmarshal_snapshot empty_snapshot
unmarshal_snapshot-Below text nodes snap s h =
    let (l, loaded, tail) =
      bind-eq-ok (read_lines nodes (empty_snapshot, false) (lines_from [] text)) seen_epoch h in
    elim (Bool-cases l.1) [
      | inl seen ↦ rw (← ok-injective (sym (seen_epoch-true l seen) ∙ tail)) (
          NodesOnly-read_lines nodes (empty_snapshot, false) l (lines_from [] text) loaded
            (λ x. refl) s)
      | inr missing ↦ no_snapshot missing_epoch snap (sym (seen_epoch-false l missing) ∙ tail)
    ]
