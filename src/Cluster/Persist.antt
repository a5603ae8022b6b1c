-- ===== src/Cluster/Persist.antt =====
-- The text of a snapshot: internal/cluster/snapshot.go.
pub mod Owners
use gedis.Base.{
  ℕ, zero, suc, ◌-◌, Bool, true, false, ◌||◌, Option, none, some, List, [], ◌∷◌, ◌++◌,
  if◌then◌else◌, ◌==◌, ltb, Bytes, bytes_eq, codes, length, Result, ok, err, panic, out_of_fuel,
  ◌>>=◌,
}
use gedis.Base.Int.{ℤ, pos, negsuc}
use gedis.Base.Text.Decimal.{parse_uint, parse_int, format_uint}
use gedis.Base.Text.Fields.{fields}
use gedis.Cluster.Slot.{num_slots}
use gedis.Cluster.Topology.{TopoNode, Snapshot, at, no_owner}
use gedis.Cluster.Migration.{in_slots, node_at}

pub data SnapshotError : Type 0 where
  bad_epoch_line : SnapshotError
  bad_epoch : SnapshotError
  bad_line : SnapshotError
  bad_slot : SnapshotError
  unknown_id : Bytes → SnapshotError
  missing_epoch : SnapshotError

-- A line of the text: its words with a space between them.
unfoldable pub words_line : List Bytes → Bytes
words_line [] = codes "\n"
words_line (w ∷ []) = w ++ codes "\n"
words_line (w ∷ v ∷ ws) = w ++ codes " " ++ words_line (v ∷ ws)

-- The id that stands for an owner.
unfoldable pub owner_id : List TopoNode → ℤ → Bytes
owner_id nodes idx = elim (node_at nodes idx) [ none ↦ codes "-" | some n ↦ n.id ]

-- The lines of the slots from `slot` on, `n` of them.
unfoldable pub owner_lines : List TopoNode → (ℕ → ℤ) → ℕ → ℕ → Bytes
owner_lines nodes owner zero slot = []
owner_lines nodes owner (suc n) slot =
    words_line (codes "owner" ∷ format_uint slot ∷ owner_id nodes (owner slot) ∷ [])
    ++ owner_lines nodes owner n (suc slot)

-- The lines of a map, in the order of the slots; Go visits a map in any order.
unfoldable pub entry_lines : Bytes → (ℕ → Option Bytes) → ℕ → ℕ → Bytes
entry_lines word entries zero slot = []
entry_lines word entries (suc n) slot =
    elim (entries slot) [ none ↦ [] | some id ↦ words_line (word ∷ format_uint slot ∷ id ∷ []) ]
    ++ entry_lines word entries n (suc slot)

-- `MarshalSnapshot`.
unfoldable pub marshal_snapshot : Snapshot → List TopoNode → Bytes
marshal_snapshot snap nodes =
    words_line (codes "epoch" ∷ format_uint snap.epoch ∷ [])
    ++ owner_lines nodes snap.owner num_slots 0
    ++ entry_lines (codes "migrating") snap.migrating num_slots 0
    ++ entry_lines (codes "importing") snap.importing num_slots 0

-- `byID`: the last node with the id.
unfoldable pub last_with_id : List TopoNode → Bytes → ℕ → Option ℕ
last_with_id [] id i = none
last_with_id (n ∷ ns) id i = elim (last_with_id ns id (suc i)) [
  | some j ↦ some j
  | none ↦ if bytes_eq n.id id then some i else none
]

unfoldable pub slot_of : Bytes → Result SnapshotError ℕ
slot_of text = elim (parse_int text) [
  | none ↦ err bad_slot
  | some s ↦ elim (in_slots s) [ none ↦ err bad_slot | some n ↦ ok n ]
]

-- The snapshot so far, and whether a line with the epoch was seen.
abbrev pub Loading : Type 0
Loading = Snapshot × Bool

unfoldable pub owner_line : List TopoNode → Loading → ℕ → Bytes → Result SnapshotError Loading
owner_line nodes l slot id =
    if bytes_eq id (codes "-")
    then ok (record l.0 { owner = at l.0.owner slot no_owner }, l.1)
    else elim (last_with_id nodes id 0) [
      | none ↦ err (unknown_id id)
      | some i ↦ ok (record l.0 { owner = at l.0.owner slot (pos i) }, l.1)
    ]

-- A line of three words, after its slot is read.
unfoldable pub slot_rest :
    List TopoNode → Loading → Bytes → Bytes → ℕ → Result SnapshotError Loading
slot_rest nodes l word id slot =
    if bytes_eq word (codes "owner")
    then owner_line nodes l slot id
    else if bytes_eq word (codes "migrating")
    then ok (record l.0 { migrating = at l.0.migrating slot (some id) }, l.1)
    else ok (record l.0 { importing = at l.0.importing slot (some id) }, l.1)

unfoldable pub slot_line :
    List TopoNode → Loading → Bytes → Bytes → Bytes → Result SnapshotError Loading
slot_line nodes l word slot_text id = slot_of slot_text >>= slot_rest nodes l word id

unfoldable pub epoch_line : Loading → List Bytes → Result SnapshotError Loading
epoch_line l (text ∷ []) = elim (parse_uint text) [
  | none ↦ err bad_epoch
  | some n ↦ ok (record l.0 { epoch = n }, true)
]
epoch_line l _ = err bad_epoch_line

unfoldable pub is_slot_word : Bytes → Bool
is_slot_word word =
    bytes_eq word (codes "owner")
    || (bytes_eq word (codes "migrating") || bytes_eq word (codes "importing"))

unfoldable pub slot_words :
    List TopoNode → Loading → Bytes → List Bytes → Result SnapshotError Loading
slot_words nodes l word (slot_text ∷ id ∷ []) = slot_line nodes l word slot_text id
slot_words nodes l word _ = err bad_line

-- What `UnmarshalSnapshot` does with the words of a line.
unfoldable pub read_words : List TopoNode → Loading → List Bytes → Result SnapshotError Loading
read_words nodes l [] = ok l
read_words nodes l (word ∷ ws) =
    if bytes_eq word (codes "epoch")
    then epoch_line l ws
    else if is_slot_word word
    then slot_words nodes l word ws
    else err bad_line

-- The lines of the text, without their ends; nothing after the last "\n" is no line.
unfoldable pub lines_from : Bytes → Bytes → List Bytes
lines_from cur [] = if bytes_eq cur [] then [] else cur ∷ []
lines_from cur (c ∷ s) =
    let more = lines_from (cur ++ (c ∷ [])) s in
    let next = cur ∷ lines_from [] s in if c == 10 then next else more

unfoldable pub read_lines : List TopoNode → Loading → List Bytes → Result SnapshotError Loading
read_lines nodes l [] = ok l
read_lines nodes l (line ∷ rest) = do m ← read_words nodes l (fields line); read_lines nodes m rest

unfoldable pub empty_snapshot : Snapshot
empty_snapshot = record {
  owner = (λ s. no_owner);
  migrating = (λ s. none);
  importing = (λ s. none);
  epoch = 0;
}

unfoldable pub seen_epoch : Loading → Result SnapshotError Snapshot
seen_epoch l = if l.1 then ok l.0 else err missing_epoch

-- `UnmarshalSnapshot`, of a text whose lines are shorter than the scanner's buffer of 2 ^ 20 bytes.
unfoldable pub unmarshal_snapshot : Bytes → List TopoNode → Result SnapshotError Snapshot
unmarshal_snapshot text nodes =
    read_lines nodes (empty_snapshot, false) (lines_from [] text) >>= seen_epoch
