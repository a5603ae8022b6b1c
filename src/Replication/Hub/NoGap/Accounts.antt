-- ===== src/Replication/Hub/NoGap/Accounts.antt =====
-- Where a write is that has been appended to the backlog: not yet offered, received, or in the channel.
use gedis.Base.{
  In, In-append_left, In-append_right, In-split, ◌≡◌, ◌⊎◌, inl, inr, refl, sym, ap, ◌∙◌, List, [],
  ◌∷◌, ◌++◌, append_assoc,
}
use gedis.Replication.Backlog.{Op}

abbrev pub flat : List (List Op) → List Op
flat [] = []
flat (batch ∷ batches) = batch ++ flat batches

flat-append : (bs cs : List (List Op)) → flat (bs ++ cs) ≡ flat bs ++ flat cs
flat-append [] cs = refl
flat-append (b ∷ bs) cs = ap (◌++◌ b) (flat-append bs cs) ∙ sym (append_assoc b (flat bs) (flat cs))

In-flat_snoc_left :
    (o : Op) (bs : List (List Op)) (b : List Op) → In o (flat bs) → In o (flat (bs ++ (b ∷ [])))
In-flat_snoc_left o bs b h = rw (flat-append bs (b ∷ [])) (In-append_left o (flat bs) _ h)

In-flat_snoc_right :
    (o : Op) (bs : List (List Op)) (b : List Op) → In o b → In o (flat (bs ++ (b ∷ [])))
In-flat_snoc_right o bs b h =
    rw (flat-append bs (b ∷ [])) (In-append_right o (flat bs) _ (In-append_left o b [] h))

abbrev pub Accounted : Op → List Op → List (List Op) → List (List Op) → Type 0
Accounted o pending received buf = In o pending ⊎ In o (flat received) ⊎ In o (flat buf)

pub Accounted-append :
    (o : Op) (pending more : List Op) (received buf : List (List Op))
    → Accounted o pending received buf
    → Accounted o (pending ++ more) received buf
Accounted-append o pending more received buf (inl h) = inl (In-append_left o pending more h)
Accounted-append o pending more received buf (inr h) = inr h

pub Accounted-broadcast :
    (o : Op) (xs : List Op) (op : Op) (ys : List Op) (received buf : List (List Op))
    → Accounted o (xs ++ (op ∷ ys)) received buf
    → Accounted o (xs ++ ys) received (buf ++ ((op ∷ []) ∷ []))
Accounted-broadcast o xs op ys received buf (inl h) = elim (In-split o xs (op ∷ ys) h) [
  | inl a ↦ inl (In-append_left o xs ys a)
  | inr (inl e) ↦ inr (inr (In-flat_snoc_right o buf (op ∷ []) (inl e)))
  | inr (inr b) ↦ inl (In-append_right o xs ys b)
]
Accounted-broadcast o xs op ys received buf (inr (inl h)) = inr (inl h)
Accounted-broadcast o xs op ys received buf (inr (inr h)) =
    inr (inr (In-flat_snoc_left o buf (op ∷ []) h))

pub Accounted-receive :
    (o : Op) (pending : List Op) (received : List (List Op)) (batch : List Op)
    (rest : List (List Op))
    → Accounted o pending received (batch ∷ rest)
    → Accounted o pending (received ++ (batch ∷ [])) rest
Accounted-receive o pending received batch rest (inl h) = inl h
Accounted-receive o pending received batch rest (inr (inl h)) =
    inr (inl (In-flat_snoc_left o received batch h))
Accounted-receive o pending received batch rest (inr (inr h)) =
    elim (In-split o batch (flat rest) h) [
      | inl a ↦ inr (inl (In-flat_snoc_right o received batch a))
      | inr b ↦ inr (inr b)
    ]
