-- ===== src/Replication/Hub/NoGap/Invariant.antt =====
-- Every step of internal/replication/hub.go keeps each write of the backlog accounted for.
use gedis.Replication.Hub.NoGap.Claim.{Inv}
use gedis.Replication.Hub.NoGap.Channels.{
  Inv-receive, Inv-receive_other, Inv-receive_closed, Inv-subscribe, Inv-unsubscribe, Inv-close,
}
use gedis.Replication.Hub.NoGap.Accounts.{Accounted-append, Accounted-broadcast}
use gedis.Replication.Hub.NoGap.Steps.{
  Sys, Step, append_one, broadcast_one, receive_one, receive_other, receive_closed, subscribe_other,
  unsubscribe_one, close_all, Run, start, more,
}
use gedis.Base.{
  In, In-split, In-append_right, ℕ, ◌+◌, ◌^◌, ◌<◌, ◌≡◌, ◌⊎◌, inl, inr, refl, sym, ap, ◌∙◌, Option,
  none, some, List, [], ◌∷◌, ◌++◌, length, length-append, append_assoc, append-nil, arith,
}
use gedis.Base.Int.{ℤ, pos}
use gedis.Replication.Backlog
use gedis.Replication.Backlog.{Op, Backlog}
use gedis.Replication.Backlog.History.{numbered, numbered-snoc, backlog_of, append-backlog_of}
use gedis.Replication.Hub.{Channel, update, offer, publish_append, publish_broadcast}

offer-some :
    (op : Op) (c : Option Channel) (buf' : Channel)
    → offer op c ≡ some buf'
    → (buf : Channel) × (c ≡ some buf) × (buf' ≡ buf ++ ((op ∷ []) ∷ []))
unfolding offer
offer-some op none buf' e = cc
offer-some op (some buf) buf' e = (buf, refl, ground arith)

module _ (id : ℤ) (max : ℕ) (history : List Op) where
  module _ (new : List Op) (b : Backlog) (op : Op) (holds : b ≡ backlog_of max (history ++ new))
      (small : length history + length new + 1 < 2 ^ 63) where
    appended :
        Backlog.append b op
        ≡ (pos (length history + length new + 1), backlog_of max (history ++ (new ++ (op ∷ []))))
    appended =
        rw (holds, ← length-append history new, ← append_assoc history new (op ∷ []))
          (append-backlog_of max (history ++ new) op (omega (arith, length-append history new)))

    newly_pending :
        (o : Op)
        → In o (numbered (length history) (new ++ (op ∷ [])))
        → In o (numbered (length history) new)
          ⊎ (o ≡ record op { offset = (Backlog.append b op).0 })
    newly_pending o h =
        elim (In-split o (numbered (length history) new) _
          (rw (numbered-snoc (length history) (length history + length new) new op refl) at h)) [
            | inl old ↦ inl old
            | inr (inl e) ↦
                inr (e ∙ ap (λ (p : ℤ × Backlog). record op { offset = p.0 }) (sym appended))
            | inr (inr none_left) ↦ elim none_left [ ]
          ]

  Inv-append :
      (n : ℕ) (s : Sys) (op : Op)
      → length history + n + 1 < 2 ^ 63
      → Inv id max history n s
      → Inv id max history (n + 1) (record s {
        hub = (publish_append s.hub op).1;
        pending = s.pending ++ ((publish_append s.hub op).0 ∷ []);
        log = s.log ++ (op ∷ []);
      })
  unfolding publish_append
  Inv-append n s op small v =
      let fits : length history + length v.new + 1 < 2 ^ 63 = omega (arith, v.few) in
      record {
        new = v.new ++ (op ∷ []);
        few = omega (arith, v.few, length-append v.new (op ∷ []));
        logged = ap (λ l. l ++ (op ∷ [])) v.logged ∙ append_assoc history v.new (op ∷ []);
        holds = ap (λ (p : ℤ × Backlog). p.1) (appended v.new s.hub.backlog op v.holds fits);
        seen = λ buf open_now o h. elim (newly_pending v.new s.hub.backlog op v.holds fits o h) [
          | inl old ↦ Accounted-append o s.pending _ s.received buf (v.seen buf open_now o old)
          | inr now ↦ inl (In-append_right o s.pending _ (inl now))
        ];
      }

  Inv-broadcast :
      (n : ℕ) (s : Sys) (xs : List Op) (op : Op) (ys : List Op)
      → s.pending ≡ xs ++ (op ∷ ys)
      → Inv id max history n s
      → Inv id max history
          (n + 1)
          (record s { hub = publish_broadcast s.hub op; pending = xs ++ ys })
  unfolding publish_broadcast
  Inv-broadcast n s xs op ys e v = record {
    new = v.new;
    few = omega (arith, v.few);
    logged = v.logged;
    holds = v.holds;
    seen = λ buf' open_now o h.
        let (buf, was, grew) = offer-some op (s.hub.subs id) buf' open_now in
        rw grew (Accounted-broadcast o xs op ys s.received buf (rw e at (v.seen buf was o h)));
  }

  Inv-Step :
      (n : ℕ) (s t : Sys)
      → length history + n + 1 < 2 ^ 63
      → Step id s t
      → Inv id max history n s
      → Inv id max history (n + 1) t
  Inv-Step n s t small (append_one op) v = Inv-append n s op small v
  Inv-Step n s t small (broadcast_one xs op ys e) v = Inv-broadcast n s xs op ys e v
  Inv-Step n s t small (receive_one batch rest e) v = Inv-receive id max history n s batch rest e v
  Inv-Step n s t small (receive_other j batch rest other e) v =
      Inv-receive_other id max history n s j rest other v
  Inv-Step n s t small (receive_closed j batch rest e) v =
      Inv-receive_closed id max history n s (update s.hub.closed j (some rest)) v
  Inv-Step n s t small close_all v = Inv-close id max history n s v
  Inv-Step n s t small (subscribe_other other) v = Inv-subscribe id max history n s other v
  Inv-Step n s t small (unsubscribe_one j) v = Inv-unsubscribe id max history n s j v

  pub Inv-Run :
      {s : Sys} {n : ℕ} {t : Sys}
      → Inv id max history 0 s
      → Run id s n t
      → length history + n < 2 ^ 63
      → Inv id max history n t
  Inv-Run v start small = v
  Inv-Run v (more {n = n} {t = t} {u = u} run step) small =
      Inv-Step n t u (omega arith) step (Inv-Run v run (omega arith))

  pub Inv-start :
      (s : Sys) → s.log ≡ history → s.hub.backlog ≡ backlog_of max history → Inv id max history 0 s
  unfolding numbered
  Inv-start s l h = record {
    new = [];
    few = omega arith;
    logged = l ∙ sym (append-nil history);
    holds = h ∙ ap (backlog_of max) (sym (append-nil history));
    seen = λ buf open_now o none_yet. elim none_yet [ ];
  }
