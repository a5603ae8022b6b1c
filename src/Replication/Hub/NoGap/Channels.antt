-- ===== src/Replication/Hub/NoGap/Channels.antt =====
-- The steps of internal/replication/hub.go at the channels: receive, subscribe, unsubscribe, close.
use gedis.Replication.Hub.NoGap.Claim.{Inv}
use gedis.Replication.Hub.NoGap.Accounts.{Accounted-receive}
use gedis.Replication.Hub.NoGap.Steps.{Sys}
use gedis.Base.{ℕ, ◌+◌, ◌≡◌, false, Option, some, List, [], ◌∷◌, ◌++◌, arith}
use gedis.Base.Int.{ℤ}
use gedis.Replication.Backlog.{Op}
use gedis.Replication.Hub.{Channel, eq_ℤ, update, subscribe, unsubscribe, close}

update_self {ℓ} : {A : Type ℓ} (f : ℤ → A) (id : ℤ) (v : A) → update f id v id ≡ v
update_self f id v = ground arith

module _ (id : ℤ) (max : ℕ) (history : List Op) where
  pub Inv-receive :
      (n : ℕ) (s : Sys) (batch : List Op) (rest : Channel)
      → s.hub.subs id ≡ some (batch ∷ rest)
      → Inv id max history n s
      → Inv id max history (n + 1) (record s {
        hub = record s.hub { subs = update s.hub.subs id (some rest) };
        received = s.received ++ (batch ∷ []);
      })
  Inv-receive n s batch rest e v = record {
    new = v.new;
    few = omega (arith, v.few);
    logged = v.logged;
    holds = v.holds;
    seen = λ buf' open_now o h.
        let same : rest ≡ buf' = ground (arith, update_self s.hub.subs id (some rest)) in
        rw (← same)
          (Accounted-receive o s.pending s.received batch rest (v.seen (batch ∷ rest) e o h));
  }

  pub Inv-receive_other :
      (n : ℕ) (s : Sys) (j : ℤ) (rest : Channel)
      → eq_ℤ id j ≡ false
      → Inv id max history n s
      → Inv id max history
          (n + 1)
          (record s { hub = record s.hub { subs = update s.hub.subs j (some rest) } })
  Inv-receive_other n s j rest other v = record {
    new = v.new;
    few = omega (arith, v.few);
    logged = v.logged;
    holds = v.holds;
    seen = λ buf open_now o h. v.seen buf (ground arith) o h;
  }

  pub Inv-receive_closed :
      (n : ℕ) (s : Sys) (left : ℤ → Option Channel)
      → Inv id max history n s
      → Inv id max history (n + 1) (record s { hub = record s.hub { closed = left } })
  Inv-receive_closed n s left v = record {
    new = v.new;
    few = omega (arith, v.few);
    logged = v.logged;
    holds = v.holds;
    seen = v.seen;
  }

  pub Inv-close :
      (n : ℕ) (s : Sys)
      → Inv id max history n s
      → Inv id max history (n + 1) (record s { hub = close s.hub })
  unfolding close
  Inv-close n s v = record {
    new = v.new;
    few = omega (arith, v.few);
    logged = v.logged;
    holds = v.holds;
    seen = λ buf open_now. cc;
  }

  pub Inv-subscribe :
      (n : ℕ) (s : Sys)
      → eq_ℤ id (subscribe s.hub).0 ≡ false
      → Inv id max history n s
      → Inv id max history (n + 1) (record s { hub = (subscribe s.hub).1 })
  unfolding subscribe
  Inv-subscribe n s other v = record {
    new = v.new;
    few = omega (arith, v.few);
    logged = v.logged;
    holds = v.holds;
    seen = λ buf open_now o h. v.seen buf (ground arith) o h;
  }

  pub Inv-unsubscribe :
      (n : ℕ) (s : Sys) (j : ℤ)
      → Inv id max history n s
      → Inv id max history (n + 1) (record s { hub = unsubscribe s.hub j })
  unfolding unsubscribe
  Inv-unsubscribe n s j v = record {
    new = v.new;
    few = omega (arith, v.few);
    logged = v.logged;
    holds = v.holds;
    seen = λ buf open_now o h. v.seen buf (ground arith) o h;
  }
