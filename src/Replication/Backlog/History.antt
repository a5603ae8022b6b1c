-- ===== src/Replication/Backlog/History.antt =====
-- The backlog (internal/replication/backlog.go) against the list of all writes ever appended.
use Prim.Native.Nat.{zero, suc}
use gedis.Base.{
  ℕ, ◌+◌, ◌-◌, ◌^◌, ◌≤◌, ◌<◌, ◌≡◌, refl, sym, ap, ◌∙◌, List, [], ◌∷◌, ◌++◌, ok, err, length, drop,
  length-append, length-drop, ltb, if◌then◌else◌, lt→ltb, le→ltb, arith, append-nil, append_assoc,
}
use native.Mathlib.Decide.{dec_lt}
use gedis.Base.Int.{ℤ, pos, add64, ◌+ℤ◌}
use gedis.Replication.Backlog.{
  Op, stale_offset, Backlog, new_backlog, trim, append, after, since, latest,
}

-- The writes of a list, numbered from `k + 1` on.
unfoldable pub numbered : ℕ → List Op → List Op
numbered k [] = []
numbered k (op ∷ ops) = record op { offset = pos (k + 1) } ∷ numbered (k + 1) ops

-- The backlog of capacity `max` after the writes of `history`, the oldest first: the last `max` of
-- them, with their numbers in the history.
unfoldable pub backlog_of : ℕ → List Op → Backlog
backlog_of max history =
    let k = length history - max in
    record {
      max = max;
      ops = numbered k (drop k history);
      base = pos k;
      next = pos (length history);
    }

add64_small : (a b : ℕ) → a + b < 2 ^ 63 → add64 (pos a) (pos b) ≡ pos (a + b)
unfolding add64 ◌+ℤ◌
add64_small a b h = ground arith

length-numbered : (k : ℕ) (ops : List Op) → length (numbered k ops) ≡ length ops
unfolding numbered
length-numbered k [] = refl
length-numbered k (op ∷ ops) = ap suc (length-numbered (k + 1) ops)

drop-snoc :
    (n : ℕ) (xs : List Op) (x : Op)
    → n ≤ length xs
    → drop n (xs ++ (x ∷ [])) ≡ drop n xs ++ (x ∷ [])
drop-snoc zero xs x h = refl
drop-snoc (suc n) [] x h = elim h [ ]
drop-snoc (suc n) (y ∷ xs) x h = drop-snoc n xs x (omega arith)

at_offset :
    {a b : ℕ} (op : Op)
    → a ≡ b
    → ◌≡◌ {A = Op} (record op { offset = pos a }) (record op { offset = pos b })
at_offset op e = rw e

pub numbered-snoc :
    (k n : ℕ) (xs : List Op) (x : Op)
    → k + length xs ≡ n
    → numbered k (xs ++ (x ∷ [])) ≡ numbered k xs ++ (record x { offset = pos (n + 1) } ∷ [])
unfolding numbered
numbered-snoc k n [] x e = ap (λ op. op ∷ []) (at_offset x (omega arith))
numbered-snoc k n (y ∷ xs) x e =
    ap (◌∷◌ (record y { offset = pos (k + 1) })) (numbered-snoc (k + 1) n xs x (omega arith))

drop-numbered :
    (n k j : ℕ) (xs : List Op) → k + n ≡ j → drop n (numbered k xs) ≡ numbered j (drop n xs)
unfolding numbered
drop-numbered zero k j xs e = ap (λ i. numbered i xs) (omega arith)
drop-numbered (suc n) k j [] e = refl
drop-numbered (suc n) k j (x ∷ xs) e = drop-numbered n (k + 1) j xs (omega arith)

drop-drop : (n k j : ℕ) (xs : List Op) → k + n ≡ j → drop n (drop k xs) ≡ drop j xs
drop-drop n zero j xs e = ap (λ i. drop i xs) (omega arith)
drop-drop n (suc k) zero xs e = absurd (omega arith)
drop-drop zero (suc k) (suc j) [] e = refl
drop-drop (suc n) (suc k) (suc j) [] e = refl
drop-drop n (suc k) (suc j) (x ∷ xs) e = drop-drop n k j xs (omega arith)

module _ (max : ℕ) (history : List Op) (op : Op) where
  grown : List Op
  grown = history ++ (op ∷ [])

  kept :
      numbered (length history - max) (drop (length history - max) history)
        ++ (record op { offset = pos (length history + 1) } ∷ [])
      ≡ numbered (length history - max) (drop (length history - max) grown)
  unfolding grown
  kept =
      let k = length history - max in
      sym (
        numbered-snoc k (length history) (drop k history) op (omega (arith, length-drop k history)))
      ∙ ap (numbered k) (sym (drop-snoc k history op (omega arith)))

  length-kept :
      length (numbered (length history - max) (drop (length history - max) grown))
      ≡ length history + 1 - (length history - max)
  unfolding grown
  length-kept = omega (
    arith,
    length-numbered (length history - max) (drop (length history - max) grown),
    length-drop (length history - max) grown,
    length-append history (op ∷ []),
  )

  -- the numbers of the trimmed backlog
  assemble :
      (j : ℕ)
      → j ≡ length grown - max
      → ◌≡◌ {A = Backlog}
          (record {
            max = max;
            ops = numbered j (drop j grown);
            base = pos j;
            next = pos (length history + 1);
          })
          (backlog_of max grown)
  unfolding backlog_of grown
  assemble j e =
      let f : length history + 1 ≡ length (history ++ (op ∷ [])) =
        omega (arith, length-append history (op ∷ [])) in
      λ i. record {
        max = max;
        ops = numbered (e i) (drop (e i) (history ++ (op ∷ [])));
        base = pos (e i);
        next = pos (f i);
      }

  length-grown : length grown ≡ length history + 1
  unfolding grown
  length-grown = omega (arith, length-append history (op ∷ []))

  one_over :
      ¬ (length history < max)
      → length (numbered (length history - max) (drop (length history - max) grown)) - max ≡ 1
  one_over full = omega (arith, length-kept)

  trim_kept :
      length history + 1 < 2 ^ 63
      → trim
          (backlog_of max history)
          (numbered (length history - max) (drop (length history - max) grown))
          (pos (length history + 1))
        ≡ backlog_of max grown
  unfolding trim backlog_of
  trim_kept small = elim (dec_lt (length history) max) [
    | yes room ↦
        rw
          (le→ltb max (length (numbered (length history - max) (drop (length history - max) grown)))
            (omega (arith, length-kept)))
          (unfold backlog_of in assemble (length history - max) (omega (arith, length-grown)))
    | no full ↦
        let k = length history - max in
        rw
          (
            lt→ltb max (length (numbered k (drop k grown))) (omega (arith, length-kept)),
            one_over full,
            drop-numbered 1 k (k + 1) (drop k grown) refl,
            drop-drop 1 k (k + 1) grown refl,
            add64_small k 1 (omega arith),
          )
          (unfold backlog_of in assemble (k + 1) (omega (arith, length-grown)))
  ]

  -- `Append` numbers the write by its place in the history, returns that number, and keeps the last
  -- `max` writes, while the counter is in the range of int64.
  pub append-backlog_of :
      length history + 1 < 2 ^ 63
      → append (backlog_of max history) op
        ≡ (pos (length history + 1), backlog_of max (history ++ (op ∷ [])))
  unfolding append backlog_of grown
  append-backlog_of small =
      rw (add64_small (length history) 1 small, kept)
        (ap (λ (b : Backlog). (pos (length history + 1), b)) (trim_kept small))

after_all : (m k : ℕ) (ops : List Op) → m ≤ k → after (pos m) (numbered k ops) ≡ numbered k ops
unfolding after numbered
after_all m k [] h = refl
after_all m k (op ∷ ops) h = ground (arith, after_all m (k + 1) ops)

after-numbered :
    (n m k : ℕ) (ops : List Op)
    → k + n ≡ m
    → after (pos m) (numbered k ops) ≡ numbered m (drop n ops)
after-numbered zero m k ops e =
    after_all m k ops (omega arith) ∙ ap (λ j. numbered j ops) (omega arith)
after-numbered (suc n) m k [] e = unfold after numbered in refl
after-numbered (suc n) m k (op ∷ ops) e =
    after_first m k op ops (omega arith) ∙ after-numbered n m (k + 1) ops (omega arith)
  where
    after_first :
        (m k : ℕ) (op : Op) (ops : List Op)
        → k < m
        → after (pos m) (numbered k (op ∷ ops)) ≡ after (pos m) (numbered (k + 1) ops)
    after_first m k op ops h = unfold after numbered in ground arith

-- `Since` returns the writes after the given number, all of them and in order, and refuses exactly
-- the numbers whose next write is no longer held.
pub since-backlog_of :
    (max m : ℕ) (history : List Op)
    → since (backlog_of max history) (pos m) ≡ (
        if ltb m (length history - max) then err stale_offset else ok (numbered m (drop m history)))
unfolding since backlog_of
since-backlog_of max m history = elim (dec_lt m (length history - max)) [
  | yes stale ↦ ground arith
  | no held ↦ ground (
    arith,
    after-numbered (m - (length history - max)) m (length history - max)
        (drop (length history - max) history) (omega arith),
    drop-drop (m - (length history - max)) (length history - max) m history (omega arith),
  )
]

-- a server's writes, one after the other
abbrev pub append_all : Backlog → List Op → Backlog
append_all b [] = b
append_all b (op ∷ ops) = append_all (append b op).1 ops

append_all-backlog_of :
    (max : ℕ) (ops history : List Op)
    → length history + length ops < 2 ^ 63
    → append_all (backlog_of max history) ops ≡ backlog_of max (history ++ ops)
append_all-backlog_of max [] history h = ap (backlog_of max) (sym (append-nil history))
append_all-backlog_of max (op ∷ ops) history h =
    ap (λ (p : ℤ × Backlog). append_all p.1 ops) (append-backlog_of max history op (omega arith))
    ∙ append_all-backlog_of max ops (history ++ (op ∷ []))
        (omega (arith, length-append history (op ∷ [])))
    ∙ ap (backlog_of max) (append_assoc history (op ∷ []) ops)

empty_at :
    (max k : ℕ)
    → k ≡ 0
    → ◌≡◌ {A = Backlog}
        (record { max = max; ops = []; base = pos 0; next = pos 0 })
        (record { max = max; ops = numbered k (drop k []); base = pos k; next = pos 0 })
unfolding numbered
empty_at max zero e = refl
empty_at max (suc k) e = absurd (omega arith)

new_backlog-empty : (max : ℤ) → new_backlog max ≡ backlog_of (new_backlog max).max []
unfolding new_backlog backlog_of
new_backlog-empty max = empty_at (new_backlog max).max (0 - (new_backlog max).max) (omega arith)

-- A new backlog that takes any fewer than 2^63 writes holds the last of them, and `Latest` is their
-- number.
pub append_all-new_backlog :
    (max : ℤ) (ops : List Op)
    → length ops < 2 ^ 63
    → (append_all (new_backlog max) ops ≡ backlog_of (new_backlog max).max ops)
      × (latest (append_all (new_backlog max) ops) ≡ pos (length ops))
append_all-new_backlog max ops h = (held, rw held (unfold latest backlog_of in refl))
  where
    held : append_all (new_backlog max) ops ≡ backlog_of (new_backlog max).max ops
    held =
        ap (λ b. append_all b ops) (new_backlog-empty max)
        ∙ append_all-backlog_of (new_backlog max).max ops [] (omega arith)
