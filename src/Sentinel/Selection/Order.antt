-- ===== src/Sentinel/Selection/Order.antt =====
-- The comparison of `SortSlaves` orders the candidates.
use gedis.Base.{
  ◌⊎◌, inl, inr, ◌≡◌, refl, Bool, true, false, not, [], ◌∷◌, if◌then◌else◌, Bytes, bytes_eq,
  bytes_eq_iff, bytes_lt, arith,
}
use gedis.Base.Int.{◌≤ℤ◌, ◌<ℤ◌}
use gedis.Sentinel.Select.{SlaveInfo, less}

pub bytes_lt-asym : (a b : Bytes) → bytes_lt a b ≡ true → bytes_lt b a ≡ false
bytes_lt-asym [] [] h = refl
bytes_lt-asym [] (y ∷ b) h = refl
bytes_lt-asym (x ∷ a) [] h = ground arith
bytes_lt-asym (x ∷ a) (y ∷ b) h = ground (arith, bytes_lt-asym a b)

-- "Not before" passes on.
bytes_lt_trans :
    (a b c : Bytes) → bytes_lt a b ≡ false → bytes_lt b c ≡ false → bytes_lt a c ≡ false
bytes_lt_trans a b [] h k = refl
bytes_lt_trans [] [] (z ∷ c) h k = k
bytes_lt_trans [] (y ∷ b) (z ∷ c) h k = ground arith
bytes_lt_trans (x ∷ a) [] (z ∷ c) h k = ground arith
bytes_lt_trans (x ∷ a) (y ∷ b) (z ∷ c) h k = ground (arith, bytes_lt_trans a b c)

bytes_lt-total : (a b : Bytes) → bytes_lt a b ≡ false → bytes_lt b a ≡ false → a ≡ b
bytes_lt-total [] [] h k = refl
bytes_lt-total [] (y ∷ b) h k = ground arith
bytes_lt-total (x ∷ a) [] h k = ground arith
bytes_lt-total (x ∷ a) (y ∷ b) h k = ground (arith, bytes_lt-total a b)

bytes_lt_irrefl : (a : Bytes) → bytes_lt a a ≡ false
bytes_lt_irrefl [] = refl
bytes_lt_irrefl (x ∷ a) = ground (arith, bytes_lt_irrefl a)

pub less-asym : (a b : SlaveInfo) → less a b ≡ true → less b a ≡ false
unfolding less
less-asym a b h = ground (
  arith,
  bytes_lt-asym a.run_id b.run_id,
  bytes_lt-asym a.addr b.addr,
  bytes_eq_iff a.run_id b.run_id,
  bytes_eq_iff b.run_id a.run_id,
)

-- The part of `less` below the numbers.
abbrev text_less : SlaveInfo → SlaveInfo → Bool
text_less a b =
    if not (bytes_eq a.run_id b.run_id) then bytes_lt a.run_id b.run_id else bytes_lt a.addr b.addr

text_less_trans :
    (a b c : SlaveInfo) → text_less a b ≡ false → text_less b c ≡ false → text_less a c ≡ false
text_less_trans a b c h k = ground (
  arith,
  bytes_lt_trans a.addr b.addr c.addr,
  bytes_lt_trans a.run_id b.run_id c.run_id,
  bytes_lt-total a.run_id b.run_id,
  bytes_lt-total b.run_id c.run_id,
  bytes_lt_trans b.run_id c.run_id a.run_id,
  bytes_lt_trans c.run_id a.run_id b.run_id,
  bytes_lt-asym a.run_id c.run_id,
  bytes_eq_iff a.run_id b.run_id,
  bytes_eq_iff b.run_id c.run_id,
  bytes_eq_iff a.run_id c.run_id,
)

-- What it means that `a` is not before `b`.
abbrev NotBefore : SlaveInfo → SlaveInfo → Type 0
NotBefore a b =
    (b.priority <ℤ a.priority)
    ⊎ ((a.priority ≤ℤ b.priority)
        × (b.priority ≤ℤ a.priority)
        × ((a.offset <ℤ b.offset)
            ⊎ ((a.offset ≤ℤ b.offset) × (b.offset ≤ℤ a.offset) × (text_less a b ≡ false))))

NotBefore-less : (a b : SlaveInfo) → less a b ≡ false → NotBefore a b
unfolding less
NotBefore-less a b h = ground arith

less-NotBefore : (a b : SlaveInfo) → NotBefore a b → less a b ≡ false
unfolding less
less-NotBefore a b h = ground arith

NotBefore-trans : (a b c : SlaveInfo) → NotBefore a b → NotBefore b c → NotBefore a c
NotBefore-trans a b c (inl p) (inl q) = inl (omega arith)
NotBefore-trans a b c (inl p) (inr q) = inl (omega arith)
NotBefore-trans a b c (inr p) (inl q) = inl (omega arith)
NotBefore-trans a b c (inr (p, q, inl r)) (inr (u, v, inl w)) =
    inr (omega arith, omega arith, inl (omega arith))
NotBefore-trans a b c (inr (p, q, inl r)) (inr (u, v, inr w)) =
    inr (omega arith, omega arith, inl (omega arith))
NotBefore-trans a b c (inr (p, q, inr r)) (inr (u, v, inl w)) =
    inr (omega arith, omega arith, inl (omega arith))
NotBefore-trans a b c (inr (p, q, inr (r, s, t))) (inr (u, v, inr (w, x, y))) =
    inr (omega arith, omega arith, inr (omega arith, omega arith, text_less_trans a b c t y))

pub less_trans : (a b c : SlaveInfo) → less a b ≡ false → less b c ≡ false → less a c ≡ false
less_trans a b c h k =
    less-NotBefore a c (NotBefore-trans a b c (NotBefore-less a b h) (NotBefore-less b c k))
