-- ===== src/Protocol/Hello/Accepts.antt =====
-- Which commands `ParseHello` of internal/protocol/hello.go accepts, and with which version.
use gedis.Base.{
  ℕ, ◌+◌, ◌≤◌, ◌≡◌, ◌↔◌, ◌⊎◌, inl, inr, refl, sym, ap, ◌∙◌, true, none, some, [], ◌∷◌, map, Bytes,
  All, codes, Result, ok, err, bytes_eq_iff, Bool-cases, arith,
}
use gedis.Base.Int.{pos, negsuc}
use gedis.Base.Text.Fields.{equal_fold}
use gedis.Protocol.Value.{
  Value, integer, bulk_string, array, slice, nil_slice, Elems, nil, cons, bulk_of, array_of,
}
use gedis.Protocol.Hello.{
  HelloError, not_hello, is_bulk, bulk_version, int_version, version, parse_hello,
}

-- The word, which is in upper case, with each letter in either case.
abbrev pub InEitherCase : Bytes → Bytes → Type 0
InEitherCase [] [] = Unit
InEitherCase [] (w ∷ ws) = ⊥
InEitherCase (x ∷ xs) [] = ⊥
InEitherCase (x ∷ xs) (w ∷ ws) = ((x ≡ w) ⊎ (x ≡ w + 32)) × InEitherCase xs ws

-- No argument for version 3, or first the number 2 or 3 as an integer or as a bulk string.
abbrev pub Version : Elems → ℕ → Type 0
Version args n =
    ((args ≡ nil) × (n ≡ 3))
    ⊎ ((rest : Elems) × ((n ≡ 2) ⊎ (n ≡ 3))
        × ((args ≡ cons (bulk_of ((48 + n) ∷ [])) rest) ⊎ (args ≡ cons (integer (pos n)) rest)))

-- A HELLO command for the version.
abbrev pub AsksFor : Value → ℕ → Type 0
AsksFor v n =
    (word : Bytes) × (args : Elems) × (v ≡ array_of (cons (bulk_of word) args))
    × InEitherCase word (codes "HELLO")
    × Version args n

abbrev IsUpper : ℕ → Type 0
IsUpper c = (65 ≤ c) × (c ≤ 90)

equal_fold_iff :
    (s upper : Bytes)
    → All IsUpper upper
    → (equal_fold s (map (λ c. c + 32) upper) ≡ true) ↔ InEitherCase s upper
unfolding equal_fold
equal_fold_iff [] [] h = (λ e. tt, λ t. refl)
equal_fold_iff [] (w ∷ ws) h = (λ e. cc, λ t. elim t [ ])
equal_fold_iff (x ∷ xs) [] h = (λ e. cc, λ t. elim t [ ])
equal_fold_iff (x ∷ xs) (w ∷ ws) (u, h) =
    let (there, back) = equal_fold_iff xs ws h in
    (λ e. (ground arith, there (ground arith)), λ (c, t). ground (arith, back t))

hello_iff :
    (word : Bytes) → (equal_fold word (codes "hello") ≡ true) ↔ InEitherCase word (codes "HELLO")
hello_iff word = equal_fold_iff word (codes "HELLO") (omega arith)

bulk_version_digit :
    (arg : Bytes) (n : ℕ) → bulk_version arg ≡ ok n → ((n ≡ 2) ⊎ (n ≡ 3)) × (arg ≡ (48 + n) ∷ [])
bulk_version_digit arg n h =
    ground (arith, bytes_eq_iff arg (codes "2"), bytes_eq_iff arg (codes "3"))

int_version_number : (k n : ℕ) → int_version (pos k) ≡ ok n → ((n ≡ 2) ⊎ (n ≡ 3)) × (k ≡ n)
int_version_number k n h = ground arith

bulk_version-Version :
    (arg : Bytes) (rest : Elems) (n : ℕ)
    → bulk_version arg ≡ ok n
    → Version (cons (bulk_of arg) rest) n
bulk_version-Version arg rest n h =
    let (two_or_three, digit) = bulk_version_digit arg n h in
    inr (rest, two_or_three, inl (ap (λ a. cons (bulk_of a) rest) digit))

int_version-Version :
    (k : ℕ) (rest : Elems) (n : ℕ)
    → int_version (pos k) ≡ ok n
    → Version (cons (integer (pos k)) rest) n
int_version-Version k rest n h =
    let (two_or_three, number) = int_version_number k n h in
    inr (rest, two_or_three, inr (ap (λ i. cons (integer (pos i)) rest) number))

no_version {ℓ} :
    {A : Type ℓ} (e : HelloError) (n : ℕ) → Path (Result HelloError ℕ) (err e) (ok n) → A
no_version e n h = cc

version-Version : (args : Elems) (n : ℕ) → version args ≡ ok n → Version args n
version-Version nil n h = inl (refl, ground arith)
version-Version (cons (bulk_string none) rest) n h = cc
version-Version (cons (bulk_string (some arg)) rest) n h = bulk_version-Version arg rest n h
version-Version (cons (integer (pos k)) rest) n h = int_version-Version k rest n h
version-Version (cons (integer (negsuc k)) rest) n h = cc
version-Version (cons _ rest) n h = cc

Version-version : (args : Elems) (n : ℕ) → Version args n → version args ≡ ok n
Version-version args n (inl (none_given, three)) = rw (none_given, three) refl
Version-version args n (inr (rest, inl two, inl bulk)) = rw (bulk, two) refl
Version-version args n (inr (rest, inr three, inl bulk)) = rw (bulk, three) refl
Version-version args n (inr (rest, inl two, inr int)) = rw (int, two) refl
Version-version args n (inr (rest, inr three, inr int)) = rw (int, three) refl

accepted : (v : Value) (n : ℕ) → parse_hello v ≡ ok n → AsksFor v n
unfolding parse_hello is_bulk
accepted (array (slice (cons (bulk_string (some word)) args))) n h =
    elim (Bool-cases (equal_fold word (codes "hello"))) [
      | inl hello ↦ (
        word,
        args,
        refl,
        (hello_iff word).0 hello,
        version-Version args n (sym (rw hello refl) ∙ h),
      )
      | inr other ↦ no_version not_hello n (sym (rw other refl) ∙ h)
    ]
accepted (array (slice (cons (bulk_string none) args))) n h = cc
accepted (array (slice (cons _ args))) n h = cc
accepted (array (slice nil)) n h = cc
accepted (array nil_slice) n h = cc
accepted _ n h = cc

asked : (v : Value) (n : ℕ) → AsksFor v n → parse_hello v ≡ ok n
unfolding parse_hello is_bulk
asked v n (word, args, command, hello, wanted) =
    rw (command, (hello_iff word).1 hello) (Version-version args n wanted)

-- `ParseHello` returns a version exactly for an array that begins with the bulk string HELLO, in any
-- case of its letters, and goes on with that version: 2 or 3 as an integer or as a bulk string of
-- one digit, or 3 where nothing follows. What comes after the version is not read.
pub parse_hello_iff : (v : Value) (n : ℕ) → (parse_hello v ≡ ok n) ↔ AsksFor v n
parse_hello_iff v n = (accepted v n, asked v n)
