-- ===== src/Slip/Encoding.antt =====
-- The encoding of numbers in generic/net/slcompress.c: the macros ENCODE, ENCODEZ, DECODEL,
-- DECODES and DECODEU.
use anp.Prelude.{
  ℕ, ◌+◌, ◌*◌, ◌/◌, ◌%◌, ◌<◌, ◌≡◌, ◌≢◌, Bool, ◌||◌, Option, none, some, List, [], ◌∷◌, ◌++◌, leb,
  ◌==◌, if◌then◌else◌, Bool-cases, inl, inr, arith,
}
use anp.Prelude.Word.{add32}

abbrev pub low_byte : ℕ → ℕ
low_byte n = n % 256

abbrev pub high_byte : ℕ → ℕ
high_byte n = n / 256 % 256

-- For a number that is not 0.
unfoldable pub encode : ℕ → List ℕ
encode n = if leb 256 (n % 65536) then 0 ∷ high_byte n ∷ low_byte n ∷ [] else low_byte n ∷ []

unfoldable pub encodez : ℕ → List ℕ
encodez n =
    if leb 256 (n % 65536) || (n % 65536 == 0)
    then 0 ∷ high_byte n ∷ low_byte n ∷ []
    else low_byte n ∷ []

-- A number at `cp`, and the bytes behind it. `none` where memory ends.
unfoldable pub read_short : List ℕ → Option (ℕ × List ℕ)
read_short [] = none
read_short (a ∷ []) = none
read_short (a ∷ b ∷ rest) = some (a * 256 + b, rest)

unfoldable pub read_number : List ℕ → Option (ℕ × List ℕ)
unfolding read_short
read_number [] = none
read_number (b ∷ rest) = if b == 0 then read_short rest else some (b, rest)

abbrev pub then_set : (ℕ → ℕ) → Option (ℕ × List ℕ) → Option (ℕ × List ℕ)
then_set f none = none
then_set f (some (n, rest)) = some (f n, rest)

-- The field after the macro, and the bytes left. The test of `changes` before the macro is given.
unfoldable pub decodel : Bool → ℕ → List ℕ → Option (ℕ × List ℕ)
unfolding read_number
decodel present f cp = if present then then_set (λ n. add32 f n) (read_number cp) else some (f, cp)

unfoldable pub decodes : Bool → ℕ → List ℕ → Option (ℕ × List ℕ)
unfolding read_number
decodes present f cp =
    if present then then_set (λ n. (f + n) % 65536) (read_number cp) else some (f, cp)

unfoldable pub decodeu : Bool → ℕ → List ℕ → Option (ℕ × List ℕ)
unfolding read_number
decodeu present f cp = if present then then_set (λ n. n % 65536) (read_number cp) else some (f, cp)

-- What either macro writes is read back, whatever follows.
pub read_number-encode :
    (n : ℕ) (rest : List ℕ) → n ≢ 0 → n < 65536 → read_number (encode n ++ rest) ≡ some (n, rest)
unfolding read_number encode
read_number-encode n rest nz h = elim (Bool-cases (leb 256 (n % 65536))) [
  | inl e ↦ rw e (ground arith)
  | inr e ↦ rw e (ground arith)
]

pub read_number-encodez :
    (n : ℕ) (rest : List ℕ) → read_number (encodez n ++ rest) ≡ some (n % 65536, rest)
unfolding read_number encodez
read_number-encodez n rest = elim (Bool-cases (leb 256 (n % 65536) || (n % 65536 == 0))) [
  | inl e ↦ rw e (ground arith)
  | inr e ↦ rw e (ground arith)
]
