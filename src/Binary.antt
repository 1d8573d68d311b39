-- ===== src/Binary.antt =====
-- The bytes of a machine word in a file, the lowest first, as `istream::read` and `ostream::write`
-- leave them on a little-endian machine: for `serialize` of src/sketch.cpp and `write_binary` of
-- src/cc_sketch_alg.cpp.
use graph_streaming_cc.Prelude.{
  ℕ, zero, suc, ◌+◌, ◌*◌, ◌/◌, ◌%◌, ◌^◌, ◌<◌, ◌≡◌, refl, ap, arith, ◌>>=◌, Option, none, some, List,
  [], ◌∷◌, ◌++◌,
}

-- The number of words of so many bytes.
unfoldable pub capacity : ℕ → ℕ
capacity zero = 1
capacity (suc bytes) = 256 * capacity bytes

pub write_word : ℕ → ℕ → List ℕ
write_word zero x = []
write_word (suc bytes) x = x % 256 ∷ write_word bytes (x / 256)

-- `none` is the end of the file, which leaves the word undetermined.
pub read_word : ℕ → List ℕ → Option (ℕ × List ℕ)
read_word zero input = some (0, input)
read_word (suc bytes) [] = none
read_word (suc bytes) (b ∷ input) = do (x, rest) ← read_word bytes input; some (b + 256 * x, rest)

pub read-write_word :
    (bytes x : ℕ) (rest : List ℕ)
    → x < capacity bytes
    → read_word bytes (write_word bytes x ++ rest) ≡ some (x, rest)
unfolding capacity read_word write_word
read-write_word zero x rest h = ap (λ t. some (t, rest)) (omega arith)
read-write_word (suc bytes) x rest h =
    rw (read-write_word bytes (x / 256) rest (omega arith)) (ap (λ t. some (t, rest)) (omega arith))

pub capacity_8 : capacity 8 ≡ 2 ^ 64
unfolding capacity
capacity_8 = refl

pub capacity_4 : capacity 4 ≡ 2 ^ 32
unfolding capacity
capacity_4 = refl
