-- ===== src/Capture/Bytes.antt =====
-- Little-endian words in a file, which is a list of bytes.
use native.Mathlib.Nat.{pow-suc}
use mathlib.Core.List.{append_assoc}
use ig_cachesim.Common.{
  ℕ, zero, suc, ◌+◌, ◌*◌, ◌/◌, ◌%◌, ◌^◌, ◌≤◌, ◌<◌, ◌≡◌, refl, ap, ap₂, sym, ◌∙◌, List, [], ◌∷◌,
  ◌++◌, arith, get_or, set, length, All, length-set, length-append,
}
use ig_cachesim.Stacks.{copy}

-- The `n` bytes that `fwrite` puts down for a word.
unfoldable pub le : ℕ → ℕ → List ℕ
le zero v = []
le (suc n) v = (v % 256) ∷ le n (v / 256)

-- The word of `n` bytes at an offset.
unfoldable pub word : ℕ → List ℕ → ℕ → ℕ
word zero f i = 0
word (suc n) f i = get_or f i 0 + 256 * word n f (suc i)

pub length-le : (n v : ℕ) → length (le n v) ≡ n
unfolding le
length-le zero v = refl
length-le (suc n) v = ap suc (length-le n (v / 256))

get_or-append_right : (a b : List ℕ) (i : ℕ) → get_or (a ++ b) (length a + i) 0 ≡ get_or b i 0
get_or-append_right [] b i = ap (λ j. get_or b j 0) (omega arith)
get_or-append_right (x ∷ a) b i =
    let e : length (x ∷ a) + i ≡ suc (length a + i) = omega arith in
    ap (λ j. get_or (x ∷ (a ++ b)) j 0) e ∙ get_or-append_right a b i

pub get_or-append : (a b : List ℕ) → get_or (a ++ b) (length a) 0 ≡ get_or b 0 0
get_or-append a b = ap (λ i. get_or (a ++ b) i 0) (omega arith) ∙ get_or-append_right a b 0

pub word-append : (n : ℕ) (a b : List ℕ) (i : ℕ) → word n (a ++ b) (length a + i) ≡ word n b i
unfolding word
word-append zero a b i = refl
word-append (suc n) a b i =
    ap₂ (λ x y. x + 256 * y) (get_or-append_right a b i)
      (ap (word n (a ++ b)) (omega arith) ∙ word-append n a b (suc i))

pub word-append_zero : (n : ℕ) (a b : List ℕ) → word n (a ++ b) (length a) ≡ word n b 0
word-append_zero n a b = ap (word n (a ++ b)) (omega arith) ∙ word-append n a b 0

set-append : (a b : List ℕ) (i v : ℕ) → i < length a → set (a ++ b) i v ≡ set a i v ++ b
set-append [] b i v h = absurd (omega arith)
set-append (x ∷ a) b zero v h = refl
set-append (x ∷ a) b (suc i) v h = ap (λ (l : List ℕ). x ∷ l) (set-append a b i v (omega arith))

-- A write inside the front part.
pub copy-append :
    (a b : List ℕ) (i : ℕ) (v : List ℕ)
    → i + length v ≤ length a
    → copy (a ++ b) i v ≡ copy a i v ++ b
unfolding copy
copy-append a b i [] h = refl
copy-append a b i (x ∷ v) h =
    ap (λ (l : List ℕ). copy l (suc i) v) (set-append a b i x (omega arith))
    ∙ copy-append (set a i x) b (suc i) v (omega (arith, length-set a i x))

-- A table of records of one size, which are written one after the other and read at their offsets.
module _ {ℓ} {A : Type ℓ} where
  unfoldable pub write_table : (A → List ℕ) → List A → List ℕ
  write_table encode [] = []
  write_table encode (x ∷ xs) = encode x ++ write_table encode xs

  unfoldable pub read_table : ℕ → (List ℕ → ℕ → A) → ℕ → List ℕ → ℕ → List A
  read_table size decode zero f off = []
  read_table size decode (suc n) f off = decode f off ∷ read_table size decode n f (off + size)

  pub length-write_table :
      (size : ℕ) (encode : A → List ℕ) (IsFit : A → Type 0)
      → ((x : A) → IsFit x → length (encode x) ≡ size)
      → (xs : List A) → All IsFit xs
      → length (write_table encode xs) ≡ length xs * size
  unfolding write_table
  length-write_table size encode IsFit sized [] h = omega arith
  length-write_table size encode IsFit sized (x ∷ xs) h = omega (
    arith,
    length-append (encode x) (write_table encode xs),
    sized x h.0,
    length-write_table size encode IsFit sized xs h.1,
  )

  module _ (size : ℕ) (encode : A → List ℕ) (decode : List ℕ → ℕ → A) (IsFit : A → Type 0)
      (sized : (x : A) → IsFit x → length (encode x) ≡ size)
      (back : (a c : List ℕ) (x : A) → IsFit x → decode (a ++ (encode x ++ c)) (length a) ≡ x) where
    pub read_table-write_table :
        (xs : List A) (a c : List ℕ)
        → All IsFit xs
        → read_table size decode (length xs) (a ++ (write_table encode xs ++ c)) (length a) ≡ xs
    unfolding read_table write_table
    read_table-write_table [] a c h = refl
    read_table-write_table (x ∷ xs) a c h =
        let rest = write_table encode xs ++ c in
        let one : a ++ ((encode x ++ write_table encode xs) ++ c) ≡ a ++ (encode x ++ rest) =
          ap (λ (l : List ℕ). a ++ l) (append_assoc (encode x) (write_table encode xs) c) in
        let two : a ++ ((encode x ++ write_table encode xs) ++ c) ≡ (a ++ encode x) ++ rest =
          one ∙ sym (append_assoc a (encode x) rest) in
        let far : length (a ++ encode x) ≡ length a + size =
          omega (arith, length-append a (encode x), sized x h.0) in
        ap₂ (λ y (ys : List A). y ∷ ys)
          (ap (λ (f : List ℕ). decode f (length a)) one ∙ back a rest x h.0)
          (ap (λ (f : List ℕ). read_table size decode (length xs) f (length a + size)) two
            ∙ ap (read_table size decode (length xs) ((a ++ encode x) ++ rest)) (sym far)
            ∙ read_table-write_table xs (a ++ encode x) c h.1)

-- What was put down is read back.
pub word-le : (n v : ℕ) (c : List ℕ) → v < 256 ^ n → word n (le n v ++ c) 0 ≡ v
unfolding word le
word-le zero v c h = omega (arith, h)
word-le (suc n) v c h =
    let small : v / 256 < 256 ^ n = omega (arith, pow-suc 256 n, h) in
    let rest : word n ((v % 256) ∷ (le n (v / 256) ++ c)) 1 ≡ v / 256 =
      word-append n ((v % 256) ∷ []) (le n (v / 256) ++ c) 0 ∙ word-le n (v / 256) c small in
    omega (arith, rest)

-- The same behind two parts of a file.
pub word_at :
    (n : ℕ) (a b : List ℕ) (v : ℕ) (c : List ℕ)
    → v < 256 ^ n
    → word n (a ++ (b ++ (le n v ++ c))) (length a + length b) ≡ v
word_at n a b v c h =
    word-append n a (b ++ (le n v ++ c)) (length b)
    ∙ word-append_zero n b (le n v ++ c)
    ∙ word-le n v c h
