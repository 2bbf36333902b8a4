-- ===== src/RocksDb/HashTail.antt =====
-- What a hash for the filter does not depend on.
use Prim.Native.Nat.{bit_xor, ℕ}
use unistore.Base.{
  [], ◌∷◌, zero, suc, ◌+◌, ◌++◌, ◌*◌, ℕ, Bytes, ◌≤◌, length, ◌<◌, ◌≡◌, arith, ◌∙◌, length-append,
  refl, ap, ◌%◌, sym, ◌^◌,
}
use unistore.RocksDb.Bloom.{byte_at, hash_word, hash_words, hash_remain, rocks_hash}

hash_words-last :
    (h : ℕ) (tail : Bytes)
    → 0 < length tail
    → length tail ≤ 4
    → hash_words h tail ≡ (h, length tail)
unfolding hash_words
hash_words-last h [] p q = refl
hash_words-last h (a ∷ []) p q = refl
hash_words-last h (a ∷ b ∷ []) p q = refl
hash_words-last h (a ∷ b ∷ c ∷ []) p q = refl
hash_words-last h (a ∷ b ∷ c ∷ d ∷ []) p q = refl
hash_words-last h (a ∷ b ∷ c ∷ d ∷ e ∷ bs) p q = absurd (omega arith)

hash_words-tail :
    (n h : ℕ) (front tail tail' : Bytes)
    → length front ≡ n * 4
    → 0 < length tail
    → length tail ≤ 4
    → length tail' ≡ length tail
    → hash_words h (front ++ tail) ≡ hash_words h (front ++ tail')
unfolding hash_words
hash_words-tail zero h [] tail tail' f p q e =
    hash_words-last h tail p q
    ∙ ap (λ n. (h, n)) (sym e)
    ∙ sym (hash_words-last h tail' (omega arith) (omega arith))
hash_words-tail (suc n) h (a ∷ b ∷ c ∷ d ∷ front) tail tail' f p q e =
    let ih =
      hash_words-tail n (hash_word h (a + 256 * (b + 256 * (c + 256 * d)))) front tail tail'
        (omega arith) p q e in
    let l1 = length-append front tail in let l2 = length-append front tail' in ground arith
hash_words-tail zero h (a ∷ front) tail tail' f p q e = absurd (omega arith)
hash_words-tail (suc n) h [] tail tail' f p q e = absurd (omega arith)
hash_words-tail (suc n) h (a ∷ []) tail tail' f p q e = absurd (omega arith)
hash_words-tail (suc n) h (a ∷ b ∷ []) tail tail' f p q e = absurd (omega arith)
hash_words-tail (suc n) h (a ∷ b ∷ c ∷ []) tail tail' f p q e = absurd (omega arith)

byte_at-append : (i : ℕ) (xs ys : Bytes) → i < length xs → byte_at (xs ++ ys) i ≡ byte_at xs i
unfolding byte_at
byte_at-append i [] ys h = absurd (omega arith)
byte_at-append zero (x ∷ xs) ys h = refl
byte_at-append (suc i) (x ∷ xs) ys h = byte_at-append i xs ys (omega arith)

hash_remain-append :
    (front tail : Bytes) (r : ℕ × ℕ)
    → 3 ≤ length front
    → hash_remain (front ++ tail) r ≡ hash_remain front r
unfolding hash_remain
hash_remain-append front tail (h, r) p =
    rw
      (
        byte_at-append 0 front tail (omega arith),
        byte_at-append 1 front tail (omega arith),
        byte_at-append 2 front tail (omega arith),
      )
      refl

-- The hash of data that is longer than a positive number of whole words by one to four bytes does
-- not depend on these last bytes, but for their number.
pub rocks_hash-tail :
    (n seed : ℕ) (front tail tail' : Bytes)
    → 0 < n
    → length front ≡ n * 4
    → 0 < length tail
    → length tail ≤ 4
    → length tail' ≡ length tail
    → rocks_hash (front ++ tail) seed ≡ rocks_hash (front ++ tail') seed
unfolding rocks_hash
rocks_hash-tail n seed front tail tail' z f p q e =
    let len : length (front ++ tail) ≡ length (front ++ tail') =
      omega (arith, length-append front tail, length-append front tail', e) in
    let h = λ (l : ℕ). bit_xor seed (l * 0xc6a4a793 % 2 ^ 32) in
    let w = hash_words-tail n (h (length (front ++ tail))) front tail tail' f p q e in
    let same = w ∙ ap (λ l. hash_words (h l) (front ++ tail')) len in
    let r = hash_words (h (length (front ++ tail))) (front ++ tail) in
    let r' = hash_words (h (length (front ++ tail'))) (front ++ tail') in
    hash_remain-append front tail r (omega arith)
    ∙ ap (hash_remain front) same
    ∙ sym (hash_remain-append front tail' r' (omega arith))
