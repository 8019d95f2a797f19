-- ===== src/Region/Key/Code.antt =====
-- Equality and hash of a region key of include/qvcache/pca_utils.h read its code and nothing else.
use qvcache.Common.{
  ℕ, zero, suc, ◌≤◌, List, [], ◌∷◌, true, ◌↔◌, take, length, ◌≡◌, refl, ap, sym, ◌∙◌, arith,
}
use qvcache.Region.Key.{RegionKey, same_bytes, key_eq, hash_loop, hash, code}

same_bytes_code :
    (n : ℕ) (xs ys : List ℕ)
    → n ≤ length xs
    → n ≤ length ys
    → (same_bytes n xs ys ≡ true) ↔ (take n xs ≡ take n ys)
unfolding same_bytes
same_bytes_code zero xs ys h k = (λ _. refl, λ _. refl)
same_bytes_code (suc n) (a ∷ xs) (b ∷ ys) h k =
    let (there, here) = same_bytes_code n xs ys (omega arith) (omega arith) in
    (λ e. ground (arith, there), λ e. ground (arith, here))
same_bytes_code (suc n) [] ys h k = absurd (omega arith)
same_bytes_code (suc n) (a ∷ xs) [] h k = absurd (omega arith)

hash_loop-take :
    (n : ℕ) (bytes : List ℕ) (h : ℕ) → hash_loop n bytes h ≡ hash_loop n (take n bytes) h
unfolding hash_loop
hash_loop-take zero bytes h = refl
hash_loop-take (suc n) [] h = refl
hash_loop-take (suc n) (b ∷ bytes) h = hash_loop-take n bytes _

-- Two keys are equal exactly when they have the same length and the same code.
pub key_eq_iff :
    (a b : RegionKey)
    → a.len ≤ length a.bytes
    → b.len ≤ length b.bytes
    → (key_eq a b ≡ true) ↔ ((a.len ≡ b.len) × (code a ≡ code b))
unfolding key_eq
key_eq_iff a b h k = (λ e. forth (ground arith) e, λ p. back p.0 p.1)
  where
    forth : a.len ≡ b.len → key_eq a b ≡ true → (a.len ≡ b.len) × (code a ≡ code b)
    forth len e =
        let same = (same_bytes_code a.len a.bytes b.bytes h (omega arith)).0 (ground arith) in
        (len, rw (← len) same)

    back : a.len ≡ b.len → code a ≡ code b → key_eq a b ≡ true
    back len e =
        let same =
          (same_bytes_code a.len a.bytes b.bytes h (omega arith)).1
            (e ∙ ap (λ n. take n b.bytes) (sym len)) in
        ground arith

-- Equal keys have equal hashes, as `std::unordered_map` requires.
pub hash-key_eq :
    (a b : RegionKey)
    → a.len ≤ length a.bytes
    → b.len ≤ length b.bytes
    → key_eq a b ≡ true
    → hash a ≡ hash b
unfolding hash
hash-key_eq a b h k e =
    let (len, same) = (key_eq_iff a b h k).0 e in
    hash_loop-take a.len a.bytes 0
    ∙ ap (λ l. hash_loop a.len l 0) same
    ∙ ap (λ n. hash_loop n (code b) 0) len
    ∙ sym (hash_loop-take b.len b.bytes 0)
