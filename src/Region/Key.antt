-- ===== src/Region/Key.antt =====
-- `RegionKey` and `compute_region_key` of include/qvcache/pca_utils.h. The projection of a vector,
-- which Eigen computes, enters as the list of its coordinates.
pub mod Code
pub mod Bucket
use qvcache.Common.{
  ℕ, zero, suc, ◌+◌, ◌-◌, ◌*◌, ◌%◌, ◌^◌, min, List, [], ◌∷◌, Bool, true, false, ◌&&◌, ◌==◌,
  if◌then◌else◌, Option, none, some, ltb, take, set,
}
use qvcache.Floats.{Floats}

abbrev pub cap : ℕ
cap = 32

-- `bytes` has `cap` entries, of which the first `len` are the bucket code.
pub record RegionKey : Type 0 where
  pub bytes : List ℕ
  pub len : ℕ

unfoldable pub zeros : ℕ → List ℕ
zeros zero = []
zeros (suc n) = 0 ∷ zeros n

unfoldable pub init : ℕ → RegionKey
unfolding zeros
init n = record { bytes = zeros cap; len = n % 2 ^ 8 }

-- `memcmp(a, b, n) == 0`
unfoldable pub same_bytes : ℕ → List ℕ → List ℕ → Bool
same_bytes zero xs ys = true
same_bytes (suc n) (a ∷ xs) (b ∷ ys) = a == b && same_bytes n xs ys
same_bytes (suc n) [] [] = true
same_bytes (suc n) _ _ = false

unfoldable pub key_eq : RegionKey → RegionKey → Bool
unfolding same_bytes
key_eq a b = a.len == b.len && same_bytes a.len a.bytes b.bytes

-- The loop of `RegionKeyHash`, over a 64-bit `size_t`.
unfoldable pub hash_loop : ℕ → List ℕ → ℕ → ℕ
hash_loop zero bytes h = h
hash_loop (suc n) [] h = h
hash_loop (suc n) (b ∷ bytes) h = hash_loop n bytes ((h * 31 + b) % 2 ^ 64)

unfoldable pub hash : RegionKey → ℕ
unfolding hash_loop
hash k = hash_loop k.len k.bytes 0

-- The bytes that equality and hash read.
abbrev pub code : RegionKey → List ℕ
code k = take k.len k.bytes

module _ (F : Floats) where
  open F use {Real, zero_real, one_real, sub, mul, div, lt_real, eq_real, of_size, to_size}

  -- The normalised coordinate, clamped into [0, 1].
  unfoldable pub clamp : Real → Real
  clamp norm =
      let low = if lt_real norm zero_real then zero_real else norm in
      if lt_real one_real low then one_real else low

  -- The body of the loop of `compute_region_key`: the bucket of one coordinate, as a `uint8_t`.
  unfoldable pub bucket : ℕ → Real → Real → Real → ℕ
  unfolding clamp
  bucket buckets_per_dim val minv maxv =
      if eq_real maxv minv
      then 0
      else min ((buckets_per_dim + 2 ^ 64 - 1) % 2 ^ 64)
          (to_size (mul (clamp (div (sub val minv) (sub maxv minv))) (of_size buckets_per_dim)))
        % 2 ^ 8

  -- A coordinate with the extent of its component over the training data.
  pub record Coordinate : Type 0 where
    pub val : Real
    pub minv : Real
    pub maxv : Real

  unfoldable pub fill : ℕ → ℕ → List Coordinate → List ℕ → List ℕ
  fill buckets_per_dim i [] bytes = bytes
  fill buckets_per_dim i (x ∷ xs) bytes =
      fill buckets_per_dim (suc i) xs (set bytes i (bucket buckets_per_dim x.val x.minv x.maxv))

  unfoldable pub compute_region_key : ℕ → ℕ → List Coordinate → RegionKey
  unfolding fill init
  compute_region_key pca_dim buckets_per_dim proj = record (init pca_dim) {
    bytes = fill buckets_per_dim 0 proj (init pca_dim).bytes;
  }
