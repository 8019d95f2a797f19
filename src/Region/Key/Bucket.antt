-- ===== src/Region/Key/Bucket.antt =====
-- The code that `compute_region_key` of include/qvcache/pca_utils.h writes into a key.
use qvcache.Common.{
  All-set, All-take, ℕ, zero, suc, ◌≤◌, ◌<◌, ◌%◌, ◌^◌, List, [], ◌∷◌, length, length-set, take, All,
  ◌≡◌, refl, ap, arith, map, ◌∙◌,
}
use qvcache.Floats.{Floats}
use qvcache.Region.Key.{cap, zeros, bucket, fill, compute_region_key, code, Coordinate}

module _ (F : Floats) where
  open F use {Real}

  -- A bucket lies below the number of buckets, whatever the floating-point operations return.
  bucket-lt :
      (buckets_per_dim : ℕ) (val minv maxv : Real)
      → 0 < buckets_per_dim
      → buckets_per_dim < 2 ^ 64
      → bucket F buckets_per_dim val minv maxv < buckets_per_dim
  unfolding bucket
  bucket-lt buckets_per_dim val minv maxv pos small = ground arith

  length-fill :
      (b i : ℕ) (proj : List (Coordinate F)) (bytes : List ℕ)
      → length (fill F b i proj bytes) ≡ length bytes
  unfolding fill
  length-fill b i [] bytes = refl
  length-fill b i (x ∷ xs) bytes = length-fill b (suc i) xs _ ∙ length-set bytes i _

  fill-cons :
      (b i : ℕ) (proj : List (Coordinate F)) (y : ℕ) (bytes : List ℕ)
      → fill F b (suc i) proj (y ∷ bytes) ≡ y ∷ fill F b i proj bytes
  unfolding fill
  fill-cons b i [] y bytes = refl
  fill-cons b i (x ∷ xs) y bytes = fill-cons b (suc i) xs y _

  -- The bucket code of a projected vector.
  abbrev pub buckets : ℕ → List (Coordinate F) → List ℕ
  buckets b = map (λ x. bucket F b x.val x.minv x.maxv)

  take-fill :
      (b : ℕ) (proj : List (Coordinate F)) (bytes : List ℕ)
      → length proj ≤ length bytes
      → take (length proj) (fill F b 0 proj bytes) ≡ buckets b proj
  unfolding fill
  take-fill b [] bytes h = refl
  take-fill b (x ∷ xs) [] h = absurd (omega arith)
  take-fill b (x ∷ xs) (y ∷ bytes) h =
      rw (fill-cons b 0 xs (bucket F b x.val x.minv x.maxv) bytes)
        (ap (◌∷◌ (bucket F b x.val x.minv x.maxv)) (take-fill b xs bytes (omega arith)))

  buckets-lt :
      (b : ℕ) (proj : List (Coordinate F)) → 0 < b → b < 2 ^ 64 → All (λ y. y < b) (buckets b proj)
  buckets-lt b [] pos small = tt
  buckets-lt b (x ∷ xs) pos small =
      (bucket-lt b x.val x.minv x.maxv pos small, buckets-lt b xs pos small)

  bucket-byte : (b : ℕ) (val minv maxv : Real) → bucket F b val minv maxv < 2 ^ 8
  unfolding bucket
  bucket-byte b val minv maxv = ground arith

  fill-bytes :
      (b i : ℕ) (proj : List (Coordinate F)) (bytes : List ℕ)
      → All (λ y. y < 2 ^ 8) bytes
      → All (λ y. y < 2 ^ 8) (fill F b i proj bytes)
  unfolding fill
  fill-bytes b i [] bytes h = h
  fill-bytes b i (x ∷ xs) bytes h =
      fill-bytes b (suc i) xs _ (All-set _ bytes i _ h (bucket-byte b x.val x.minv x.maxv))

  zeros-bytes : (n : ℕ) → All (λ y. y < 2 ^ 8) (zeros n)
  unfolding zeros
  zeros-bytes zero = tt
  zeros-bytes (suc n) = (omega arith, zeros-bytes n)

  -- Every code of a key is a byte.
  pub code-bytes :
      (pca_dim b : ℕ) (proj : List (Coordinate F))
      → All (λ y. y < 2 ^ 8) (code (compute_region_key F pca_dim b proj))
  unfolding compute_region_key
  code-bytes pca_dim b proj =
      All-take _ (pca_dim % 2 ^ 8) _ (fill-bytes b 0 proj _ (zeros-bytes cap))

  -- The key of a vector whose projection has `pca_dim` coordinates, with `pca_dim` at most the
  -- capacity of a key: its code is the list of the buckets, each below their number.
  pub compute_region_key-code :
      (pca_dim b : ℕ) (proj : List (Coordinate F))
      → pca_dim ≤ cap
      → length proj ≡ pca_dim
      → 0 < b
      → b < 2 ^ 64
      → let key = compute_region_key F pca_dim b proj in
        (key.len ≡ pca_dim)
        × (length key.bytes ≡ cap)
        × (code key ≡ buckets b proj)
        × All (λ y. y < b) (code key)
  unfolding compute_region_key zeros
  compute_region_key-code pca_dim b proj fits len pos small =
      let e : pca_dim % 2 ^ 8 ≡ length proj = omega arith in
      let same = take-fill b proj (zeros cap) (omega arith) in
      (
        omega arith,
        length-fill b 0 proj (zeros cap),
        rw e same,
        rw (e, same) (buckets-lt b proj pos small),
      )
