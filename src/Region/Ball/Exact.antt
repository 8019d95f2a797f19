-- ===== src/Region/Ball/Exact.antt =====
-- The codes that the walk of include/qvcache/pca_utils.h visits are those within the radius.
use qvcache.Common.{
  ℕ, All, some, zero, suc, ◌+◌, ◌-◌, ◌*◌, ◌%◌, ◌^◌, ◌≤◌, ◌<◌, List, [], ◌∷◌, ◌++◌, map, ◌&&◌, Bool,
  true, false, if◌then◌else◌, leb, ltb, ◌==◌, ◌≡◌, refl, ap, ◌∙◌, arith, length, ℕ_discrete,
}
use qvcache.Region.Ball.{walk, to_int, abs_delta}
use qvcache.Region.Ball.Free.{walk-runs, free_rounds, free_walk}
use qvcache.Region.Ball.Visits.{rows, ball, ball_step, valid, byte, visit_all, free_walk-ball}

abbrev pub same_code : List ℕ → List ℕ → Bool
same_code [] [] = true
same_code (x ∷ xs) (y ∷ ys) = x == y && same_code xs ys
same_code _ _ = false

-- How often a code stands in a list of codes.
unfoldable pub occurrences : List ℕ → List (List ℕ) → ℕ
occurrences k [] = 0
occurrences k (l ∷ ls) = (if same_code k l then 1 else 0) + occurrences k ls

-- The Manhattan distance of two codes of one length.
unfoldable pub l1 : List ℕ → List ℕ → ℕ
l1 (x ∷ xs) (y ∷ ys) = (x - y) + (y - x) + l1 xs ys
l1 _ _ = 0

abbrev pub all_below : ℕ → List ℕ → Bool
all_below b [] = true
all_below b (x ∷ xs) = ltb x b && all_below b xs

-- A code of the center's length, with every bucket below `b`, at distance `r` or less.
unfoldable pub near : ℕ → List ℕ → List ℕ → ℕ → Bool
unfolding l1
near b k center r = length k == length center && all_below b k && leb (l1 k center) r

occurrences-append :
    (k : List ℕ) (ks ls : List (List ℕ))
    → occurrences k (ks ++ ls) ≡ occurrences k ks + occurrences k ls
unfolding occurrences
occurrences-append k [] ls = omega arith
occurrences-append k (x ∷ ks) ls = omega (arith, occurrences-append k ks ls)

occurrences-map :
    (x y : ℕ) (k : List ℕ) (ks : List (List ℕ))
    → occurrences (x ∷ k) (map (◌∷◌ y) ks) ≡ (if x == y then occurrences k ks else 0)
unfolding occurrences
occurrences-map x y k [] = ground arith
occurrences-map x y k (l ∷ ks) = ground (arith, occurrences-map x y k ks)

occurrences-map_nil : (y : ℕ) (ks : List (List ℕ)) → occurrences [] (map (◌∷◌ y) ks) ≡ 0
unfolding occurrences
occurrences-map_nil y [] = refl
occurrences-map_nil y (l ∷ ks) = omega (arith, occurrences-map_nil y ks)

occurrences-if_nil :
    (t : Bool) (y : ℕ) (ks : List (List ℕ)) → occurrences [] (if t then map (◌∷◌ y) ks else []) ≡ 0
occurrences-if_nil true y ks = occurrences-map_nil y ks
occurrences-if_nil false y ks = unfold occurrences in refl

occurrences-if :
    (t : Bool) (x y : ℕ) (k : List ℕ) (ks : List (List ℕ))
    → occurrences (x ∷ k) (if t then map (◌∷◌ y) ks else [])
      ≡ (if t && x == y then occurrences k ks else 0)
occurrences-if true x y k ks = occurrences-map x y k ks
occurrences-if false x y k ks = unfold occurrences in refl

to_int_small : (n : ℕ) → n < 2 ^ 31 → to_int n ≡ n
unfolding to_int
to_int_small n h = ground arith

to_rounds : (r : ℕ) → r < 2 ^ 31 → free_rounds r ≡ 2 * r + 1
unfolding free_rounds to_int
to_rounds r h = ground arith

-- The buckets fit a byte, and the radius with a byte added to it fits an `int`.
abbrev pub Fits : ℕ → ℕ → Type 0
Fits b r = (b ≤ 2 ^ 8) × (r + 2 ^ 8 ≤ 2 ^ 31)

occurrences-rows_nil :
    (b : ℕ) (d : ℕ → List (List ℕ)) (left c n j : ℕ) → occurrences [] (rows b d left c n j) ≡ 0
unfolding rows
occurrences-rows_nil b d left c zero j = unfold occurrences in refl
occurrences-rows_nil b d left c (suc n) j =
    occurrences-append [] _ (rows b d left c n (suc j))
    ∙ omega (
      arith,
      occurrences-if_nil (valid b left c j) (byte left c j) (d (left - abs_delta (to_int left) j)),
      occurrences-rows_nil b d left c n (suc j),
    )

-- The codes of one value of the loop: those that continue its bucket.
occurrences-row :
    (b : ℕ) (d : ℕ → List (List ℕ)) (left c x j : ℕ) (k : List ℕ)
    → Fits b left
    → occurrences (x ∷ k) (
        if valid b left c j
        then map (◌∷◌ (byte left c j)) (d (left - abs_delta (to_int left) j))
        else [])
      ≡ (if ltb x b && x + left == c + j then occurrences k (d (left - ((x - c) + (c - x)))) else 0)
unfolding abs_delta
occurrences-row b d left c x j k fits =
    rw (to_int_small left (omega (arith, fits.1)), to_int_small b (omega arith))
      (occurrences-if (leb left (c + j) && ltb (c + j - left) b) x ((c + j - left) % 2 ^ 8) k
          (d (left - (j - left + (left - j))))
        ∙ same)
  where
    same :
        (if leb left (c + j) && ltb (c + j - left) b && x == (c + j - left) % 2 ^ 8
          then occurrences k (d (left - (j - left + (left - j))))
          else 0)
        ≡ (if ltb x b && x + left == c + j
            then occurrences k (d (left - ((x - c) + (c - x))))
            else 0)
    same = elim (ℕ_discrete (x + left) (c + j)) [
      | yes p ↦
          let e : (j - left) + (left - j) ≡ (x - c) + (c - x) = omega arith in rw e (ground arith)
      | no p ↦ ground arith
    ]

occurrences-rows :
    (b : ℕ) (d : ℕ → List (List ℕ)) (left c x : ℕ) (k : List ℕ) (n j : ℕ)
    → Fits b left
    → occurrences (x ∷ k) (rows b d left c n j) ≡ (
        if ltb x b && leb (c + j) (x + left) && ltb (x + left) (c + j + n)
        then occurrences k (d (left - ((x - c) + (c - x))))
        else 0)
unfolding rows
occurrences-rows b d left c x k zero j fits = unfold occurrences in ground arith
occurrences-rows b d left c x k (suc n) j fits =
    occurrences-append (x ∷ k) _ (rows b d left c n (suc j))
    ∙ ground
        (arith, occurrences-row b d left c x j k fits, occurrences-rows b d left c x k n (suc j))

near-nil : (b : ℕ) (cs : List ℕ) (r c : ℕ) → near b [] (c ∷ cs) r ≡ false
unfolding near
near-nil b cs r c = ground arith

near-cons :
    (b x c : ℕ) (k cs : List ℕ) (r : ℕ)
    → near b (x ∷ k) (c ∷ cs) r
      ≡ (ltb x b && leb ((x - c) + (c - x)) r && near b k cs (r - ((x - c) + (c - x))))
unfolding near
near-cons b x c k cs r = ground arith

-- The walk visits every code within the radius exactly once, and no other code.
pub occurrences-ball :
    (b : ℕ) (center : List ℕ) (r : ℕ) (k : List ℕ)
    → Fits b r
    → occurrences k (ball b center r) ≡ (if near b k center r then 1 else 0)
occurrences-ball b [] r [] fits = unfold occurrences ball near in ground arith
occurrences-ball b [] r (x ∷ k) fits = unfold occurrences ball near in ground arith
occurrences-ball b (c ∷ cs) r [] fits =
    rw (ball_step, near-nil) (occurrences-rows_nil b (ball b cs) r c (free_rounds r) 0)
occurrences-ball b (c ∷ cs) r (x ∷ k) fits =
    rw (ball_step, near-cons, to_rounds r (omega (arith, fits.1)))
      (occurrences-rows b (ball b cs) r c x k (2 * r + 1) 0 fits
        ∙ ground (arith, occurrences-ball b cs (r - ((x - c) + (c - x))) k (fits.0, omega arith)))

-- The visitor that counts the visits of one code.
abbrev pub count_visits : List ℕ → List ℕ → ℕ → ℕ
count_visits k l n = if same_code k l then suc n else n

visit_all-count :
    (k : List ℕ) (ks : List (List ℕ)) (n : ℕ)
    → visit_all (count_visits k) n ks ≡ n + occurrences k ks
unfolding occurrences
visit_all-count k [] n = omega arith
visit_all-count k (l ∷ ks) n = ground (arith, visit_all-count k ks (count_visits k l n))

-- What the walk over numbers that do not overflow counts.
free_walk-near :
    (b r : ℕ) (center k : List ℕ)
    → Fits b r
    → free_walk b (count_visits k) center 0 r (center, 0)
      ≡ (center, (if near b k center r then 1 else 0))
free_walk-near b r center k fits =
    free_walk-ball b (count_visits k) center r 0
    ∙ ap (λ n. let z : List ℕ × ℕ = (center, n) in z)
        (visit_all-count k (ball b center r) 0 ∙ omega (arith, occurrences-ball b center r k fits))

-- The walk from a center whose codes are bytes overflows no `int`. It restores the center, and visits
-- a code exactly once if it is within the radius and not at all otherwise; the buckets fit a byte, and
-- the radius an `int` with a byte added.
pub walk-near :
    (b r : ℕ) (center k : List ℕ)
    → Fits b r
    → All (λ c. c < 2 ^ 8) center
    → walk b (count_visits k) center 0 r (center, 0)
      ≡ some (center, (if near b k center r then 1 else 0))
walk-near b r center k fits bytes =
    walk-runs b (count_visits k) center 0 r (center, 0) bytes fits.1
    ∙ ap some (free_walk-near b r center k fits)
