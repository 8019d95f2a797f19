-- ===== src/Lru/Evict.antt =====
-- `evict` of include/qvcache/lru_cache.h takes from the back of the order.
use mathlib.Core.List.{reverse-append, reverse-reverse, append_assoc, append-nil, reverse-cons}
use qvcache.Common.{
  ℕ, zero, suc, ◌≤◌, ◌<◌, min, List, [], ◌∷◌, ◌++◌, reverse, some, erase, length, pop_back, take,
  ◌≡◌, refl, sym, ap, ◌∙◌, arith, length-reverse,
}
use qvcache.Lru.{LruCache, order, drop_lru, evict_loop, evict, get_lru_tags}
use qvcache.Lru.Invariant.{IsValid, drop_lru-IsValid, length-pop_back_lem}
use qvcache.Lru.Order.{back-some, back-tags, tags-pop_back, pop_back-append-back, length-tags}

-- What an eviction gives: the tags that it took, the most dormant first, and the cache without them.
pub record Evicted {A : Type 0} (dec : Discrete A) (c : LruCache A) (taken : List A)
    (c' : LruCache A) : Type 0 where
  pub valid : IsValid dec c'
  pub capacity : c'.max_capacity ≡ c.max_capacity
  pub split : order c ≡ order c' ++ reverse taken

module _ {ℓ} {A : Type ℓ} where
  take-append : (xs ys : List A) → take (length xs) (xs ++ ys) ≡ xs
  take-append [] ys = refl
  take-append (x ∷ xs) ys = ap (◌∷◌ x) (take-append xs ys)

  take-min : (n : ℕ) (xs : List A) → take (min n (length xs)) xs ≡ take n xs
  take-min zero [] = refl
  take-min zero (x ∷ xs) = let e : min 0 (suc (length xs)) ≡ 0 = omega arith in rw e
  take-min (suc n) [] = let e : min (suc n) 0 ≡ 0 = omega arith in rw e
  take-min (suc n) (x ∷ xs) =
      let e : min (suc n) (suc (length xs)) ≡ suc (min n (length xs)) = omega arith in
      rw e (ap (◌∷◌ x) (take-min n xs))

  take-reverse :
      (n : ℕ) (l l' taken : List A)
      → l ≡ l' ++ reverse taken
      → length taken ≡ min n (length l)
      → taken ≡ take n (reverse l)
  take-reverse n l l' taken split len =
      let flipped : reverse l ≡ taken ++ reverse l' =
        ap reverse split
        ∙ reverse-append l' (reverse taken)
        ∙ ap (λ x. x ++ reverse l') (reverse-reverse taken) in
      let all : length taken ≡ min n (length (reverse l)) = omega (arith, length-reverse l) in
      sym (take-append taken (reverse l'))
      ∙ ap (take (length taken)) (sym flipped)
      ∙ ap (λ k. take k (reverse l)) all
      ∙ take-min n (reverse l)

module _ {A : Type 0} (dec : Discrete A) where
  drop_lru-Evicted :
      (c : LruCache A)
      → IsValid dec c
      → 0 < length c.order_list
      → (t : A) × (c' : LruCache A) × (drop_lru dec c ≡ some (t, c'))
        × Evicted dec c (t ∷ []) c'
        × (suc (length c'.order_list) ≡ length c.order_list)
  unfolding drop_lru
  drop_lru-Evicted c v pos =
      let (n, last) = back-some c.order_list pos in
      (
        n.0,
        record c { order_list = pop_back c.order_list; tag_map = erase dec n.0 c.tag_map },
        ground arith,
        record {
          valid = drop_lru-IsValid dec c n v last;
          capacity = refl;
          split =
              rw (tags-pop_back c.order_list)
                (pop_back-append-back (order c) n.0 (back-tags c.order_list n last));
        },
        length-pop_back_lem c.order_list pos,
      )

  evict_loop-Evicted :
      (i : ℕ) (c : LruCache A)
      → IsValid dec c
      → i ≤ length c.order_list
      → (taken : List A) × (c' : LruCache A) × (evict_loop dec i c ≡ some (taken, c'))
        × Evicted dec c taken c'
        × (length taken ≡ i)
  unfolding evict_loop
  evict_loop-Evicted zero c v h =
      ([], c, refl, record { valid = v; capacity = refl; split = sym (append-nil _) }, refl)
  evict_loop-Evicted (suc i) c v h =
      let (t, c', ran, once, len) = drop_lru-Evicted c v (omega arith) in
      let (rest, c'', ran', more, len') = evict_loop-Evicted i c' once.valid (omega arith) in
      (
        t ∷ rest,
        c'',
        rw (ran, ran'),
        record {
          valid = more.valid;
          capacity = more.capacity ∙ once.capacity;
          split =
              once.split
              ∙ ap (λ l. l ++ t ∷ []) more.split
              ∙ append_assoc (order c'') (reverse rest) (t ∷ [])
              ∙ ap (◌++◌ (order c'')) (sym (reverse-cons t rest));
        },
        ap suc len',
      )

  -- Eviction never faults: it takes exactly the tags that `get_lru_tags` lists, in that order, and
  -- leaves the others in theirs.
  pub evict-Evicted :
      (c : LruCache A) (n : ℕ)
      → IsValid dec c
      → (c' : LruCache A) × (evict dec c n ≡ some (get_lru_tags c n, c'))
        × Evicted dec c (get_lru_tags c n) c'
  unfolding evict get_lru_tags
  evict-Evicted c n v =
      let (taken, c', ran, done, len) =
        evict_loop-Evicted (min n (length c.order_list)) c v (omega arith) in
      let e : taken ≡ take n (reverse (order c)) =
        take-reverse n (order c) (order c') taken done.split
          (omega (arith, length-tags c.order_list)) in
      (c', rw (← e) ran, rw (← e) done)
