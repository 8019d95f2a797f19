-- ===== src/Lru.antt =====
-- include/qvcache/lru_cache.h: the order list and the map from tags to iterators.
pub mod Invariant
pub mod Order
pub mod Evict
use qvcache.Common.{
  ℕ, zero, suc, ◌+◌, min, ite, dec_le, ℕ_discrete, List, [], ◌∷◌, ◌++◌, map, reverse, Bool, true,
  false, Option, none, some, ◌>>=◌, find, put, erase, length, take, back, pop_back,
}

-- A list node: its tag and its address. An iterator is the address of its node.
abbrev pub Node : Type 0 → Type 0
Node A = A × ℕ

pub record LruCache (A : Type 0) : Type 0 where
  pub order_list : List (Node A)
  pub tag_map : List (A × ℕ)
  pub next_address : ℕ  -- the address of the next node that the list allocates
  pub max_capacity : ℕ

module _ {A : Type 0} where
  unfoldable pub init : ℕ → LruCache A
  init capacity = record {
    order_list = [];
    tag_map = [];
    next_address = 0;
    max_capacity = capacity;
  }

  unfoldable pub tag_at : ℕ → List (Node A) → Option A
  tag_at a [] = none
  tag_at a ((t, b) ∷ ns) = ite (ℕ_discrete b a) (some t) (tag_at a ns)

  unfoldable pub unlink : ℕ → List (Node A) → List (Node A)
  unlink a [] = []
  unlink a ((t, b) ∷ ns) = ite (ℕ_discrete b a) ns ((t, b) ∷ unlink a ns)

  -- `splice(begin(), list, it)`; a dangling iterator is a fault.
  unfoldable pub splice_front : ℕ → List (Node A) → Option (List (Node A))
  splice_front a ns = elim (tag_at a ns) [ none ↦ none | some t ↦ some ((t, a) ∷ unlink a ns) ]

  abbrev pub tags : List (Node A) → List A
  tags = map (λ n. n.0)

  abbrev pub order : LruCache A → List A
  order c = tags c.order_list

  unfoldable pub size : LruCache A → ℕ
  size c = length c.order_list

  unfoldable pub empty : LruCache A → Bool
  empty c = elim c.order_list [ [] ↦ true | _ ∷ _ ↦ false ]

  unfoldable pub clear : LruCache A → LruCache A
  clear c = record c { order_list = []; tag_map = [] }

  unfoldable pub get_all_tags : LruCache A → List A
  get_all_tags c = order c

  unfoldable pub get_mru_tags : LruCache A → ℕ → List A
  get_mru_tags c n = take n (order c)

  unfoldable pub get_lru_tags : LruCache A → ℕ → List A
  get_lru_tags c n = take n (reverse (order c))

module _ {A : Type 0} (dec : Discrete A) where
  unfoldable pub contains : LruCache A → A → Bool
  contains c tag = elim (find dec tag c.tag_map) [ none ↦ false | some _ ↦ true ]

  -- `back`, `pop_back` and the erasure of its tag; `back` on an empty list is a fault.
  unfoldable pub drop_lru : LruCache A → Option (A × LruCache A)
  drop_lru c = elim (back c.order_list) [
    | none ↦ none
    | some n ↦
        some
          (n.0, record c { order_list = pop_back c.order_list; tag_map = erase dec n.0 c.tag_map })
  ]

  unfoldable pub push_new : LruCache A → A → LruCache A
  push_new c tag = record c {
    order_list = (tag, c.next_address) ∷ c.order_list;
    tag_map = put dec tag c.next_address c.tag_map;
    next_address = suc c.next_address;
  }

  -- The new cache, and whether the tag was newly inserted.
  unfoldable pub access : LruCache A → A → Option (LruCache A × Bool)
  access c tag = elim (find dec tag c.tag_map) [
    | some it ↦ do
      moved ← splice_front it c.order_list
      some (record c { order_list = moved }, false)
    | none ↦
        ite (dec_le c.max_capacity (length c.order_list))
          (do (_, c') ← drop_lru c; some (push_new c' tag, true)) (some (push_new c tag, true))
  ]

  -- The loop of `evict`, with the rounds that are left.
  unfoldable pub evict_loop : ℕ → LruCache A → Option (List A × LruCache A)
  evict_loop zero c = some ([], c)
  evict_loop (suc i) c = do
    (tag, c') ← drop_lru c
    (rest, c'') ← evict_loop i c'
    some (tag ∷ rest, c'')

  unfoldable pub evict : LruCache A → ℕ → Option (List A × LruCache A)
  evict c n = evict_loop (min n (length c.order_list)) c
