-- ===== src/Common/Maps.antt =====
-- Association lists for `std::unordered_map`, over keys with a decidable equality.
use Prim.Native.Nat.{suc}
use mathlib.Core.Path.{◌≡◌, refl, sym, subst}
use mathlib.Core.Logic.{ite, if_pos, if_neg}
use mathlib.Core.List.{List, [], ◌∷◌, ◌++◌, map}
use mathlib.Core.Option.{Option, none, some}
use native.Mathlib.Omega.{arith}
use qvcache.Common.Lists.{length, All}

module _ {ℓ} {K V : Type ℓ} (dec : Discrete K) where
  unfoldable pub find : K → List (K × V) → Option V
  find k [] = none
  find k ((j, v) ∷ m) = ite (dec j k) (some v) (find k m)

  -- `m[k] = v`: an entry that is there keeps its place.
  unfoldable pub put : K → V → List (K × V) → List (K × V)
  put k v [] = (k, v) ∷ []
  put k v ((j, w) ∷ m) = ite (dec j k) ((j, v) ∷ m) ((j, w) ∷ put k v m)

  unfoldable pub erase : K → List (K × V) → List (K × V)
  erase k [] = []
  erase k ((j, v) ∷ m) = ite (dec j k) (erase k m) ((j, v) ∷ erase k m)

  pub find-put :
      (k q : K) (v : V) (m : List (K × V)) → find q (put k v m) ≡ ite (dec k q) (some v) (find q m)
  unfolding find put
  find-put k q v [] = refl
  find-put k q v ((j, w) ∷ m) = ground (arith, find-put k q v m)

  pub find-put_self : (k : K) (v : V) (m : List (K × V)) → find k (put k v m) ≡ some v
  find-put_self k v m = ground (arith, find-put k k v m)

  pub find-erase : (k q : K) (m : List (K × V)) → find q (erase k m) ≡ ite (dec k q) none (find q m)
  unfolding find erase
  find-erase k q [] = ground arith
  find-erase k q ((j, w) ∷ m) = ground (arith, find-erase k q m)

  abbrev pub keys : List (K × V) → List K
  keys = map (λ e. e.0)

  -- No key stands twice.
  abbrev pub DistinctKeys : List (K × V) → Type ℓ
  DistinctKeys [] = Unit
  DistinctKeys ((k, v) ∷ m) = (find k m ≡ none) × DistinctKeys m

  pub keys-put_present :
      (k : K) (v w : V) (m : List (K × V)) → find k m ≡ some w → keys (put k v m) ≡ keys m
  unfolding find put
  keys-put_present k v w [] h = cc
  keys-put_present k v w ((j, x) ∷ m) h = ground (arith, keys-put_present k v w m)

  pub keys-put_absent :
      (k : K) (v : V) (m : List (K × V)) → find k m ≡ none → keys (put k v m) ≡ keys m ++ k ∷ []
  unfolding find put
  keys-put_absent k v [] h = refl
  keys-put_absent k v ((j, x) ∷ m) h = ground (arith, keys-put_absent k v m)

  pub erase_absent : (k : K) (m : List (K × V)) → find k m ≡ none → erase k m ≡ m
  unfolding find erase
  erase_absent k [] h = refl
  erase_absent k ((j, x) ∷ m) h = ground (arith, erase_absent k m)

  pub put-DistinctKeys :
      (k : K) (v : V) (m : List (K × V)) → DistinctKeys m → DistinctKeys (put k v m)
  unfolding find put
  put-DistinctKeys k v [] d = (refl, tt)
  put-DistinctKeys k v ((j, x) ∷ m) d = ground (arith, put-DistinctKeys k v m d.1, find-put k j v m)

  pub length-put_absent :
      (k : K) (v : V) (m : List (K × V)) → find k m ≡ none → length (put k v m) ≡ suc (length m)
  unfolding find put
  length-put_absent k v [] h = refl
  length-put_absent k v ((j, x) ∷ m) h = ground (arith, length-put_absent k v m)

  -- To erase the first of distinct keys drops the first entry.
  pub erase-head :
      (m : List (K × V)) (k : K) (rest : List K)
      → DistinctKeys m
      → keys m ≡ k ∷ rest
      → (keys (erase k m) ≡ rest) × DistinctKeys (erase k m) × (suc (length (erase k m)) ≡ length m)
  unfolding erase
  erase-head [] k rest d h = cc
  erase-head ((j, x) ∷ m) k rest d h = ground (arith, erase_absent j m d.0)

  pub All-put :
      (P : K × V → Type 0) (k : K) (v : V) (m : List (K × V))
      → P (k, v)
      → All P m
      → All P (put k v m)
  unfolding put
  All-put P k v [] p h = (p, tt)
  All-put P k v ((j, w) ∷ m) p h = elim (dec j k) [
    | yes e ↦ rw (if_pos (dec j k) e _ _) (subst (λ i. P (i, v)) (sym e) p, h.1)
    | no n ↦ rw (if_neg (dec j k) n _ _) (h.0, All-put P k v m p h.1)
  ]
