-- ===== src/Cache/Victims.antt =====
-- Which points `evict_oldest_points` of include/qvcache/qvcache.h takes.
use qvcache.Common.{
  ℕ, zero, suc, ◌≤◌, List, [], ◌∷◌, none, some, find, erase, length, find-erase, All, Any, ◌≡◌, ◌≢◌,
  refl, sym, ap, ◌∙◌, arith, Option-cases, ◌⊎◌, inl, inr, ℕ_discrete, subst,
}
use mathlib.Core.Option.{none-ne-some}
use mathlib.Core.Logic.{if_pos, if_neg}
use qvcache.Cache.{Diskann, TagSet, take_victims}

-- Every admitted tag waits in the queue.
abbrev pub Queued : List ℕ → TagSet → Type 0
Queued fifo admitted = (t : ℕ) → (find ℕ_discrete t admitted ≡ none) ⊎ Any (λ x. x ≡ t) fifo

-- Of the result: at most n victims, all admitted before and none after, the others as before.
pub record Victims (n : ℕ) (admitted : TagSet) (victims fifo : List ℕ) (left : TagSet)
    : Type 0 where
  pub bounded : length victims ≤ n
  pub were : All (λ t. find ℕ_discrete t admitted ≢ none) victims
  pub gone : All (λ t. find ℕ_discrete t left ≡ none) victims
  pub kept :
      (t : ℕ) → (find ℕ_discrete t left ≡ find ℕ_discrete t admitted) ⊎ Any (λ x. x ≡ t) victims
  pub queued : Queued fifo left
  pub enough : (length victims ≡ n) ⊎ ((t : ℕ) → find ℕ_discrete t left ≡ none)

drop_absent :
    (tag : ℕ) (fifo : List ℕ) (admitted : TagSet)
    → find ℕ_discrete tag admitted ≡ none
    → Queued (tag ∷ fifo) admitted
    → Queued fifo admitted
drop_absent tag fifo admitted e q t = elim (q t) [
  | inl n ↦ inl n
  | inr (inl s) ↦ inl (subst (λ x. find ℕ_discrete x admitted ≡ none) s e)
  | inr (inr a) ↦ inr a
]

erase_first :
    (tag : ℕ) (fifo : List ℕ) (admitted : TagSet)
    → Queued (tag ∷ fifo) admitted
    → Queued fifo (erase ℕ_discrete tag admitted)
erase_first tag fifo admitted q t = elim (ℕ_discrete tag t) [
  | yes s ↦ inl (find-erase ℕ_discrete tag t admitted ∙ if_pos (ℕ_discrete tag t) s _ _)
  | no n ↦ elim (q t) [
    | inl e ↦ inl (find-erase ℕ_discrete tag t admitted ∙ if_neg (ℕ_discrete tag t) n _ _ ∙ e)
    | inr (inl s) ↦ absurd (n s)
    | inr (inr a) ↦ inr a
  ]
]

erase-absent :
    (tag t : ℕ) (admitted : TagSet)
    → find ℕ_discrete t admitted ≡ none
    → find ℕ_discrete t (erase ℕ_discrete tag admitted) ≡ none
erase-absent tag t admitted e = elim (ℕ_discrete tag t) [
  | yes s ↦ find-erase ℕ_discrete tag t admitted ∙ if_pos (ℕ_discrete tag t) s _ _
  | no n ↦ find-erase ℕ_discrete tag t admitted ∙ if_neg (ℕ_discrete tag t) n _ _ ∙ e
]

were_before :
    (tag : ℕ) (admitted : TagSet) (victims : List ℕ)
    → All (λ t. find ℕ_discrete t (erase ℕ_discrete tag admitted) ≢ none) victims
    → All (λ t. find ℕ_discrete t admitted ≢ none) victims
were_before tag admitted [] h = tt
were_before tag admitted (t ∷ victims) h =
    (λ e. h.0 (erase-absent tag t admitted e), were_before tag admitted victims h.1)

one_more :
    (n tag : ℕ) (u : Unit {0}) (admitted : TagSet) (victims fifo : List ℕ) (left : TagSet)
    → find ℕ_discrete tag admitted ≡ some u
    → find ℕ_discrete tag left ≡ none
    → Victims n (erase ℕ_discrete tag admitted) victims fifo left
    → Victims (suc n) admitted (tag ∷ victims) fifo left
one_more n tag u admitted victims fifo left e absent h = record {
  bounded = omega (arith, h.bounded);
  were = (λ n. none-ne-some _ (sym n ∙ e), were_before tag admitted victims h.were);
  gone = (absent, h.gone);
  kept = λ t. elim (ℕ_discrete tag t) [
    | yes s ↦ inr (inl s)
    | no n ↦ elim (h.kept t) [
      | inl k ↦ inl (k ∙ find-erase ℕ_discrete tag t admitted ∙ if_neg (ℕ_discrete tag t) n _ _)
      | inr a ↦ inr (inr a)
    ]
  ];
  queued = h.queued;
  enough = elim h.enough [ inl k ↦ inl (ap suc k) | inr k ↦ inr k ];
}

module _ (Vec : Type 0) (D : Diskann Vec) where
  -- What was not admitted is not admitted after.
  stays_absent :
      (n t : ℕ) (fifo : List ℕ) (admitted : TagSet)
      → find ℕ_discrete t admitted ≡ none
      → find ℕ_discrete t (take_victims Vec D n fifo admitted).1.1 ≡ none
  unfolding take_victims
  stays_absent zero t fifo admitted e = e
  stays_absent (suc n) t [] admitted e = e
  stays_absent (suc n) t (tag ∷ fifo) admitted e =
      elim (Option-cases (find ℕ_discrete tag admitted)) [
        | inl none_here ↦ rw (none_here, take_victims) (stays_absent (suc n) t fifo admitted e)
        | inr (u, here) ↦
            rw (here, take_victims)
              (stays_absent n t fifo (erase ℕ_discrete tag admitted)
                (erase-absent tag t admitted e))
      ]

  -- The loop over the queue takes at most n tags, each one that was admitted, and none of them is
  -- left; every other tag is as before and the rest still waits. If it takes fewer, none is left.
  -- Before it, every admitted tag waits in the queue.
  pub take_victims-Victims :
      (n : ℕ) (fifo : List ℕ) (admitted : TagSet)
      → Queued fifo admitted
      → let r = take_victims Vec D n fifo admitted in Victims n admitted r.0 r.1.0 r.1.1
  unfolding take_victims
  take_victims-Victims zero fifo admitted q = record {
    bounded = omega arith;
    were = tt;
    gone = tt;
    kept = λ t. inl refl;
    queued = q;
    enough = inl refl;
  }
  take_victims-Victims (suc n) [] admitted q = record {
    bounded = omega arith;
    were = tt;
    gone = tt;
    kept = λ t. inl refl;
    queued = q;
    enough = inr (λ t. elim (q t) [ inl e ↦ e | inr a ↦ elim a [ ] ]);
  }
  take_victims-Victims (suc n) (tag ∷ fifo) admitted q =
      elim (Option-cases (find ℕ_discrete tag admitted)) [
        | inl e ↦
            rw (e, take_victims)
              (take_victims-Victims (suc n) fifo admitted (drop_absent tag fifo admitted e q))
        | inr (u, e) ↦
            rw (e, take_victims)
              (one_more n tag u admitted _ _ _ e
                (stays_absent n tag fifo (erase ℕ_discrete tag admitted)
                  (find-erase ℕ_discrete tag tag admitted ∙ if_pos (ℕ_discrete tag tag) refl _ _))
                (take_victims-Victims n fifo (erase ℕ_discrete tag admitted)
                  (erase_first tag fifo admitted q)))
      ]
