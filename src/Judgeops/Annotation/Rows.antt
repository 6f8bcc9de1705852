-- ===== src/Judgeops/Annotation/Rows.antt =====
-- platforms/judgeops/annotation.py: the rows that calls of `label` make, and their order.
use openmodelops.Base.{
  text_leb, String, ◌≡◌, refl, ◌∙◌, inl, inr, Bool, false, ◌||◌, List, [], ◌∷◌, ◌++◌, arith, eq_iff,
  ltb, Bool-cases, eq_of_nat, eq_of_string, keep, any, any-append, All, is_blank, codes,
}
use openmodelops.Judgeops.Annotation.{
  stripped_length, Verdict, Annotation, AnnotationLedger, is_review, has_key_of, label, place,
  order_by_reviewer,
}

-- No reviewer has two labels of one sample, and none is left open.
abbrev pub IsLedger : AnnotationLedger → Type 0
IsLedger [] = Unit
IsLedger (a ∷ xs) =
    (any (has_key_of a.sample_id a.reviewer) xs ≡ false)
    × (is_review a.verdict ≡ false)
    × IsLedger xs

pub any-last :
    (p : Annotation → Bool) (xs : List Annotation) (a : Annotation)
    → any p (xs ++ a ∷ []) ≡ (any p xs || p a)
unfolding any
any-last p xs a = ground (arith, any-append p xs (a ∷ []))

IsLedger-append :
    (xs : AnnotationLedger) (a : Annotation)
    → any (has_key_of a.sample_id a.reviewer) xs ≡ false
    → is_review a.verdict ≡ false
    → IsLedger xs
    → IsLedger (xs ++ a ∷ [])
unfolding any
IsLedger-append [] a n r h = (refl, r, tt)
IsLedger-append (b ∷ xs) a n r (k, v, h) = (
  ground (
    arith,
    any-last (has_key_of b.sample_id b.reviewer) xs a,
    eq_iff a.sample_id b.sample_id,
    eq_iff b.sample_id a.sample_id,
    eq_iff a.reviewer b.reviewer,
    eq_iff b.reviewer a.reviewer,
  ),
  v,
  IsLedger-append xs a (ground arith) r h,
)

pub label-IsLedger :
    (sample_id reviewer : String) (verdict : Verdict) (rationale : String) (xs : AnnotationLedger)
    → IsLedger xs
    → IsLedger (label sample_id reviewer verdict rationale xs).1
unfolding label
label-IsLedger sample_id reviewer verdict rationale xs h = elim (Bool-cases (is_review verdict)) [
  | inl r ↦ rw r h
  | inr r ↦
      rw r
        (elim (Bool-cases
          (is_blank sample_id || is_blank reviewer || ltb (stripped_length rationale) 10)) [
            | inl b ↦ rw b h
            | inr b ↦ rw b (elim (Bool-cases (any (has_key_of sample_id reviewer) xs)) [
              | inl k ↦ rw k h
              | inr k ↦ rw k (IsLedger-append xs _ k r h)
            ])
          ])
]

any-place :
    (p : Annotation → Bool) (a : Annotation) (xs : List Annotation)
    → any p (place a xs) ≡ (p a || any p xs)
unfolding any place
any-place p a [] = refl
any-place p a (b ∷ xs) = ground (arith, any-place p a xs)

any-keep :
    (p q : Annotation → Bool) (xs : List Annotation) → any p xs ≡ false → any p (keep q xs) ≡ false
unfolding any keep
any-keep p q [] h = refl
any-keep p q (a ∷ xs) h = ground (arith, any-keep p q xs (ground arith))

pub keep-IsLedger :
    (q : Annotation → Bool) (xs : List Annotation) → IsLedger xs → IsLedger (keep q xs)
unfolding keep
keep-IsLedger q [] h = tt
keep-IsLedger q (a ∷ xs) (n, r, h) = elim (Bool-cases (q a)) [
  | inl e ↦ rw e (any-keep (has_key_of a.sample_id a.reviewer) q xs n, r, keep-IsLedger q xs h)
  | inr e ↦ rw e (keep-IsLedger q xs h)
]

place-IsLedger :
    (a : Annotation) (xs : List Annotation)
    → any (has_key_of a.sample_id a.reviewer) xs ≡ false
    → is_review a.verdict ≡ false
    → IsLedger xs
    → IsLedger (place a xs)
unfolding place any
place-IsLedger a [] n r h = (refl, r, tt)
place-IsLedger a (b ∷ xs) n r (k, v, h) =
    elim (Bool-cases (text_leb (codes a.reviewer) (codes b.reviewer))) [
      | inl t ↦ rw t (n, r, (k, v, h))
      | inr t ↦ rw t (
        ground (
          arith,
          any-place (has_key_of b.sample_id b.reviewer) a xs,
          eq_iff a.sample_id b.sample_id,
          eq_iff b.sample_id a.sample_id,
          eq_iff a.reviewer b.reviewer,
          eq_iff b.reviewer a.reviewer,
        ),
        v,
        place-IsLedger a xs (ground arith) r h,
      )
    ]

any-order : (p : Annotation → Bool) (xs : List Annotation) → any p (order_by_reviewer xs) ≡ any p xs
unfolding any order_by_reviewer
any-order p [] = refl
any-order p (a ∷ xs) = ground (arith, any-place p a (order_by_reviewer xs), any-order p xs)

pub order-IsLedger : (xs : List Annotation) → IsLedger xs → IsLedger (order_by_reviewer xs)
unfolding order_by_reviewer
order-IsLedger [] h = tt
order-IsLedger (a ∷ xs) (n, r, h) =
    place-IsLedger a (order_by_reviewer xs) (any-order (has_key_of a.sample_id a.reviewer) xs ∙ n) r
      (order-IsLedger xs h)

module _ (P : Annotation → Type 0) where
  place-All : (a : Annotation) (xs : List Annotation) → P a → All P xs → All P (place a xs)
  unfolding place
  place-All a [] p h = (p, tt)
  place-All a (b ∷ xs) p h = elim (Bool-cases (text_leb (codes a.reviewer) (codes b.reviewer))) [
    | inl t ↦ rw t (p, h)
    | inr t ↦ rw t (h.0, place-All a xs p h.1)
  ]

  pub order-All : (xs : List Annotation) → All P xs → All P (order_by_reviewer xs)
  unfolding order_by_reviewer
  order-All [] h = tt
  order-All (a ∷ xs) h = place-All a (order_by_reviewer xs) h.0 (order-All xs h.1)
