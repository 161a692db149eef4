-- ===== src/Store/Counts.antt =====
-- How many documents match, where at most one does.
use cloudops_sentinel.Base.{
  ◌≤◌, ◌≡◌, refl, inl, inr, Bool, true, false, List, [], ◌∷◌, ◌++◌, arith, Bool-cases, count,
  count-append, All,
}

-- Where at most one document matches, no other than a match does.
pub others_miss :
    {A : Type 0} (p : A → Bool) (pre : List A) (x : A) (post : List A)
    → p x ≡ true
    → count p (pre ++ x ∷ post) ≤ 1
    → All (λ y. p y ≡ false) pre × All (λ y. p y ≡ false) post
others_miss p [] x post hit h = (tt, none_counted p post (ground arith))
  where
    none_counted :
        {A : Type 0} (p : A → Bool) (xs : List A) → count p xs ≤ 0 → All (λ y. p y ≡ false) xs
    none_counted p [] h = tt
    none_counted p (y ∷ ys) h = elim (Bool-cases (p y)) [
      | inl is ↦ absurd (ground arith)
      | inr miss ↦ (miss, none_counted p ys (ground arith))
    ]
others_miss p (y ∷ pre) x post hit h =
    let rest = others_miss p pre x post hit (ground arith) in
    elim (Bool-cases (p y)) [
      | inl is ↦ absurd (ground (arith, count-append p pre (x ∷ post)))
      | inr miss ↦ ((miss, rest.0), rest.1)
    ]

pub count_replaced :
    {A : Type 0} (p : A → Bool) (pre : List A) (x y : A) (post : List A)
    → p x ≡ p y
    → count p (pre ++ x ∷ post) ≡ count p (pre ++ y ∷ post)
count_replaced p [] x y post same = rw same refl
count_replaced p (z ∷ pre) x y post same = rw (count_replaced p pre x y post same) refl

pub count_added :
    {A : Type 0} (p : A → Bool) (xs : List A) (y : A)
    → (p y ≡ true → count p xs ≡ 0)
    → count p xs ≤ 1
    → count p (xs ++ y ∷ []) ≤ 1
count_added p xs y none h = elim (Bool-cases (p y)) [
  | inl is ↦ ground (arith, none is, count-append p xs (y ∷ []))
  | inr miss ↦ ground (arith, count-append p xs (y ∷ []))
]
