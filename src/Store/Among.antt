-- ===== src/Store/Among.antt =====
-- Which document an update works on, where only one of a collection matches.
use cloudops_sentinel.Base.{
  ◌≡◌, refl, ap, ◌∙◌, Bool, true, false, Option, some, List, [], ◌∷◌, ◌++◌, subst, All,
  All-append_right,
}
use cloudops_sentinel.Store.Laws.{Update, kept, changed}

abbrev pub AllMiss : {A : Type 0} → (A → Bool) → List A → Type 0
AllMiss p = All (λ x. p x ≡ false)

cons_inj : {A : Type 0} {x y : A} {xs ys : List A} → x ∷ xs ≡ y ∷ ys → (x ≡ y) × (xs ≡ ys)
cons_inj h = (cc, cc)

-- The match divides a collection in one way.
one_split :
    {A : Type 0} (p : A → Bool) (pre : List A) (x : A) (post pre' : List A) (y : A) (post' : List A)
    → AllMiss p pre
    → AllMiss p post
    → p y ≡ true
    → pre ++ x ∷ post ≡ pre' ++ y ∷ post'
    → (pre ≡ pre') × (x ≡ y) × (post ≡ post')
one_split p [] x post [] y post' m n hit e = let (a, b) = cons_inj e in (refl, a, b)
one_split p [] x post (z ∷ pre') y post' m n hit e =
    let (a, b) = cons_inj e in
    let miss = (All-append_right (λ w. p w ≡ false) pre' (y ∷ post') (subst (AllMiss p) b n)).0 in
    absurd (cc (hit, miss))
one_split p (w ∷ pre) x post [] y post' m n hit e =
    let (a, b) = cons_inj e in absurd (cc (ap p a, m.0, hit))
one_split p (w ∷ pre) x post (z ∷ pre') y post' m n hit e =
    let (a, b) = cons_inj e in
    let (front, same, back) = one_split p pre x post pre' y post' m.1 n hit b in
    (cc (a, front), same, back)

pub Update-among :
    {A : Type 0} (p : A → Bool) (f : A → A) (pre : List A) (x : A) (post : List A)
    (r : List A × Option A)
    → AllMiss p pre
    → AllMiss p post
    → p x ≡ true
    → Update p f (pre ++ x ∷ post) r
    → r ≡ (pre ++ f x ∷ post, some (f x))
Update-among p f pre x post r m n h (kept e all) =
    absurd (cc (h, (All-append_right (λ w. p w ≡ false) pre (x ∷ post) all).0))
Update-among p f pre x post r m n h (changed pre' y post' split hit e) =
    let (front, same, back) = one_split p pre x post pre' y post' m n hit split in
    e ∙ rw (front, same, back) refl
