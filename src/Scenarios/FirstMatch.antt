-- ===== src/Scenarios/FirstMatch.antt =====
-- A database that finds the first document that matches.
use cloudops_sentinel.Base.{
  ◌≡◌, refl, sym, ap, subst, ◌∙◌, inl, inr, Bool, true, false, none, some, get_or, List, [], ◌∷◌,
  ◌++◌, Memᴰ, if◌then◌else◌, Bool-cases, Option-cases, filter, length-filter, All,
}
use cloudops_sentinel.Store.{Collection, Found}

abbrev behind : {A : Type 0} → A → Found A → Found A
behind y none = none
behind y (some (pre, x, post)) = some (y ∷ pre, x, post)

unfoldable pub first : {A : Type 0} → (A → Bool) → List A → Found A
first p [] = none
first p (x ∷ xs) = let rest = first p xs in if p x then some ([], x, xs) else behind x rest

pub first-found :
    {A : Type 0} (p : A → Bool) (docs pre : List A) (x : A) (post : List A)
    → first p docs ≡ some (pre, x, post)
    → (docs ≡ pre ++ x ∷ post) × (p x ≡ true)
unfolding first
first-found p [] pre x post h = cc
first-found {A} p (y ∷ ys) pre x post h = elim (Bool-cases (p y)) [
  | inl hit ↦
      let e : Path (List A × A × List A) ([], y, ys) (pre, x, post) =
        ap (λ o. get_or o ([], y, ys)) (sym (here hit) ∙ h) in
      (subst (λ t. y ∷ ys ≡ t.0 ++ t.1 ∷ t.2) e refl, subst (λ t. p t.1 ≡ true) e hit)
  | inr miss ↦ elim (Option-cases (first p ys)) [
    | inl no_rest ↦ absurd (cc (sym (there miss) ∙ h, no_rest))
    | inr ((pre', x', post'), r) ↦
        let e : Path (List A × A × List A) (y ∷ pre', x', post') (pre, x, post) =
          ap (λ o. get_or o (y ∷ pre', x', post')) (sym (ap (behind y) r) ∙ sym (there miss) ∙ h) in
        let (split, hit) = first-found p ys pre' x' post' r in
        (
          subst (λ t. y ∷ ys ≡ t.0 ++ t.1 ∷ t.2) e (ap (λ l. y ∷ l) split),
          subst (λ t. p t.1 ≡ true) e hit,
        )
  ]
]
  where
    here : p y ≡ true → first p (y ∷ ys) ≡ some ([], y, ys)
    here hit = rw hit refl

    there : p y ≡ false → first p (y ∷ ys) ≡ behind y (first p ys)
    there miss = rw miss refl

behind-none : {A : Type 0} (y : A) (r : Found A) → behind y r ≡ none → r ≡ none
behind-none y none h = refl
behind-none y (some t) h = cc

pub first-missed :
    {A : Type 0} (p : A → Bool) (docs : List A) → first p docs ≡ none → All (λ x. p x ≡ false) docs
unfolding first
first-missed p [] h = tt
first-missed p (y ∷ ys) h = elim (Bool-cases (p y)) [
  | inl hit ↦ absurd (cc (rw hit at h))
  | inr miss ↦ (miss, first-missed p ys (behind-none y (first p ys) (rw miss at h)))
]

pub filter_sound :
    {A : Type 0} (p : A → Bool) (docs : List A) (x : A)
    → Memᴰ x (filter p docs)
    → Memᴰ x docs × (p x ≡ true)
filter_sound p [] x m = elim m [ ]
filter_sound p (y ∷ ys) x m = elim (Bool-cases (p y)) [
  | inl hit ↦ kept p y ys x hit (filter_sound p ys x) (rw hit at m)
  | inr miss ↦ let (n, h) = filter_sound p ys x (rw miss at m) in (Memᴰ.tail n, h)
]
  where
    kept :
        {A : Type 0} (p : A → Bool) (y : A) (ys : List A) (x : A)
        → p y ≡ true
        → (Memᴰ x (filter p ys) → Memᴰ x ys × (p x ≡ true))
        → Memᴰ x (y ∷ filter p ys)
        → Memᴰ x (y ∷ ys) × (p x ≡ true)
    kept p y ys x hit rest (Memᴰ.head e) = (Memᴰ.head e, rw e hit)
    kept p y ys x hit rest (Memᴰ.tail m) = let (n, h) = rest m in (Memᴰ.tail n, h)

pub filter_complete :
    {A : Type 0} (p : A → Bool) (docs : List A) (x : A)
    → Memᴰ x docs
    → p x ≡ true
    → Memᴰ x (filter p docs)
filter_complete p [] x m h = elim m [ ]
filter_complete p (y ∷ ys) x (Memᴰ.head e) h = rw (subst (λ z. p z ≡ true) e h) (Memᴰ.head e)
filter_complete p (y ∷ ys) x (Memᴰ.tail m) h = elim (Bool-cases (p y)) [
  | inl hit ↦ rw hit (Memᴰ.tail (filter_complete p ys x m h))
  | inr miss ↦ rw miss (filter_complete p ys x m h)
]

abbrev pub collection : {A : Type 0} → Collection A
collection = record {
  find_one = first;
  find = filter;
  found = first-found;
  missed = first-missed;
  find_sound = filter_sound;
  find_complete = filter_complete;
  length-find = length-filter;
}
