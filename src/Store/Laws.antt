-- ===== src/Store/Laws.antt =====
-- What an update of a collection keeps, whichever document the database finds.
use cloudops_sentinel.Base.{
  length-append, length, ap, Option, ◌∙◌, ◌≡◌, refl, sym, subst, inl, inr, Bool, true, false, none,
  some, List, [], ◌∷◌, ◌++◌, Memᴰ, arith, All, All-append, All-append_left, All-append_right,
  mem-append_right, All₂, All₂-refl, All₂-append, Bool-cases,
}
use cloudops_sentinel.Store.{Found, Collection, find_one, find_one_and_update, update_many}

-- Either nothing matches, or a document that matches is found where it stands.
pub data Search {A : Type 0} (p : A → Bool) (docs : List A) (r : Found A) : Type 0 where
  none_found : r ≡ none → All (λ x. p x ≡ false) docs → Search p docs r
  one_found :
      (pre : List A) (x : A) (post : List A)
      → r ≡ some (pre, x, post)
      → docs ≡ pre ++ x ∷ post
      → p x ≡ true
      → Search p docs r

module _ {A : Type 0} (c : Collection A) (p : A → Bool) (docs : List A) where
  Search-of : (r : Found A) → c.find_one p docs ≡ r → Search p docs (c.find_one p docs)
  Search-of none e = none_found e (c.missed p docs e)
  Search-of (some (pre, x, post)) e =
      let (split, hit) = c.found p docs pre x post e in one_found pre x post e split hit

  pub Search-cases : Search p docs (c.find_one p docs)
  Search-cases = Search-of (c.find_one p docs) refl

  -- A document that `findOne` returns stands in the collection and matches.
  pub find_one_sound : {x : A} → find_one c p docs ≡ some x → Memᴰ x docs × (p x ≡ true)
  unfolding find_one
  find_one_sound {x} h = elim Search-cases [
    | none_found e all ↦ cc
    | one_found pre y post e split hit ↦
        let same : y ≡ x = ground arith in
        (rw split (mem-append_right pre _ (Memᴰ.head (sym same))), rw (← same) hit)
  ]

  -- It returns null only where nothing matches.
  pub find_one_missed : find_one c p docs ≡ none → All (λ x. p x ≡ false) docs
  unfolding find_one
  find_one_missed h = elim Search-cases [
    | none_found e all ↦ all
    | one_found pre y post e split hit ↦ absurd (ground arith)
  ]

  -- An invariant of the documents survives an update that keeps it on those that match.
  pub find_one_and_update-All {κ} :
      (P : A → Type κ) (f : A → A)
      → ((x : A) → p x ≡ true → P x → P (f x))
      → All P docs
      → All P (find_one_and_update c p f docs).0
  unfolding find_one_and_update
  find_one_and_update-All P f keep h = elim Search-cases [
    | none_found e all ↦ rw e h
    | one_found pre x post e split hit ↦ rw e (middle pre x post hit (subst (All P) split h))
  ]
    where
      middle :
          (pre : List A) (x : A) (post : List A)
          → p x ≡ true
          → All P (pre ++ x ∷ post)
          → All P (pre ++ f x ∷ post)
      middle pre x post hit g =
          let rest = All-append_right P pre (x ∷ post) g in
          All-append P pre (f x ∷ post) (All-append_left P pre (x ∷ post) g)
            (keep x hit rest.0, rest.1)

  pub find_one_and_update-All₂ :
      (R : A → A → Type 0) (f : A → A)
      → ((x : A) → R x x)
      → ((x : A) → p x ≡ true → R x (f x))
      → All₂ R docs (find_one_and_update c p f docs).0
  unfolding find_one_and_update
  find_one_and_update-All₂ R f stay move = elim Search-cases [
    | none_found e all ↦ rw e (All₂-refl R stay docs)
    | one_found pre x post e split hit ↦ rw e (
        subst (λ ds. All₂ R ds (pre ++ f x ∷ post)) (sym split)
          (All₂-append R pre pre (x ∷ post) (f x ∷ post) (All₂-refl R stay pre)
            (move x hit, All₂-refl R stay post)))
  ]

module _ {A : Type 0} (p : A → Bool) (f : A → A) where
  pub update_many-All {κ} :
      (P : A → Type κ) (docs : List A)
      → ((x : A) → p x ≡ true → P x → P (f x))
      → All P docs
      → All P (update_many p f docs).0
  unfolding update_many
  update_many-All P [] keep h = tt
  update_many-All P (x ∷ xs) keep h = elim (Bool-cases (p x)) [
    | inl hit ↦ rw hit (keep x hit h.0, update_many-All P xs keep h.1)
    | inr miss ↦ rw miss (h.0, update_many-All P xs keep h.1)
  ]

  pub update_many-All₂ :
      (R : A → A → Type 0) (docs : List A)
      → ((x : A) → R x x)
      → ((x : A) → p x ≡ true → R x (f x))
      → All₂ R docs (update_many p f docs).0
  unfolding update_many
  update_many-All₂ R [] stay move = tt
  update_many-All₂ R (x ∷ xs) stay move = elim (Bool-cases (p x)) [
    | inl hit ↦ rw hit (move x hit, update_many-All₂ R xs stay move)
    | inr miss ↦ rw miss (stay x, update_many-All₂ R xs stay move)
  ]

pub not-All_of_hit {ℓ} :
    {A : Type ℓ} (p : A → Bool) (pre : List A) (x : A) (post : List A)
    → p x ≡ true
    → ¬ All (λ x. p x ≡ false) (pre ++ x ∷ post)
not-All_of_hit p [] x post h all = cc (all.0)
not-All_of_hit p (y ∷ pre) x post h all = not-All_of_hit p pre x post h all.1

split_single {ℓ} :
    {A : Type ℓ} (x y : A) (pre post : List A)
    → x ∷ [] ≡ pre ++ y ∷ post
    → (pre ≡ []) × (y ≡ x) × (post ≡ [])
split_single x y [] post e = (refl, ground arith, ground arith)
split_single x y (z ∷ pre) post e =
    absurd (omega (arith, ap length e, length-append pre (y ∷ post)))

-- What `findOneAndUpdate` does: nothing, where nothing matches, or a change of one document.
pub data Update {A : Type 0} (p : A → Bool) (f : A → A) (docs : List A) (r : List A × Option A)
    : Type 0 where
  kept : r ≡ (docs, none) → All (λ x. p x ≡ false) docs → Update p f docs r
  changed :
      (pre : List A) (x : A) (post : List A)
      → docs ≡ pre ++ x ∷ post
      → p x ≡ true
      → r ≡ (pre ++ f x ∷ post, some (f x))
      → Update p f docs r

module _ {A : Type 0} (c : Collection A) (p : A → Bool) (f : A → A) where
  pub Update-cases : (docs : List A) → Update p f docs (find_one_and_update c p f docs)
  unfolding find_one_and_update
  Update-cases docs = elim (Search-cases c p docs) [
    | none_found e all ↦ kept (rw e refl) all
    | one_found pre x post e split hit ↦ changed pre x post split hit (rw e refl)
  ]

module _ {A : Type 0} (p : A → Bool) (f : A → A) (docs : List A) (r : List A × Option A) where
  pub Update-All {κ} :
      (P : A → Type κ)
      → Update p f docs r
      → ((x : A) → p x ≡ true → P x → P (f x))
      → All P docs
      → All P r.0
  Update-All P (kept e all) keep h = rw e h
  Update-All P (changed pre x post split hit e) keep h =
      let g : All P (pre ++ x ∷ post) = subst (All P) split h in
      let rest = All-append_right P pre (x ∷ post) g in
      rw e (
        All-append P pre (f x ∷ post) (All-append_left P pre (x ∷ post) g)
          (keep x hit rest.0, rest.1))

-- On a single document that matches, an update works on that one.
pub Update-single :
    {A : Type 0} (p : A → Bool) (f : A → A) (x : A) (r : List A × Option A)
    → Update p f (x ∷ []) r
    → p x ≡ true
    → r ≡ (f x ∷ [], some (f x))
Update-single p f x r (kept e all) h = cc (all.0)
Update-single p f x r (changed pre y post split hit e) h =
    let (front, same, back) = split_single x y pre post split in e ∙ rw (front, same, back) refl
