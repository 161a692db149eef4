-- ===== src/Store/Upserts.antt =====
-- What an upsert leaves in a collection, whichever matching document the database finds.
use cloudops_sentinel.Base.{
  ◌≡◌, refl, sym, ap, subst, ◌∙◌, ◌⊎◌, inl, inr, Bool, true, false, List, [], ◌∷◌, ◌++◌, Memᴰ,
  length, length-append, All, All-append, All-append_left, All-append_right, All-mem,
  mem-append_left, mem-append_right,
}
use cloudops_sentinel.Store.{Collection, upsert, upserted}
use cloudops_sentinel.Store.Laws.{Search, none_found, one_found, Search-cases}

-- Some document of a collection matches.
abbrev pub Has : {A : Type 0} → (A → Bool) → List A → Type 0
Has {A} p docs = (x : A) × Memᴰ x docs × (p x ≡ true)

pub not-Has_none :
    {A : Type 0} (p : A → Bool) (docs : List A) → All (λ x. p x ≡ false) docs → ¬ Has p docs
not-Has_none p docs all (x, m, hit) = cc (All-mem (λ x. p x ≡ false) docs all m)

pub mem_replaced :
    {A : Type 0} {w : A} (pre : List A) (x y : A) (post : List A)
    → Memᴰ w (pre ++ x ∷ post)
    → (w ≡ x) ⊎ Memᴰ w (pre ++ y ∷ post)
mem_replaced [] x y post (Memᴰ.head e) = inl e
mem_replaced [] x y post (Memᴰ.tail m) = inr (Memᴰ.tail m)
mem_replaced (z ∷ pre) x y post (Memᴰ.head e) = inr (Memᴰ.head e)
mem_replaced (z ∷ pre) x y post (Memᴰ.tail m) = elim (mem_replaced pre x y post m) [
  | inl e ↦ inl e
  | inr n ↦ inr (Memᴰ.tail n)
]

mem_added :
    {A : Type 0} {w : A} (docs : List A) (x : A) → Memᴰ w (docs ++ x ∷ []) → (w ≡ x) ⊎ Memᴰ w docs
mem_added [] x (Memᴰ.head e) = inl e
mem_added [] x (Memᴰ.tail m) = elim m [ ]
mem_added (y ∷ docs) x (Memᴰ.head e) = inr (Memᴰ.head e)
mem_added (y ∷ docs) x (Memᴰ.tail m) = elim (mem_added docs x m) [
  | inl e ↦ inl e
  | inr n ↦ inr (Memᴰ.tail n)
]

module _ {A : Type 0} (c : Collection A) (p : A → Bool) (fresh : A) (f : A → A)
    (docs : List A) where
  -- The document that an upsert returns is stored, and has what the fresh and the changed ones have.
  pub upsert_result :
      (Q : A → Type 0)
      → Q fresh
      → ((x : A) → Memᴰ x docs → p x ≡ true → Q (f x))
      → Memᴰ (upsert c p fresh f docs).1 (upsert c p fresh f docs).0 × Q (upsert c p fresh f docs).1
  unfolding upsert
  upsert_result Q new old = elim (Search-cases c p docs) [
    | none_found e all ↦ rw e (mem-append_right docs _ (Memᴰ.head refl), new)
    | one_found pre x post e split hit ↦ rw e (
      mem-append_right pre _ (Memᴰ.head refl),
      old x (subst (λ l. Memᴰ x l) (sym split) (mem-append_right pre _ (Memᴰ.head refl))) hit,
    )
  ]

  -- A match for a filter that the change respects is not lost.
  pub upsert-Has :
      (q : A → Bool)
      → ((x : A) → p x ≡ true → q x ≡ true → q (f x) ≡ true)
      → Has q docs
      → Has q (upsert c p fresh f docs).0
  unfolding upsert
  upsert-Has q keep (w, m, hit_w) = elim (Search-cases c p docs) [
    | none_found e all ↦ rw e (w, mem-append_left docs (fresh ∷ []) m, hit_w)
    | one_found pre x post e split hit ↦
        rw e (elim (mem_replaced pre x (f x) post (subst (λ l. Memᴰ w l) split m)) [
          | inl same ↦ (
            f x,
            mem-append_right pre _ (Memᴰ.head refl),
            keep x hit (subst (λ y. q y ≡ true) same hit_w),
          )
          | inr stays ↦ (w, stays, hit_w)
        ])
  ]

  -- A match after an upsert was there before, or is what the upsert made.
  pub upsert-Has_back :
      (q : A → Bool)
      → p fresh ≡ true
      → ((x : A) → p x ≡ true → p (f x) ≡ true)
      → Has q (upsert c p fresh f docs).0
      → Has q docs ⊎ ((x : A) × (p x ≡ true) × (q x ≡ true))
  unfolding upsert
  upsert-Has_back q new stays (w, m, hit_w) = elim (Search-cases c p docs) [
    | none_found e all ↦
        elim (mem_added docs fresh (subst (λ r. Memᴰ w (upserted fresh f docs r).0) e m)) [
          | inl same ↦ inr (fresh, new, subst (λ y. q y ≡ true) same hit_w)
          | inr old ↦ inl (w, old, hit_w)
        ]
    | one_found pre x post e split hit ↦
        elim (mem_replaced pre (f x) x post (subst (λ r. Memᴰ w (upserted fresh f docs r).0) e m)) [
          | inl same ↦ inr (f x, stays x hit, subst (λ y. q y ≡ true) same hit_w)
          | inr old ↦ inl (w, subst (λ l. Memᴰ w l) (sym split) old, hit_w)
        ]
  ]

  -- What an upsert returns: the fresh document where none matches, or a document that is changed.
  pub upsert_stored :
      (((upsert c p fresh f docs).1 ≡ fresh) × All (λ x. p x ≡ false) docs)
      ⊎ ((x : A) × Memᴰ x docs × (p x ≡ true) × ((upsert c p fresh f docs).1 ≡ f x))
  unfolding upsert
  upsert_stored = elim (Search-cases c p docs) [
    | none_found e all ↦ rw e (inl (refl, all))
    | one_found pre x post e split hit ↦ rw e (
        inr (
          x,
          subst (λ l. Memᴰ x l) (sym split) (mem-append_right pre _ (Memᴰ.head refl)),
          hit,
          refl,
        ))
  ]

  -- A document after an upsert is the one that it returns, or was there before.
  pub upsert_members :
      {y : A} → Memᴰ y (upsert c p fresh f docs).0 → (y ≡ (upsert c p fresh f docs).1) ⊎ Memᴰ y docs
  unfolding upsert
  upsert_members {y = y} m = by_search (Search-cases c p docs)
    where
      by_search :
          Search p docs (c.find_one p docs) → (y ≡ (upsert c p fresh f docs).1) ⊎ Memᴰ y docs
      by_search (none_found e all) =
          rw e (mem_added docs fresh (subst (λ r. Memᴰ y (upserted fresh f docs r).0) e m))
      by_search (one_found pre x post e split hit) =
          elim (mem_replaced pre (f x) x post
            (subst (λ r. Memᴰ y (upserted fresh f docs r).0) e m)) [
              | inl same ↦ rw e (inl same)
              | inr old ↦ inr (subst (λ l. Memᴰ y l) (sym split) old)
            ]

  -- Nothing is added where a document matches.
  pub length-upsert : Has p docs → length (upsert c p fresh f docs).0 ≡ length docs
  unfolding upsert
  length-upsert has = elim (Search-cases c p docs) [
    | none_found e all ↦ absurd (not-Has_none p docs all has)
    | one_found pre x post e split hit ↦ rw e (
        length-append pre (f x ∷ post) ∙ sym (length-append pre (x ∷ post)) ∙ sym (ap length split))
  ]

  -- What holds of every document still does.
  pub upsert-All :
      (Q : A → Type 0)
      → Q fresh
      → ((x : A) → p x ≡ true → Q x → Q (f x))
      → All Q docs
      → All Q (upsert c p fresh f docs).0
  unfolding upsert
  upsert-All Q new keep all = elim (Search-cases c p docs) [
    | none_found e none_hit ↦ rw e (All-append Q docs (fresh ∷ []) all (new, tt))
    | one_found pre x post e split hit ↦
        let g : All Q (pre ++ x ∷ post) = subst (All Q) split all in
        let rest = All-append_right Q pre (x ∷ post) g in
        rw e (
          All-append Q pre (f x ∷ post) (All-append_left Q pre (x ∷ post) g)
            (keep x hit rest.0, rest.1))
  ]
