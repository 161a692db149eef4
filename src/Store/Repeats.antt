-- ===== src/Store/Repeats.antt =====
-- Passes of upserts over a collection, as a loop over the items of an answer makes them, and what a
-- pass that is cut off and repeated comes to.
use cloudops_sentinel.Base.{
  suc, ◌≡◌, refl, sym, ap, ◌∙◌, ◌⊎◌, inl, inr, Bool, true, List, [], ◌∷◌, ◌++◌, Memᴰ, arith, length,
  length-append, All, All-mono, mem-append_right,
}
use cloudops_sentinel.Store.{Collection, upsert}
use cloudops_sentinel.Store.Laws.{none_found, one_found, Search-cases}
use cloudops_sentinel.Store.Upserts.{
  Has, not-Has_none, upsert_result, upsert-Has, upsert-Has_back, length-upsert,
}

module _ {A F : Type 0} (matches : F → A → Bool) where
  -- The filters of two items agree on some document.
  abbrev pub Linked : F → F → Type 0
  Linked f g = (x : A) × (matches f x ≡ true) × (matches g x ≡ true)

  -- What an upsert by the filter of an item does to a collection.
  pub record Upserted (f : F) (docs docs' : List A) : Type 0 where
    pub added :
        (Has (matches f) docs × (length docs' ≡ length docs))
        ⊎ ((¬ Has (matches f) docs) × (length docs' ≡ suc (length docs)))
    pub made : Has (matches f) docs'
    pub kept : (g : F) → Has (matches g) docs → Has (matches g) docs'
    pub no_other : (g : F) → Has (matches g) docs' → Has (matches g) docs ⊎ Linked f g

  -- One upsert after another, for the items of a list.
  pub data Passes : List F → List A → List A → Type 0 where
    no_more : (docs : List A) → Passes [] docs docs
    then_pass :
        {f : F} {fs : List F} {docs docs' docs'' : List A}
        → Upserted f docs docs'
        → Passes fs docs' docs''
        → Passes (f ∷ fs) docs docs''

  -- Filters that agree on a document agree on all of them.
  abbrev pub AreKeys : Type 0
  AreKeys =
      (f g : F) (x y : A)
      → matches f x ≡ true
      → matches g x ≡ true
      → matches f y ≡ true
      → matches g y ≡ true

  -- Two collections have documents for the same items, and as many of them.
  pub record IsLike (docs docs' : List A) : Type 0 where
    pub same_length : length docs ≡ length docs'
    pub there : (g : F) → Has (matches g) docs → Has (matches g) docs'
    pub back : (g : F) → Has (matches g) docs' → Has (matches g) docs

  IsLike-refl : (docs : List A) → IsLike docs docs
  IsLike-refl docs = record { same_length = refl; there = λ g h. h; back = λ g h. h }

  IsLike-sym : {a b : List A} → IsLike a b → IsLike b a
  IsLike-sym l = record { same_length = sym l.same_length; there = l.back; back = l.there }

  IsLike-trans : {a b c : List A} → IsLike a b → IsLike b c → IsLike a c
  IsLike-trans l m = record {
    same_length = l.same_length ∙ m.same_length;
    there = λ g h. m.there g (l.there g h);
    back = λ g h. l.back g (m.back g h);
  }

  pass-kept :
      {fs : List F} {a b : List A} (g : F) → Passes fs a b → Has (matches g) a → Has (matches g) b
  pass-kept g (no_more docs) has = has
  pass-kept g (then_pass u rest) has = pass-kept g rest (u.kept g has)

  -- Every item of a pass has its document afterwards.
  pass-made : {fs : List F} {a b : List A} → Passes fs a b → All (λ f. Has (matches f) b) fs
  pass-made (no_more docs) = tt
  pass-made (then_pass {f = f} u rest) = (pass-kept f rest u.made, pass-made rest)

  pass_split :
      (pre rest : List F) {a c : List A}
      → Passes (pre ++ rest) a c
      → (b : List A) × Passes pre a b × Passes rest b c
  pass_split [] rest {a = a} p = (a, no_more a, p)
  pass_split (f ∷ pre) rest (then_pass u p) =
      let (b, first, second) = pass_split pre rest p in (b, then_pass u first, second)

  module _ (keys : AreKeys) where
    Linked-made :
        (f g : F) {docs : List A} → Linked f g → Has (matches f) docs → Has (matches g) docs
    Linked-made f g (x, hit_f, hit_g) (y, m, hit) = (y, m, keys f g x y hit_f hit_g hit)

    -- An upsert for an item that has its document changes nothing that the filters tell.
    here-IsLike : {f : F} {a b : List A} → Has (matches f) a → Upserted f a b → IsLike a b
    here-IsLike {f = f} has u = record {
      same_length = elim u.added [ inl (h, e) ↦ sym e | inr (misses, e) ↦ absurd (misses has) ];
      there = u.kept;
      back = λ g h. elim (u.no_other g h) [ inl old ↦ old | inr l ↦ Linked-made f g l has ];
    }

    All-here-IsLike :
        (fs : List F) {a b : List A} → All (λ f. Has (matches f) a) fs → Passes fs a b → IsLike a b
    All-here-IsLike [] all (no_more docs) = IsLike-refl docs
    All-here-IsLike (f ∷ fs) all (then_pass u rest) =
        IsLike-trans (here-IsLike all.0 u)
          (All-here-IsLike fs (All-mono _ _ fs (λ g has. u.kept g has) all.1) rest)

    same_added :
        {f : F} {a b a' b' : List A}
        → IsLike a b
        → Upserted f a a'
        → Upserted f b b'
        → length a' ≡ length b'
    same_added {f = f} like u v = elim u.added [
      | inl (has, e) ↦ elim v.added [
        | inl (h, e') ↦ e ∙ like.same_length ∙ sym e'
        | inr (misses, e') ↦ absurd (misses (like.there f has))
      ]
      | inr (lacks, e) ↦ elim v.added [
        | inl (h, e') ↦ absurd (lacks (like.back f h))
        | inr (misses, e') ↦ e ∙ ap suc like.same_length ∙ sym e'
      ]
    ]

    step-IsLike :
        {f : F} {a b a' b' : List A} → IsLike a b → Upserted f a a' → Upserted f b b' → IsLike a' b'
    step-IsLike {f = f} like u v = record {
      same_length = same_added like u v;
      there = λ g h. elim (u.no_other g h) [
        | inl old ↦ v.kept g (like.there g old)
        | inr l ↦ Linked-made f g l v.made
      ];
      back = λ g h. elim (v.no_other g h) [
        | inl old ↦ u.kept g (like.back g old)
        | inr l ↦ Linked-made f g l u.made
      ];
    }

    pass-IsLike :
        (fs : List F) {a b a' b' : List A}
        → IsLike a b
        → Passes fs a a'
        → Passes fs b b'
        → IsLike a' b'
    pass-IsLike [] like (no_more a) (no_more b) = like
    pass-IsLike (f ∷ fs) like (then_pass u p) (then_pass v q) =
        pass-IsLike fs (step-IsLike like u v) p q

    -- A pass that was cut off and then made as a whole leaves what one whole pass leaves, as far as
    -- the filters and the number of documents tell.
    pub cut_off-IsLike :
        (pre rest : List F) {start cut again once : List A}
        → Passes pre start cut
        → Passes (pre ++ rest) cut again
        → Passes (pre ++ rest) start once
        → IsLike again once
    cut_off-IsLike pre rest {start = start} first second whole =
        let (b, redone, tail) = pass_split pre rest second in
        let (b', done, tail') = pass_split pre rest whole in
        pass-IsLike rest
          (IsLike-trans (IsLike-sym (All-here-IsLike pre (pass-made first) redone))
            (pass-IsLike pre (IsLike-refl start) first done))
          tail tail'

  -- An upsert of a collection is one, where the fresh and the changed document match.
  pub upsert-Upserted :
      (c : Collection A) (keys : AreKeys) (f : F) (fresh : A) (change : A → A) (docs : List A)
      → matches f fresh ≡ true
      → ((x : A) → matches f x ≡ true → matches f (change x) ≡ true)
      → Upserted f docs (upsert c (matches f) fresh change docs).0
  unfolding upsert
  upsert-Upserted c keys f fresh change docs is_fresh stays = record {
    added = elim (Search-cases c (matches f) docs) [
      | none_found e all ↦
          inr (
            not-Has_none (matches f) docs all,
            rw e (length-append docs (fresh ∷ []) ∙ omega arith),
          )
      | one_found pre x post e split hit ↦
          let has : Has (matches f) docs =
            (x, rw split (mem-append_right pre _ (Memᴰ.head refl)), hit) in
          inl (has, length-upsert c (matches f) fresh change docs has)
    ];
    made =
        let (m, hit) =
          upsert_result c (matches f) fresh change docs (λ x. matches f x ≡ true) is_fresh
            (λ x was hit. stays x hit) in
        (_, m, hit);
    kept = λ g has.
        upsert-Has c (matches f) fresh change docs (matches g)
          (λ x hit hit_g. keys f g x (change x) hit hit_g (stays x hit)) has;
    no_other = λ g. upsert-Has_back c (matches f) fresh change docs (matches g) is_fresh stays;
  }
