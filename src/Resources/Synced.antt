-- ===== src/Resources/Synced.antt =====
-- What a sync of resource-service.ts stores, and that a second one adds nothing.
use cloudops_sentinel.Base.{
  ℕ, String, ◌≡◌, refl, sym, ap, subst, ◌∙◌, ◌⊎◌, inl, inr, Bool, true, false, List, [], ◌∷◌, ◌++◌,
  Memᴰ, ◌==◌, eq_iff, eq_refl, length, length-append, All, All-mem, All-mono, mem-append_left,
  mem-append_right,
}
use cloudops_sentinel.Store.{Collection, upsert}
use cloudops_sentinel.Store.Laws.{none_found, one_found, Search-cases}
use cloudops_sentinel.Types.Resource.{CloudResource}
use cloudops_sentinel.Remediation.Execute.Checks.{and_both}
use cloudops_sentinel.Resources.{Discovered, has_arn, synced, fresh_resource, sync_item, sync_items}

-- A stored resource is the one that was listed.
abbrev pub IsSynced : Discovered → ℕ → CloudResource → Type 0
IsSynced item now r =
    (r.arn ≡ item.arn)
    × (r.workspace_id ≡ item.workspace_id)
    × (r.tags ≡ item.tags)
    × (r.config ≡ item.config)
    × (r.metrics ≡ item.metrics)
    × (r.last_synced_at ≡ now)

-- A resource of the workspace has the name.
abbrev pub HasArn : String → String → List CloudResource → Type 0
HasArn workspace_id arn docs =
    (r : CloudResource) × Memᴰ r docs × (has_arn workspace_id arn r ≡ true)

module _ (c : Collection CloudResource) (workspace_id : String) (now : ℕ) where
  module _ (resource_id : String) (item : Discovered) (own : item.workspace_id ≡ workspace_id) where
    abbrev p : CloudResource → Bool
    p = has_arn workspace_id item.arn

    named : (r : CloudResource) → r.workspace_id ≡ item.workspace_id → r.arn ≡ item.arn → p r ≡ true
    named r e f = rw (e ∙ own, f, eq_refl workspace_id, eq_refl item.arn) refl

    p_arn : (r : CloudResource) → p r ≡ true → r.arn ≡ item.arn
    p_arn r h =
        (eq_iff r.arn item.arn).0
          (and_both (r.workspace_id == workspace_id) (r.arn == item.arn) h).1

    -- One upsert.
    data Upserted (docs : List CloudResource) (r : List CloudResource × CloudResource)
        : Type 0 where
      added :
          All (λ x. p x ≡ false) docs
          → r ≡ (
            docs ++ fresh_resource item resource_id now ∷ [],
            fresh_resource item resource_id now,
          )
          → Upserted docs r
      changed :
          (pre : List CloudResource) (x : CloudResource) (post : List CloudResource)
          → docs ≡ pre ++ x ∷ post
          → p x ≡ true
          → r ≡ (pre ++ synced item now x ∷ post, synced item now x)
          → Upserted docs r

    Upserted-cases :
        (docs : List CloudResource)
        → Upserted docs (sync_item c workspace_id now resource_id item docs)
    unfolding sync_item upsert
    Upserted-cases docs = elim (Search-cases c p docs) [
      | none_found e all ↦ added all (rw (sync_item, e) refl)
      | one_found pre x post e split hit ↦ changed pre x post split hit (rw (sync_item, e) refl)
    ]

    mem_middle :
        (y x z : CloudResource) (pre post : List CloudResource)
        → Memᴰ y (pre ++ x ∷ post)
        → (y ≡ x) ⊎ Memᴰ y (pre ++ z ∷ post)
    mem_middle y x z [] post (Memᴰ.head e) = inl e
    mem_middle y x z [] post (Memᴰ.tail m) = inr (Memᴰ.tail m)
    mem_middle y x z (w ∷ pre) post (Memᴰ.head e) = inr (Memᴰ.head e)
    mem_middle y x z (w ∷ pre) post (Memᴰ.tail m) = elim (mem_middle y x z pre post m) [
      | inl e ↦ inl e
      | inr n ↦ inr (Memᴰ.tail n)
    ]

    stored :
        (docs : List CloudResource) {r : List CloudResource × CloudResource}
        → Upserted docs r
        → HasArn workspace_id item.arn r.0 × IsSynced item now r.1
    stored docs (added new e) = rw e (
      (
        fresh_resource item resource_id now,
        mem-append_right docs _ (Memᴰ.head refl),
        named (fresh_resource item resource_id now) refl refl,
      ),
      (refl, refl, refl, refl, refl, refl),
    )
    stored docs (changed pre x post split hit e) = rw e (
      (
        synced item now x,
        mem-append_right pre _ (Memᴰ.head refl),
        named (synced item now x) refl refl,
      ),
      (refl, refl, refl, refl, refl, refl),
    )

    still_stored :
        (arn : String) (docs : List CloudResource) {r : List CloudResource × CloudResource}
        → Upserted docs r
        → HasArn workspace_id arn docs
        → HasArn workspace_id arn r.0
    still_stored arn docs (added new e) (r, m, h) = rw e (r, mem-append_left docs _ m, h)
    still_stored arn docs (changed pre x post split hit e) (r, m, h) =
        elim (mem_middle r x (synced item now x) pre post (subst (λ l. Memᴰ r l) split m)) [
          | inr kept ↦ rw e (r, kept, h)
          | inl same ↦
              let at : item.arn ≡ arn =
                sym (p_arn x hit)
                ∙ ap (λ (y : CloudResource). y.arn) (sym same)
                ∙ (eq_iff r.arn arn).0
                    (and_both (r.workspace_id == workspace_id) (r.arn == arn) h).1 in
              rw e (
                synced item now x,
                mem-append_right pre _ (Memᴰ.head refl),
                subst (λ a. has_arn workspace_id a (synced item now x) ≡ true) at
                    (named (synced item now x) refl refl),
              )
        ]

    nothing_added :
        (docs : List CloudResource) {r : List CloudResource × CloudResource}
        → Upserted docs r
        → HasArn workspace_id item.arn docs
        → length r.0 ≡ length docs
    nothing_added docs (added new e) (r, m, h) =
        absurd (cc (h, All-mem (λ x. p x ≡ false) docs new m))
    nothing_added docs (changed pre x post split hit e) h =
        rw (e, split)
          (length-append pre (synced item now x ∷ post) ∙ sym (length-append pre (x ∷ post)))

-- The answers to items, one for each in its place.
abbrev pub AllSynced : ℕ → List Discovered → List CloudResource → Type 0
AllSynced now [] [] = Unit
AllSynced now (i ∷ items) (r ∷ rs) = IsSynced i now r × AllSynced now items rs
AllSynced now _ _ = ⊥

abbrev pub AllOwn : String → List Discovered → Type 0
AllOwn workspace_id = All (λ i. i.workspace_id ≡ workspace_id)

abbrev pub AllStored : String → List CloudResource → List Discovered → Type 0
AllStored workspace_id docs = All (λ i. HasArn workspace_id i.arn docs)

module _ (c : Collection CloudResource) (workspace_id : String) where
  items_kept :
      (now : ℕ) (ids : ℕ → String) (arn : String) (items : List Discovered)
      (docs : List CloudResource)
      → AllOwn workspace_id items
      → HasArn workspace_id arn docs
      → HasArn workspace_id arn (sync_items c workspace_id now ids items docs).0
  unfolding sync_items
  items_kept now ids arn [] docs own h = h
  items_kept now ids arn (i ∷ items) docs own h = items_kept now ids arn items _ own.1 (
      still_stored c workspace_id now (ids (length items)) i own.0 arn docs
        (Upserted-cases c workspace_id now (ids (length items)) i own.0 docs) h)

  pub items_stored :
      (now : ℕ) (ids : ℕ → String) (items : List Discovered) (docs : List CloudResource)
      → AllOwn workspace_id items
      → AllStored workspace_id (sync_items c workspace_id now ids items docs).0 items
        × AllSynced now items (sync_items c workspace_id now ids items docs).1
  unfolding sync_items
  items_stored now ids [] docs own = (tt, tt)
  items_stored now ids (i ∷ items) docs own =
      let (has, is) =
        stored c workspace_id now (ids (length items)) i own.0 docs
          (Upserted-cases c workspace_id now (ids (length items)) i own.0 docs) in
      let (rest, those) =
        items_stored now ids items (sync_item c workspace_id now (ids (length items)) i docs).0
          own.1 in
      ((items_kept now ids i.arn items _ own.1 has, rest), (is, those))

  pub none_added :
      (now : ℕ) (ids : ℕ → String) (items : List Discovered) (docs : List CloudResource)
      → AllOwn workspace_id items
      → AllStored workspace_id docs items
      → length (sync_items c workspace_id now ids items docs).0 ≡ length docs
  unfolding sync_items
  none_added now ids [] docs own h = refl
  none_added now ids (i ∷ items) docs own h =
      let one = Upserted-cases c workspace_id now (ids (length items)) i own.0 docs in
      let kept =
        All-mono _ _ items
          (λ (j : Discovered) has.
            still_stored c workspace_id now (ids (length items)) i own.0 j.arn docs one has)
          h.1 in
      none_added now ids items _ own.1 kept
      ∙ nothing_added c workspace_id now (ids (length items)) i own.0 docs one h.0

  -- A sync of resources that a provider lists under the workspace answers each of them as it was
  -- listed, in its place and with the time of the sync, and stores each under its name; and another
  -- sync of the same resources at any time, with any new ids, adds no document.
  pub sync_items_twice :
      (now later : ℕ) (ids more_ids : ℕ → String) (items : List Discovered)
      (docs : List CloudResource)
      → AllOwn workspace_id items
      → let (once, answered) = sync_items c workspace_id now ids items docs in
        AllSynced now items answered
        × AllStored workspace_id once items
        × (length (sync_items c workspace_id later more_ids items once).0 ≡ length once)
  sync_items_twice now later ids more_ids items docs own =
      let (held, answers) = items_stored now ids items docs own in
      (answers, held, none_added later more_ids items _ own held)
