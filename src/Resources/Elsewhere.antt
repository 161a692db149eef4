-- ===== src/Resources/Elsewhere.antt =====
-- A sync of resource-service.ts leaves the resources of other workspaces as they are.
use mathlib.Core.List.{append-nil}
use cloudops_sentinel.Base.{
  ℕ, suc, String, ◌≡◌, refl, sym, ap, ◌∙◌, Bool, false, not, List, [], ◌∷◌, ◌==◌, eq_iff, eq_refl,
  length, filter,
}
use cloudops_sentinel.Store.{Collection, upsert}
use cloudops_sentinel.Store.Elsewhere.{filter-drop}
use cloudops_sentinel.Store.Laws.{none_found, one_found, Search-cases}
use cloudops_sentinel.Types.Resource.{CloudResource}
use cloudops_sentinel.Remediation.Execute.Checks.{and_both}
use cloudops_sentinel.Resources.{Discovered, has_arn, synced, fresh_resource, sync_item, sync_items}
use cloudops_sentinel.Resources.Synced.{AllOwn, AllSynced}

abbrev pub is_elsewhere : String → CloudResource → Bool
is_elsewhere workspace_id r = not (r.workspace_id == workspace_id)

-- The resources of the other workspaces, in their order.
abbrev pub elsewhere : String → List CloudResource → List CloudResource
elsewhere workspace_id docs = filter (is_elsewhere workspace_id) docs

here_not :
    (workspace_id : String) (r : CloudResource)
    → r.workspace_id ≡ workspace_id
    → is_elsewhere workspace_id r ≡ false
here_not workspace_id r e = rw (e, eq_refl workspace_id) refl

module _ (c : Collection CloudResource) (workspace_id : String) (now : ℕ) where
  elsewhere-sync_item :
      (resource_id : String) (item : Discovered) (docs : List CloudResource)
      → item.workspace_id ≡ workspace_id
      → elsewhere workspace_id (sync_item c workspace_id now resource_id item docs).0
        ≡ elsewhere workspace_id docs
  unfolding sync_item upsert
  elsewhere-sync_item resource_id item docs own =
      elim (Search-cases c (has_arn workspace_id item.arn) docs) [
        | none_found e all ↦ rw e (
            filter-drop (is_elsewhere workspace_id) docs (fresh_resource item resource_id now) []
              (here_not workspace_id (fresh_resource item resource_id now) own)
            ∙ append-nil _)
        | one_found pre x post e split hit ↦
            let old : x.workspace_id ≡ workspace_id =
              (eq_iff x.workspace_id workspace_id).0
                (and_both (x.workspace_id == workspace_id) (x.arn == item.arn) hit).0 in
            rw e (
              filter-drop (is_elsewhere workspace_id) pre (synced item now x) post
                (here_not workspace_id (synced item now x) own)
              ∙ sym
                  (filter-drop (is_elsewhere workspace_id) pre x post (here_not workspace_id x old))
              ∙ sym (ap (elsewhere workspace_id) split))
      ]

  pub elsewhere-sync_items :
      (ids : ℕ → String) (items : List Discovered) (docs : List CloudResource)
      → AllOwn workspace_id items
      → elsewhere workspace_id (sync_items c workspace_id now ids items docs).0
        ≡ elsewhere workspace_id docs
  unfolding sync_items
  elsewhere-sync_items ids [] docs own = refl
  elsewhere-sync_items ids (i ∷ items) docs own =
      elsewhere-sync_items ids items _ own.1 ∙ elsewhere-sync_item (ids (length items)) i docs own.0

pub length-AllSynced :
    (now : ℕ) (items : List Discovered) (rs : List CloudResource)
    → AllSynced now items rs
    → length rs ≡ length items
length-AllSynced now [] [] h = refl
length-AllSynced now (i ∷ items) (r ∷ rs) h = ap suc (length-AllSynced now items rs h.1)
length-AllSynced now [] (_ ∷ _) h = elim h [ ]
length-AllSynced now (_ ∷ _) [] h = elim h [ ]
