-- ===== src/Store/Interface.antt =====
-- The two object stores that `onUpgrade` of src/sync/state.ts creates, as an interface: the database
-- itself is the platform's. A read in a transaction sees the writes before it.
use obsidian_air_sync.Prelude.{◌≡◌, ◌≢◌, ◌↔◌, Option, none, some, ◌==◌, if◌then◌else◌}
use obsidian_air_sync.Prelude.Text.{Str, str_eq}
use obsidian_air_sync.Types.Entity.{SyncRecord}

pub record Database : Type 1 where
  pub State : Type 0
  -- Encoded bytes of a merge base.
  pub Content : Type 0
  -- `store.get(identity)` and `store.index(PATH_INDEX).get(path)`
  pub get : Str → State → Option SyncRecord
  pub at_path : Str → State → Option SyncRecord
  -- `none` where another row has the path: the index is unique.
  pub put : SyncRecord → State → Option State
  pub delete : Str → State → State
  pub content : Str → State → Option Content
  pub put_content : Str → Content → State → State
  pub delete_content : Str → State → State
  -- What the states of a database have in common.
  pub IsConsistent : State → Type 0

-- The documented behaviour of an object store with a key path and a unique index.
pub record IsLawful (db : Database) : Type 0 where
  pub put-IsConsistent :
      (r : SyncRecord) (s t : db.State)
      → db.IsConsistent s
      → db.put r s ≡ some t
      → db.IsConsistent t
  pub delete-IsConsistent :
      (k : Str) (s : db.State) → db.IsConsistent s → db.IsConsistent (db.delete k s)
  pub delete_content-IsConsistent :
      (k : Str) (s : db.State) → db.IsConsistent s → db.IsConsistent (db.delete_content k s)
  pub put_content-IsConsistent :
      (k : Str) (c : db.Content) (s : db.State)
      → db.IsConsistent s
      → db.IsConsistent (db.put_content k c s)
  -- A row is stored under its own key, and the index finds it by its path.
  pub key_of_get :
      (k : Str) (r : SyncRecord) (s : db.State)
      → db.IsConsistent s
      → db.get k s ≡ some r
      → r.remote_identity_key ≡ k
  pub at_path_iff :
      (p : Str) (r : SyncRecord) (s : db.State)
      → db.IsConsistent s
      → (db.at_path p s ≡ some r) ↔ ((db.get r.remote_identity_key s ≡ some r) × (r.path ≡ p))
  -- The index refuses a second row at a path, and nothing else is refused.
  pub put-eq-none :
      (r : SyncRecord) (s : db.State)
      → db.IsConsistent s
      → (db.put r s ≡ none) ↔ (
          (o : SyncRecord) × (db.at_path r.path s ≡ some o)
          × (o.remote_identity_key ≢ r.remote_identity_key))
  pub get-put :
      (k : Str) (r : SyncRecord) (s t : db.State)
      → db.put r s ≡ some t
      → db.get k t ≡ (if k == r.remote_identity_key then some r else db.get k s)
  pub content-put :
      (k : Str) (r : SyncRecord) (s t : db.State)
      → db.put r s ≡ some t
      → db.content k t ≡ db.content k s
  pub get-delete :
      (k j : Str) (s : db.State) → db.get k (db.delete j s) ≡ (if k == j then none else db.get k s)
  pub content-delete : (k j : Str) (s : db.State) → db.content k (db.delete j s) ≡ db.content k s
  pub get-put_content :
      (k j : Str) (c : db.Content) (s : db.State) → db.get k (db.put_content j c s) ≡ db.get k s
  pub content-put_content :
      (k j : Str) (c : db.Content) (s : db.State)
      → db.content k (db.put_content j c s) ≡ (if k == j then some c else db.content k s)
  pub get-delete_content :
      (k j : Str) (s : db.State) → db.get k (db.delete_content j s) ≡ db.get k s
  pub content-delete_content :
      (k j : Str) (s : db.State)
      → db.content k (db.delete_content j s) ≡ (if k == j then none else db.content k s)
