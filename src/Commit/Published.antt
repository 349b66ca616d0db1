-- ===== src/Commit/Published.antt =====
-- The rows after a commit of src/sync/state-committer.ts that returns.
use obsidian_air_sync.Prelude.{
  ℕ, ◌≡◌, ◌≢◌, refl, true, false, Option, none, some, List, arith, Option-cases, inl, inr,
}
use obsidian_air_sync.Prelude.Text.{Str}
use obsidian_air_sync.Types.Entity.{FileEntity, SyncRecord}
use obsidian_air_sync.Types.Action.{
  SyncAction, RecordPublication, DescendantRecord, CompletedAction, TerminalActionProof, is_removal,
}
use obsidian_air_sync.Store.{compare_and_put, RecordRelocation}
use obsidian_air_sync.Store.Interface.{Database, IsLawful}
use obsidian_air_sync.Store.Updates.{compare_and_put_content-rows, compare_and_put-PutEffect}
use obsidian_air_sync.Commit.{
  Result, ok, err, build_sync_record, Context, proved_content, commit_action, commit_folder,
  commit_publication, publish, publish_built, maybe_store_merge_base, base_readers, store_base,
  rewrite_records, relocations, ordered_child_receipts,
}

module _ (db : Database) (L : IsLawful db) (ctx : Context db) where
  store_base-rows :
      (rec : SyncRecord) (bytes : Option (List ℕ)) (k : Str) (s : db.State)
      → db.get k (store_base db ctx rec bytes s) ≡ db.get k s
  unfolding store_base
  store_base-rows rec none k s = refl
  store_base-rows rec (some bytes) k s =
      ground (arith, compare_and_put_content-rows db L rec (ctx.encode bytes) k s)

  base_readers-rows :
      (rec : SyncRecord) (local : Option FileEntity) (proved : Option (List ℕ))
      (read : Option (Str → Option (List ℕ))) (k : Str) (s : db.State)
      → db.get k (base_readers db ctx rec local proved read s) ≡ db.get k s
  unfolding base_readers
  base_readers-rows rec none proved read k s = refl
  base_readers-rows rec (some l) proved none k s = refl
  base_readers-rows rec (some l) (some p) (some read) k s =
      ground (arith, store_base-rows rec (some p) k s)
  base_readers-rows rec (some l) none (some read) k s =
      ground (arith, store_base-rows rec (read l.path) k s)

  -- Storing a merge base, or failing to, keeps the rows.
  pub maybe_store_merge_base-rows :
      (rec : SyncRecord) (local : Option FileEntity) (proved : Option (List ℕ)) (k : Str)
      (s : db.State)
      → db.get k (maybe_store_merge_base db ctx rec local proved s) ≡ db.get k s
  unfolding maybe_store_merge_base
  maybe_store_merge_base-rows rec local proved k s =
      ground (arith, base_readers-rows rec local proved ctx.read_local k s)

  publish-rows :
      (action : SyncAction) (p : RecordPublication) (rec out : SyncRecord)
      (local : Option FileEntity) (proof : Option TerminalActionProof) (s : db.State)
      → db.IsConsistent s
      → (publish db ctx action p rec local proof s).0 ≡ ok (some out)
      → (out ≡ rec)
        × (db.get rec.remote_identity_key (publish db ctx action p rec local proof s).1 ≡ some rec)
  unfolding publish
  publish-rows action p rec out local proof s consistent h =
      elim (Option-cases (compare_and_put db p.source rec p.destination s)) [
        | inl q ↦ absurd (ground arith)
        | inr ((false, t), q) ↦ absurd (ground arith)
        | inr ((true, t), q) ↦ ground (
          arith,
          maybe_store_merge_base-rows rec local (proved_content proof action)
              rec.remote_identity_key t,
          (compare_and_put-PutEffect db L p.source rec p.destination s consistent q).1
              rec.remote_identity_key,
        )
      ]

  publish_built-rows :
      (action : SyncAction) (p : RecordPublication) (r : Result SyncRecord) (out : SyncRecord)
      (local : Option FileEntity) (proof : Option TerminalActionProof) (s : db.State)
      → db.IsConsistent s
      → (publish_built db ctx action p r local proof s).0 ≡ ok (some out)
      → (r ≡ ok out)
        × (db.get out.remote_identity_key (publish_built db ctx action p r local proof s).1
            ≡ some out)
  unfolding publish_built
  publish_built-rows action p (err e) out local proof s consistent h = cc
  publish_built-rows action p (ok rec) out local proof s consistent h =
      let (same, stored) = publish-rows action p rec out local proof s consistent h in
      (rw same, rw same stored)

  commit_publication-rows :
      (now : ℕ) (action : SyncAction) (p : RecordPublication) (local remote : Option FileEntity)
      (proof : Option TerminalActionProof) (s : db.State) (out : SyncRecord)
      → db.IsConsistent s
      → (commit_publication db ctx now action p local remote proof s).0 ≡ ok (some out)
      → (build_sync_record now local remote action.path ≡ ok out)
        × (db.get out.remote_identity_key
              (commit_publication db ctx now action p local remote proof s).1
            ≡ some out)
        × (is_removal action ≡ false)
  unfolding commit_publication
  commit_publication-rows now action p local remote proof s out consistent h = ground (
    arith,
    publish_built-rows action p (build_sync_record now local remote action.path) out local proof s
        consistent,
  )

  rewrite_records-none :
      (o : Option (List RecordRelocation)) (s : db.State) (out : SyncRecord)
      → (rewrite_records db ctx o s).0 ≢ ok (some out)
  unfolding rewrite_records
  rewrite_records-none none s out h = cc
  rewrite_records-none (some items) s out h = ground arith

  commit_folder-none :
      (action : SyncAction) (children : List DescendantRecord) (proof : Option TerminalActionProof)
      (completed : List CompletedAction) (s : db.State) (out : SyncRecord)
      → (commit_folder db ctx action children proof completed s).0 ≢ ok (some out)
  unfolding commit_folder
  commit_folder-none action children proof completed s out h =
      ground (
        arith,
        rewrite_records-none (relocations (ordered_child_receipts children completed)) s out,
      )

  -- On a consistent lawful database, a commit that returns a record has stored exactly the record
  -- that is built from the two entities at the path of the action, whatever became of the merge
  -- base, and the action is not a removal.
  pub commit_action-rows :
      (now : ℕ) (action : SyncAction) (local remote : Option FileEntity)
      (proof : Option TerminalActionProof) (completed : List CompletedAction) (s : db.State)
      (out : SyncRecord)
      → db.IsConsistent s
      → (commit_action db ctx now action local remote proof completed s).0 ≡ ok (some out)
      → (build_sync_record now local remote action.path ≡ ok out)
        × (db.get out.remote_identity_key
              (commit_action db ctx now action local remote proof completed s).1
            ≡ some out)
        × (is_removal action ≡ false)
  unfolding commit_action
  commit_action-rows now action local remote proof completed s out consistent h =
      elim (Option-cases action.publication) [
        | inl q ↦ elim (Option-cases action.descendant_records) [
          | inl d ↦ absurd (ground arith)
          | inr (c, d) ↦ absurd (ground (arith, commit_folder-none action c proof completed s out))
        ]
        | inr (p, q) ↦ elim (Option-cases action.descendant_records) [
          | inl d ↦
              ground
                (arith, commit_publication-rows now action p local remote proof s out consistent)
          | inr (c, d) ↦ ground (
            arith,
            commit_folder-none action c proof completed s out,
            commit_publication-rows now action p local remote proof s out consistent,
          )
        ]
      ]
