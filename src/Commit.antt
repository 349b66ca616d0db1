-- ===== src/Commit.antt =====
-- src/sync/state-committer.ts and `orderedChildReceipts` of src/sync/execution-result.ts: what is
-- published after an action has been carried out. A thrown error is a value of `CommitError`;
-- `aborted` is a transaction that the database aborts.
mod Records
mod Tests
pub mod Safety
pub mod Published
unfoldable pub use Records.*
use mathlib.Core.Option
use obsidian_air_sync.Prelude.{
  ℕ, Bool, true, false, not, ◌&&◌, ◌||◌, Option, none, some, List, [], ◌∷◌, map, length, Eq, ◌==◌,
  nat_eq, if◌then◌else◌,
}
use obsidian_air_sync.Prelude.Text.{Str, str_eq, truthy}
use obsidian_air_sync.Types.Entity.{FileEntity, SyncRecord}
use obsidian_air_sync.Types.Action.{
  SyncAction, RecordPublication, DescendantRecord, CompletedAction, TerminalActionProof, is_rename,
  is_removal, proves,
}
use obsidian_air_sync.Store.{
  RecordRelocation, compare_and_put, compare_and_delete, compare_and_put_content,
  compare_and_rewrite_paths,
}
use obsidian_air_sync.Store.Interface.{Database}

-- `proof?.action === action ? proof.intendedContent : undefined`
abbrev pub proved_content : Option TerminalActionProof → SyncAction → Option (List ℕ)
proved_content none action = none
proved_content (some p) action = if p.action == action.ref then p.intended_content else none

-- The search of `orderedChildReceipts` for the object `after`; what it passes over is consumed.
find_receipt : ℕ → List CompletedAction → Option CompletedAction × List CompletedAction
find_receipt after [] = (none, [])
find_receipt after (c ∷ completed) =
    let rest = find_receipt after completed in
    if c.action.ref == after then (some c, completed) else rest

abbrev receipt_of : Option ℕ → List CompletedAction → Option CompletedAction × List CompletedAction
receipt_of none completed = (none, completed)
receipt_of (some after) completed = find_receipt after completed

pub ordered_child_receipts :
    List DescendantRecord → List CompletedAction → List (DescendantRecord × Option CompletedAction)
unfolding find_receipt
ordered_child_receipts [] completed = []
ordered_child_receipts (child ∷ children) completed =
    let (receipt, rest) = receipt_of child.after completed in
    (child, receipt) ∷ ordered_child_receipts children rest

-- The row that a child's relocation continues.
abbrev pub child_source : DescendantRecord → Option CompletedAction → Option SyncRecord
child_source child receipt = elim child.after [
  | none ↦ child.source
  | some after ↦ (elim receipt [ none ↦ none | some c ↦ c.terminal_record ])
]

relocation : DescendantRecord → SyncRecord → RecordRelocation
relocation child source = record {
  source = source;
  destination = if source.path == child.new_path then some source else child.destination;
  terminal = record source { path = child.new_path };
}

-- `none` where a child has no terminal record.
pub relocations : List (DescendantRecord × Option CompletedAction) → Option (List RecordRelocation)
unfolding relocation
relocations [] = some []
relocations ((child, receipt) ∷ rest) = elim (child_source child receipt) [
  | none ↦ none
  | some source ↦ Option.map (λ r. relocation child source ∷ r) (relocations rest)
]

-- What the committer is given: the merge setting, the local filesystem, the digest and the encoding
-- of src/store/content-codec.ts. A read or a digest that throws is `none`.
pub record Context (db : Database) : Type 0 where
  pub enable_three_way_merge : Bool
  pub read_local : Option (Str → Option (List ℕ))
  pub sha256 : List ℕ → Option Str
  pub encode : List ℕ → db.Content
  pub is_merge_eligible : Str → ℕ → Bool

module _ (db : Database) (ctx : Context db) where
  -- `provedContent?.slice(0) ?? await localFs.read(localEntity.path)`
  abbrev base_content : (Str → Option (List ℕ)) → FileEntity → Option (List ℕ) → Option (List ℕ)
  base_content read local (some proved) = some proved
  base_content read local none = read local.path

  -- The bytes are those that the record is about.
  abbrev is_content_of : SyncRecord → List ℕ → Bool
  is_content_of rec bytes =
      truthy rec.hash
      && length bytes == rec.local_size
      && (elim (ctx.sha256 bytes) [ none ↦ false | some digest ↦ digest == rec.hash ])

  store_base : SyncRecord → Option (List ℕ) → db.State → db.State
  store_base rec none s = s
  store_base rec (some bytes) s =
      if is_content_of rec bytes then (compare_and_put_content db rec (ctx.encode bytes) s).1 else s

  base_readers :
      SyncRecord
      → Option FileEntity
      → Option (List ℕ)
      → Option (Str → Option (List ℕ))
      → db.State
      → db.State
  unfolding store_base
  base_readers rec (some local) proved (some read) s =
      if ctx.is_merge_eligible rec.path rec.local_size
      then store_base rec (base_content read local proved) s
      else s
  base_readers rec _ proved _ s = s

  -- Every failure in it is caught and logged.
  pub maybe_store_merge_base :
      SyncRecord → Option FileEntity → Option (List ℕ) → db.State → db.State
  unfolding base_readers
  maybe_store_merge_base rec local proved s =
      if ctx.enable_three_way_merge then base_readers rec local proved ctx.read_local s else s

  rewrite_records :
      Option (List RecordRelocation) → db.State → Result (Option SyncRecord) × db.State
  rewrite_records none s = (err child_record_missing, s)
  rewrite_records (some items) s = elim (compare_and_rewrite_paths db items s) [
    | none ↦ (err aborted, s)
    | some (done, t) ↦ if done then (ok none, t) else (err folder_records_changed, t)
  ]

  -- The folder branch.
  commit_folder :
      SyncAction
      → List DescendantRecord
      → Option TerminalActionProof
      → List CompletedAction
      → db.State
      → Result (Option SyncRecord) × db.State
  unfolding ordered_child_receipts relocations rewrite_records
  commit_folder action children proof completed s =
      if not (proves proof action)
      then (err folder_proof_missing, s)
      else rewrite_records (relocations (ordered_child_receipts children completed)) s

  -- The last steps of a publication: the compared put, then the merge base.
  publish :
      SyncAction
      → RecordPublication
      → SyncRecord
      → Option FileEntity
      → Option TerminalActionProof
      → db.State
      → Result (Option SyncRecord) × db.State
  unfolding maybe_store_merge_base
  publish action publication rec local proof s =
      elim (compare_and_put db publication.source rec publication.destination s) [
        | none ↦ (err aborted, s)
        | some (committed, t) ↦
            if committed
            then (ok (some rec), maybe_store_merge_base rec local (proved_content proof action) t)
            else (err changed_before_publication, t)
      ]

  publish_built :
      SyncAction
      → RecordPublication
      → Result SyncRecord
      → Option FileEntity
      → Option TerminalActionProof
      → db.State
      → Result (Option SyncRecord) × db.State
  unfolding publish
  publish_built action publication (err e) local proof s = (err e, s)
  publish_built action publication (ok rec) local proof s =
      publish action publication rec local proof s

  -- A publication that relocates a row needs the executor's proof.
  abbrev pub is_compound : SyncAction → RecordPublication → Bool
  is_compound action publication =
      is_rename action
      || (elim publication.source [ none ↦ false | some source ↦ not (source.path == action.path) ])

  commit_publication :
      ℕ
      → SyncAction
      → RecordPublication
      → Option FileEntity
      → Option FileEntity
      → Option TerminalActionProof
      → db.State
      → Result (Option SyncRecord) × db.State
  unfolding publish_built
  commit_publication now action publication local remote proof s =
      if is_removal action
      then (let (done, t) = compare_and_delete db action.path publication.destination s in
          if done then (ok none, t) else (err changed_before_deletion, t))
      else if is_compound action publication && not (proves proof action)
      then (err terminal_proof_missing, s)
      else publish_built action publication (build_sync_record now local remote action.path) local
          proof s

  unfoldable pub commit_action :
      ℕ
      → SyncAction
      → Option FileEntity
      → Option FileEntity
      → Option TerminalActionProof
      → List CompletedAction
      → db.State
      → Result (Option SyncRecord) × db.State
  unfolding commit_folder commit_publication
  commit_action now action local remote proof completed s =
      let rest : Result (Option SyncRecord) × db.State = elim action.publication [
        | none ↦ (err publication_missing, s)
        | some publication ↦ commit_publication now action publication local remote proof s
      ] in
      if is_rename action
      then (elim action.descendant_records [
        | none ↦ rest
        | some children ↦ commit_folder action children proof completed s
      ])
      else rest

  pub commit_exact_cleanup : Str → SyncRecord → db.State → Result (Option SyncRecord) × db.State
  commit_exact_cleanup path expected s =
      let (done, t) = compare_and_delete db path (some expected) s in
      if done then (ok none, t) else (err changed_before_cleanup, t)
