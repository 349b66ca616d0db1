-- ===== src/Executor/Checks/Kept.antt =====
-- The checks of src/sync/plan-executor.ts change no record.
use obsidian_air_sync.Prelude.{
  ℕ, nat_eq, refl, not, ◌||◌, Option, none, some, List, [], ◌∷◌, ◌==◌, option_eq,
}
use obsidian_air_sync.Prelude.Text.{Str, str_eq}
use obsidian_air_sync.Types.Entity.{FileEntity, SyncRecord, record_eq, SyncSide, local, remote}
use obsidian_air_sync.Types.Action.{
  SyncAction, RecordPublication, DescendantRecord, CompletedAction,
}
use obsidian_air_sync.Compare.{content_key}
use obsidian_air_sync.Commit.{ordered_child_receipts, child_source}
use obsidian_air_sync.Files.{proof_mismatch, pure, fail, guard}
use obsidian_air_sync.Executor.Kept.{Keeps, bind-Keeps, if-Keeps, guard-Keeps}
use obsidian_air_sync.Executor.Checks.{
  Machine, is_given, bytes_match, address_of, folder_children, on_files, stat, has_bytes,
  check_current, endpoint_changed, unchanged_endpoint, check_record, check_source, check_endpoint,
  check_publication, check_child, check_children, check_folder, check_publication_inputs,
}

module _ (m : Machine) where
  pub has_bytes-Keeps :
      (side : SyncSide) (path : Str) (content : List ℕ) (e : FileEntity)
      → Keeps (has_bytes m side path content e)
  unfolding has_bytes
  has_bytes-Keeps side path content e =
      if-Keeps (bytes_match m.registry content e (content_key e)) (pure tt) _ (λ w. refl)
        (bind-Keeps (on_files m (m.fs.read side path)) _ (λ w. refl)
          (λ bytes. guard-Keeps (content == bytes) proof_mismatch))

  check_current-Keeps :
      (expected : FileEntity) (current : Option FileEntity)
      → Keeps (check_current m expected current)
  unfolding check_current
  check_current-Keeps expected none = λ w. refl
  check_current-Keeps expected (some current) =
      if-Keeps (endpoint_changed expected current) (fail proof_mismatch) (pure current) (λ w. refl)
        (λ w. refl)

  pub unchanged_endpoint-Keeps :
      (side : SyncSide) (expected : FileEntity) → Keeps (unchanged_endpoint m side expected)
  unfolding unchanged_endpoint
  unchanged_endpoint-Keeps side expected =
      bind-Keeps (stat m side expected.path) (check_current m expected) (λ w. refl)
        (check_current-Keeps expected)

  check_record-Keeps :
      (path : Str) (expected : Option SyncRecord) → Keeps (check_record m path expected)
  unfolding check_record
  check_record-Keeps path expected w =
      guard-Keeps (m.db.at_path path w.1 == expected) proof_mismatch w

  check_source-Keeps :
      (path : Str) (source : Option SyncRecord) → Keeps (check_source m path source)
  unfolding check_source
  check_source-Keeps path none = λ w. refl
  check_source-Keeps path (some source) =
      if-Keeps (source.path == path) (pure tt) _ (λ w. refl)
        (check_record-Keeps source.path (some source))

  check_endpoint-Keeps :
      (side : SyncSide) (expected : Option FileEntity) (address : Str)
      → Keeps (check_endpoint m side expected address)
  unfolding check_endpoint
  check_endpoint-Keeps side (some expected) address =
      bind-Keeps (unchanged_endpoint m side expected) _ (unchanged_endpoint-Keeps side expected)
        (λ e w. refl)
  check_endpoint-Keeps side none address =
      bind-Keeps (stat m side address) _ (λ w. refl)
        (λ found. guard-Keeps (not (is_given found)) proof_mismatch)

  check_publication-Keeps :
      (a : SyncAction) (publication : Option RecordPublication)
      → Keeps (check_publication m a publication)
  unfolding check_publication
  check_publication-Keeps a none = λ w. refl
  check_publication-Keeps a (some publication) =
      bind-Keeps (check_record m a.path publication.destination) _
        (check_record-Keeps a.path publication.destination)
        (λ _.
          bind-Keeps (check_source m a.path publication.source) _
            (check_source-Keeps a.path publication.source)
            (λ _.
              bind-Keeps (check_endpoint m local a.local (address_of local a)) _
                (check_endpoint-Keeps local a.local (address_of local a))
                (λ _. check_endpoint-Keeps remote a.remote (address_of remote a))))

  check_child-Keeps :
      (child : DescendantRecord) (source : Option SyncRecord) → Keeps (check_child m child source)
  unfolding check_child
  check_child-Keeps child none = λ w. refl
  check_child-Keeps child (some source) =
      bind-Keeps (check_record m source.path (some source)) _
        (check_record-Keeps source.path (some source))
        (λ _.
          if-Keeps (source.path == child.new_path) (pure tt) _ (λ w. refl)
            (check_record-Keeps child.new_path child.destination))

  check_children-Keeps :
      (children : List (DescendantRecord × Option CompletedAction))
      → Keeps (check_children m children)
  unfolding check_children
  check_children-Keeps [] = λ w. refl
  check_children-Keeps ((child, receipt) ∷ rest) =
      bind-Keeps (check_child m child (child_source child receipt)) _
        (check_child-Keeps child (child_source child receipt)) (λ _. check_children-Keeps rest)

  check_folder-Keeps :
      (children : Option (List DescendantRecord)) (completed : List CompletedAction)
      → Keeps (check_folder m children completed)
  check_folder-Keeps none completed = λ w. refl
  check_folder-Keeps (some children) completed =
      check_children-Keeps (ordered_child_receipts children completed)

  pub check_publication_inputs-Keeps :
      (a : SyncAction) (completed : List CompletedAction)
      → Keeps (check_publication_inputs m a completed)
  unfolding check_publication_inputs
  check_publication_inputs-Keeps a completed =
      bind-Keeps (guard (is_given a.publication || is_given (folder_children a)) proof_mismatch) _
        (guard-Keeps (is_given a.publication || is_given (folder_children a)) proof_mismatch)
        (λ _.
          bind-Keeps (check_publication m a a.publication) _
            (check_publication-Keeps a a.publication)
            (λ _. check_folder-Keeps (folder_children a) completed))
