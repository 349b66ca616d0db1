-- ===== src/Resolver/Tests.antt =====
-- A note with two edits: the newer one is kept, and the Prefer-local setting keeps the local one.
use obsidian_air_sync.Prelude.{◌≡◌, refl, true, false, none, some, List, [], ◌∷◌}
use obsidian_air_sync.Prelude.Text.{str_eq, codes}
use obsidian_air_sync.Types.Entity.{local, remote}
use obsidian_air_sync.Samples.{note, note_local, note_remote, note_record}
use obsidian_air_sync.Samples.Disk.{StoredFile}
use obsidian_air_sync.Compare.{sha256}
use obsidian_air_sync.Resolver.Snapshot.{StableVersionWitness, ExactSnapshot, content_version}
use obsidian_air_sync.Types.Action.{prefer_local}
use obsidian_air_sync.Resolver.Policy.{
  proven, SamePathConflictFacts, IsTwoSidedEdit, compile_same_path_conflict_contract,
  compile_same_path_conflict_contract-IsTwoSidedEdit,
}
use obsidian_air_sync.Resolver.Resolve.{
  ConflictResolverContext, Services, ConflictResolutionResult, kept_remote,
}

abbrev services : Services
services = record {
  get_content = λ key. none;
  three_way_merge = λ base mine theirs. (mine, true);
  is_valid_json = λ text. true;
  to_lower_case = λ text. text;
  now = 100;
}

abbrev edits : List StoredFile
edits =
    record { side = local; entity = note_local; bytes = codes "abc" }
    ∷ record { side = remote; entity = note_remote; bytes = codes "xyz" }
    ∷ []

abbrev context : ConflictResolverContext
context = record {
  path = note;
  local = some note_local;
  remote = some note_remote;
  baseline = some note_record;
  local_path = none;
  remote_path = none;
  remote_identity_source = none;
  additional_remote = none;
  additional_local = none;
}

abbrev remote_note : ExactSnapshot
remote_note = record {
  path = note;
  entity = note_remote;
  content = codes "xyz";
  witness = StableVersionWitness.mtime_version 20 3;
}

abbrev newer_remote : ConflictResolutionResult
newer_remote = record {
  action = kept_remote;
  has_conflict_markers = false;
  target_content = some (codes "xyz");
  target_mtime = 20;
  verified_outputs = [];
  captured_local = some (record {
    path = note;
    entity = note_local;
    content = codes "abc";
    witness = content_version (record { algo = sha256; value = codes "h1" });
  });
  captured_remote = some remote_note;
}

abbrev edited_twice : SamePathConflictFacts
edited_twice = record {
  path = note;
  local = some (record note_local { hash = codes "h2" });
  remote = some (record note_remote { hash = codes "h3" });
  baseline = some note_record;
  has_move = false;
  replacement = false;
  has_additional_remote = false;
  has_additional_local = false;
  has_local_path_override = false;
  has_remote_path_override = false;
}

compile_same_path_conflict_contract-IsTwoSidedEdit_example :
    ◌≡◌ prefer_local prefer_local × ◌≡◌ true true × IsTwoSidedEdit edited_twice
unfolding compile_same_path_conflict_contract proven str_eq
compile_same_path_conflict_contract-IsTwoSidedEdit_example =
    compile_same_path_conflict_contract-IsTwoSidedEdit edited_twice prefer_local true refl
