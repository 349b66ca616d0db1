-- ===== src/Prune/Tests.antt =====
-- A folder with a folder in it, both emptied by a removal, beside a folder that no action names.
use mathlib.Core.Path.{subst}
use obsidian_air_sync.Prelude.{
  ◌∙◌, ◌≡◌, refl, ap, Bool, Option, true, false, ◌&&◌, some, List, [], ◌∷◌, ◌==◌, contains, nat_eq,
}
use obsidian_air_sync.Prelude.Text.{Str, str_eq, codes}
use obsidian_air_sync.Prelude.Dict
use obsidian_air_sync.Prelude.Dict.{remove, contains-remove, add}
use obsidian_air_sync.Types.Entity.{SyncSide}
use obsidian_air_sync.Types.Action.{SyncAction, delete_remote}
use obsidian_air_sync.Samples.{note_push}
use obsidian_air_sync.Prune.{Directories, prune_emptied_directories}
use obsidian_air_sync.Prune.EmptyOnly.{prune_emptied_directories-kept}

abbrev outer : Str
outer = codes "a"

abbrev inner : Str
inner = codes "a/b"

abbrev other : Str
other = codes "c"

-- The state lists the directories of the remote side; only `outer` may have a child.
abbrev folders : Directories {0}
folders = record {
  State = List Str;
  has_children = λ side directory s. (some (directory == outer && contains s inner), s);
  delete = λ side directory s. (true, remove directory s);
}

abbrev removal : SyncAction
removal = record note_push {
  action = delete_remote;
  prune_empty_ancestors = some (inner ∷ outer ∷ []);
}

abbrev tree : List Str
tree = outer ∷ inner ∷ other ∷ []

both_deleted : prune_emptied_directories folders (removal ∷ []) tree ≡ other ∷ []
unfolding prune_emptied_directories Dict.set str_eq remove
both_deleted = refl

other_stays :
    (side : SyncSide) (directory : Str) (s t u : List Str) (deleted : Bool)
    → (other == directory) ≡ false
    → ◌≡◌ {A = Option Bool × List Str}
        (some (directory == outer && contains s inner), s)
        (some false, t)
    → ◌≡◌ {A = Bool × List Str} (true, remove directory t) (deleted, u)
    → contains t other ≡ true
    → contains u other ≡ true
other_stays side directory s t u deleted o e d h =
    subst (λ v. contains v other ≡ true) (ap (λ x. x.1) d)
      (contains-remove directory other t ∙ (rw o h))

prune_emptied_directories-kept_example :
    contains (prune_emptied_directories folders (removal ∷ []) tree) other ≡ true
unfolding str_eq
prune_emptied_directories-kept_example =
    prune_emptied_directories-kept (λ side directory. (other == directory) ≡ false) folders
      (λ s. contains s other ≡ true) (λ side directory s o h. h) other_stays (removal ∷ []) tree
      ((refl, (refl, tt)), tt) refl
