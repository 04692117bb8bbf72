-- ===== src/Inventory/Discovery/Walk.antt =====
-- The walk of `_directory_digest` over a directory. A directory is a tree of what its entries are; the
-- answers of the system to the opening of a file stand in the tree.
use skill_governance_control.Base.{
  ℕ, zero, suc, ◌+◌, String, ◌<>◌, Bool, true, false, ◌||◌, List, [], ◌∷◌, length, ltb, ◌==◌,
  string_eq, if◌then◌else◌, list_eq, nat_eq,
}
use skill_governance_control.Base.Sorting.{sort_by}
use skill_governance_control.Base.Text.{codes}
use skill_governance_control.Inventory.{ScanLimits}
use skill_governance_control.Base.{reverse_onto}
use skill_governance_control.Inventory.Discovery.Opened.{FileAnswer}

-- The entries of a directory, as `is_symlink`, `is_dir` and `is_file` tell them apart; `untold` is an
-- `OSError` of one of these, and `unlisted` one of `iterdir`.
mutual
  pub data Node : Type 0 where
    link : Node
    folder : Listing → Node
    regular : FileAnswer → Node
    special : Node
    untold : Node

  pub data Listing : Type 0 where
    unlisted : Listing
    listed : Entries → Listing

  pub data Entries : Type 0 where
    entry_end : Entries
    entry : String → Node → Entries → Entries

abbrev pub entry_list : Entries → List (String × Node)
entry_list entry_end = []
entry_list (entry name node rest) = (name, node) ∷ entry_list rest

-- A directory that waits: its path, its path from the root as a prefix of its entries' paths, and
-- what it holds.
pub record Waiting : Type 0 where
  pub path : String
  pub prefix : String
  pub listing : Listing

-- A file that was found: its path from the root and its path.
pub record FoundFile : Type 0 where
  pub relative_path : String
  pub path : String
  pub answer : FileAnswer

-- `failed` says that the inner loop was left by an `OSError`, after which nothing else of the state but
-- the warnings is used.
pub record WalkState : Type 0 where
  pub directories : List Waiting
  pub files : List FoundFile
  pub warnings : List String
  pub complete : Bool
  pub failed : Bool

unfoldable pub is_ignored_directory : String → Bool
is_ignored_directory name = name == ".git" || name == "__pycache__"

-- `path.suffix == ".pyc"`: the name ends so behind its first character.
unfoldable pub ends_with_pyc : List ℕ → Bool
ends_with_pyc [] = false
ends_with_pyc (c ∷ cs) =
    let rest = ends_with_pyc cs in if (c ∷ cs) == codes ".pyc" then true else rest

abbrev behind_first : List ℕ → List ℕ
behind_first [] = []
behind_first (c ∷ cs) = cs

-- `_ignore_file`
unfoldable pub ignore_file : String → Bool
ignore_file name = name == ".DS_Store" || ends_with_pyc (behind_first (codes name))

-- The list of files that were found stands in reverse, and so do the warnings.
abbrev pub with_link : Waiting → String → WalkState → WalkState
with_link d name w = record w {
  warnings = (d.path <> ("/" <> (name <> ": internal symlink was skipped"))) ∷ w.warnings;
  complete = false;
}

abbrev pub with_folder : Waiting → String → Listing → WalkState → WalkState
with_folder d name listing w = record w {
  directories =
      record {
        path = d.path <> ("/" <> name);
        prefix = d.prefix <> (name <> "/");
        listing = listing;
      }
      ∷ w.directories;
}

abbrev pub with_file : Waiting → String → FileAnswer → WalkState → WalkState
with_file d name answer w = record w {
  files =
      record { relative_path = d.prefix <> name; path = d.path <> ("/" <> name); answer = answer }
      ∷ w.files;
}

abbrev pub over_limit : String → WalkState → WalkState
over_limit root w = record w {
  warnings = (root <> ": file limit exceeded") ∷ w.warnings;
  complete = false;
}

abbrev pub with_failure : WalkState → WalkState
with_failure w = record w { complete = false; failed = true }

-- The inner loop, over the entries of one directory.
unfoldable pub scan_entries :
    ScanLimits → String → Waiting → List (String × Node) → WalkState → WalkState
scan_entries limits root d [] w = w
scan_entries limits root d ((name, untold) ∷ rest) w = with_failure w
scan_entries limits root d ((name, link) ∷ rest) w =
    scan_entries limits root d rest (with_link d name w)
scan_entries limits root d ((name, folder listing) ∷ rest) w =
    scan_entries limits root d rest
      (if is_ignored_directory name then w else with_folder d name listing w)
scan_entries limits root d ((name, special) ∷ rest) w = scan_entries limits root d rest w
scan_entries limits root d ((name, regular answer) ∷ rest) w =
    let w' : WalkState = with_file d name answer w in
    let skipped = scan_entries limits root d rest w in
    let more = scan_entries limits root d rest w' in
    if ignore_file name
    then skipped
    else if ltb limits.max_files (length w'.files)
    then over_limit root w'
    else more

-- `sorted(..., key=lambda path: path.name, reverse=True)`; the names in a directory differ.
unfoldable pub descending : Entries → List (String × Node)
descending es = reverse_onto (sort_by (λ e. e.0) (entry_list es)) []

-- How the walk ends; `exhausted` says that the rounds it was given did not suffice.
pub data Walked : Type 0 where
  walked : WalkState → Walked
  scan_failed : List String → Walked
  exhausted : Walked

-- Whether the `except` clause is next.
unfoldable pub has_failed : WalkState → Bool
has_failed w = w.failed

-- The outer loop, `while directories`, on the stack of directories and the rest of the state.
unfoldable pub walk : ℕ → ScanLimits → String → List Waiting → WalkState → Walked
walk fuel limits root [] w = walked w
walk zero limits root (d ∷ ds) w = exhausted
walk (suc fuel) limits root (d ∷ ds) w = elim d.listing [
  | unlisted ↦ scan_failed ((root <> ": directory scan failed") ∷ w.warnings)
  | listed es ↦
      let w' = scan_entries limits root d (descending es) (record w { directories = ds }) in
      let more = walk fuel limits root w'.directories w' in
      if has_failed w'
      then scan_failed ((root <> ": directory scan failed") ∷ w'.warnings)
      else if ltb limits.max_files (length w'.files)
      then walked w'
      else more
]

-- The folders in a tree, each of which the walk visits in one round.
unfoldable mutual
  pub folders_of_node : Node → ℕ
  folders_of_node link = 0
  folders_of_node (folder listing) = suc (folders_of_listing listing)
  folders_of_node (regular answer) = 0
  folders_of_node special = 0
  folders_of_node untold = 0

  pub folders_of_listing : Listing → ℕ
  folders_of_listing unlisted = 0
  folders_of_listing (listed es) = folders_of_entries es

  pub folders_of_entries : Entries → ℕ
  folders_of_entries entry_end = 0
  folders_of_entries (entry name node rest) = folders_of_node node + folders_of_entries rest
