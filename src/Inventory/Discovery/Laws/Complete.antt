-- ===== src/Inventory/Discovery/Laws/Complete.antt =====
-- A walk that says that it is complete found every file of the tree.
use skill_governance_control.Base.{
  ℕ, zero, suc, ◌≤◌, String, ◌<>◌, true, false, List, [], ◌∷◌, ◌++◌, length, reverse_onto, All, ltb,
  if◌then◌else◌, Bool-cases, ◌≡◌, sym, subst, inl, inr, arith,
}
use skill_governance_control.Base.Sorting.{sort_by, All-of_sort_by}
use skill_governance_control.Inventory.{ScanLimits}
use skill_governance_control.Inventory.Discovery.{
  Node, link, folder, regular, special, untold, Listing, unlisted, listed, Entries, entry_end,
  entry, entry_list, Waiting, FoundFile, WalkState, with_link, with_folder, with_file,
  is_ignored_directory, ignore_file, scan_entries, descending, walked, scan_failed, walk,
  has_failed,
}
use skill_governance_control.Inventory.Discovery.Laws.Walking.{Listing-cases}

-- The files that a directory has, but for those that the digest ignores.
unfoldable mutual
  pub files_of_node : String → String → String → Node → List FoundFile
  files_of_node path prefix name link = []
  files_of_node path prefix name special = []
  files_of_node path prefix name untold = []
  files_of_node path prefix name (regular answer) =
      if ignore_file name
      then []
      else record { relative_path = prefix <> name; path = path <> ("/" <> name); answer = answer }
        ∷ []
  files_of_node path prefix name (folder listing) =
      let below = files_of_listing (path <> ("/" <> name)) (prefix <> (name <> "/")) listing in
      if is_ignored_directory name then [] else below

  pub files_of_listing : String → String → Listing → List FoundFile
  files_of_listing path prefix unlisted = []
  files_of_listing path prefix (listed es) = files_of_entries path prefix es

  pub files_of_entries : String → String → Entries → List FoundFile
  files_of_entries path prefix entry_end = []
  files_of_entries path prefix (entry name node rest) =
      files_of_node path prefix name node ++ files_of_entries path prefix rest

module _ {κ} (P : FoundFile → Type κ) where
  All-append : (xs ys : List FoundFile) → All P xs → All P ys → All P (xs ++ ys)
  All-append [] ys h k = k
  All-append (x ∷ xs) ys (h, hs) k = (h, All-append xs ys hs k)

  -- Every file below the directory satisfies `P`.
  abbrev IsCovered : Waiting → Type κ
  IsCovered d = All P (files_of_listing d.path d.prefix d.listing)

  abbrev IsEntryCovered : Waiting → String × Node → Type κ
  IsEntryCovered d e = All P (files_of_node d.path d.prefix e.0 e.1)

  -- What was found satisfies `P`, and so does what waits.
  abbrev IsWalkCovered : WalkState → Type κ
  IsWalkCovered w = All P w.files × All IsCovered w.directories

  covered_entries :
      (d : Waiting) (es : Entries)
      → All (IsEntryCovered d) (entry_list es)
      → All P (files_of_entries d.path d.prefix es)
  unfolding files_of_entries
  covered_entries d entry_end h = tt
  covered_entries d (entry name node rest) (h, hs) =
      All-append (files_of_node d.path d.prefix name node) (files_of_entries d.path d.prefix rest) h
        (covered_entries d rest hs)

pub All-of_reverse_onto {ℓ κ} :
    {A : Type ℓ} (Q : A → Type κ) (xs acc : List A)
    → All Q (reverse_onto xs acc)
    → All Q xs × All Q acc
All-of_reverse_onto Q [] acc h = (tt, h)
All-of_reverse_onto Q (x ∷ xs) acc h =
    let (hs, (k, ks)) = All-of_reverse_onto Q xs (x ∷ acc) h in ((k, hs), ks)

-- Once incomplete, the walk remains so; as long as it is complete, the limit is kept.
scan_entries-complete :
    (limits : ScanLimits) (root : String) (d : Waiting) (es : List (String × Node)) (w : WalkState)
    → (scan_entries limits root d es w).complete ≡ true
    → (w.complete ≡ true)
      × (length w.files ≤ limits.max_files
          → length (scan_entries limits root d es w).files ≤ limits.max_files)
unfolding scan_entries
scan_entries-complete limits root d [] w h = (h, λ k. k)
scan_entries-complete limits root d ((name, untold) ∷ rest) w h = ground arith
scan_entries-complete limits root d ((name, link) ∷ rest) w h =
    let (c, k) = scan_entries-complete limits root d rest (with_link d name w) h in
    (ground arith, k)
scan_entries-complete limits root d ((name, special) ∷ rest) w h =
    scan_entries-complete limits root d rest w h
scan_entries-complete limits root d ((name, folder listing) ∷ rest) w h =
    elim (Bool-cases (is_ignored_directory name)) [
      | inl e ↦
          rw (e, scan_entries)
            (scan_entries-complete limits root d rest w (rw (e, scan_entries) at h))
      | inr e ↦
          rw (e, scan_entries)
            (scan_entries-complete limits root d rest (with_folder d name listing w)
              (rw (e, scan_entries) at h))
    ]
scan_entries-complete limits root d ((name, regular answer) ∷ rest) w h =
    let w' : WalkState = with_file d name answer w in
    elim (Bool-cases (ignore_file name)) [
      | inl e ↦
          rw (e, scan_entries)
            (scan_entries-complete limits root d rest w (rw (e, scan_entries) at h))
      | inr e ↦ elim (Bool-cases (ltb limits.max_files (suc (length w.files)))) [
        | inl over ↦ let broken : false ≡ true = rw (e, over, scan_entries) at h in ground arith
        | inr within ↦
            let (c, k) =
              scan_entries-complete limits root d rest w' (rw (e, within, scan_entries) at h) in
            rw (e, within, scan_entries) (c, λ m. k (ground arith))
      ]
    ]

module _ {κ} (P : FoundFile → Type κ) where
  scan_entries-IsCovered :
      (limits : ScanLimits) (root : String) (d : Waiting) (es : List (String × Node))
      (w : WalkState)
      → (scan_entries limits root d es w).complete ≡ true
      → IsWalkCovered P (scan_entries limits root d es w)
      → IsWalkCovered P w × All (IsEntryCovered P d) es
  unfolding scan_entries files_of_node
  scan_entries-IsCovered limits root d [] w h q = (q, tt)
  scan_entries-IsCovered limits root d ((name, untold) ∷ rest) w h q =
      let broken : false ≡ true = h in ground arith
  scan_entries-IsCovered limits root d ((name, link) ∷ rest) w h q =
      let (a, b) = scan_entries-IsCovered limits root d rest (with_link d name w) h q in
      (a, (tt, b))
  scan_entries-IsCovered limits root d ((name, special) ∷ rest) w h q =
      let (a, b) = scan_entries-IsCovered limits root d rest w h q in (a, (tt, b))
  scan_entries-IsCovered limits root d ((name, folder listing) ∷ rest) w h q =
      elim (Bool-cases (is_ignored_directory name)) [
        | inl e ↦
            let (a, b) =
              scan_entries-IsCovered limits root d rest w (rw (e, scan_entries) at h)
                (rw (e, scan_entries) at q) in
            (a, (rw (e, files_of_node) tt, b))
        | inr e ↦
            let ((fs, (c, cs)), b) =
              scan_entries-IsCovered limits root d rest (with_folder d name listing w)
                (rw (e, scan_entries) at h) (rw (e, scan_entries) at q) in
            ((fs, cs), (rw (e, files_of_node) c, b))
      ]
  scan_entries-IsCovered limits root d ((name, regular answer) ∷ rest) w h q =
      let w' : WalkState = with_file d name answer w in
      elim (Bool-cases (ignore_file name)) [
        | inl e ↦
            let (a, b) =
              scan_entries-IsCovered limits root d rest w (rw (e, scan_entries) at h)
                (rw (e, scan_entries) at q) in
            (a, (rw (e, files_of_node) tt, b))
        | inr e ↦ elim (Bool-cases (ltb limits.max_files (suc (length w.files)))) [
          | inl over ↦ let broken : false ≡ true = rw (e, over, scan_entries) at h in ground arith
          | inr within ↦
              let (((f, fs), ds), b) =
                scan_entries-IsCovered limits root d rest w' (rw (e, within, scan_entries) at h)
                  (rw (e, within, scan_entries) at q) in
              ((fs, ds), (rw (e, files_of_node) (f, tt), b))
        ]
      ]

  -- All entries of a directory, in the order of the walk.
  descending-IsCovered :
      (d : Waiting) (es : Entries)
      → All (IsEntryCovered P d) (descending es)
      → All P (files_of_entries d.path d.prefix es)
  unfolding descending
  descending-IsCovered d es h = covered_entries P d es (
      All-of_sort_by (λ e. e.0) (IsEntryCovered P d) (entry_list es)
        (All-of_reverse_onto (IsEntryCovered P d) (sort_by (λ e. e.0) (entry_list es)) [] h).0)

  -- A complete walk kept the limit, and what holds of all files that it found holds of all files
  -- below the directories that waited.
  pub walk-IsCovered :
      (fuel : ℕ) (limits : ScanLimits) (root : String) (ds : List Waiting) (w w' : WalkState)
      → walk fuel limits root ds w ≡ walked w'
      → w'.complete ≡ true
      → length w.files ≤ limits.max_files
      → (w.complete ≡ true)
        × (length w'.files ≤ limits.max_files)
        × (All P w'.files → All P w.files × All (IsCovered P) ds)
  unfolding walk files_of_listing
  walk-IsCovered fuel limits root [] w w' h c k =
      let same : w ≡ w' = ground arith in
      (
        rw same c,
        subst (λ x. length x.files ≤ limits.max_files) same k,
        λ q. (subst (λ x. All P x.files) (sym same) q, tt),
      )
  walk-IsCovered zero limits root (d ∷ ds) w w' h c k = ground arith
  walk-IsCovered (suc fuel) limits root (d ∷ ds) w w' h c k = elim (Listing-cases d.listing) [
    | inl e ↦ let broken : scan_failed _ ≡ walked w' = rw (e, walk) at h in ground arith
    | inr (es, e) ↦
        let w1 : WalkState = record w { directories = ds } in
        let w2 : WalkState = scan_entries limits root d (descending es) w1 in
        elim (Bool-cases (has_failed w2)) [
          | inl raised ↦
              let broken : scan_failed _ ≡ walked w' = rw (e, walk, raised) at h in ground arith
          | inr goes_on ↦ elim (Bool-cases (ltb limits.max_files (length w2.files))) [
            | inl over ↦
                let same : walked w2 ≡ walked w' = rw (e, walk, goes_on, over) at h in
                let same' : w2 ≡ w' = ground arith in
                let (_, kept) =
                  scan_entries-complete limits root d (descending es) w1 (rw same' c) in
                let m = kept k in ground arith
            | inr within ↦
                let (c2, m, covers) =
                  walk-IsCovered fuel limits root w2.directories w2 w'
                    (rw (e, walk, goes_on, within) at h) c (ground arith) in
                let (c1, _) = scan_entries-complete limits root d (descending es) w1 c2 in
                (
                  c1,
                  m,
                  λ q.
                      let ((fs, cs), found) =
                        scan_entries-IsCovered limits root d (descending es) w1 c2 (covers q) in
                      (fs, (rw e (descending-IsCovered d es found), cs)),
                )
          ]
        ]
  ]
