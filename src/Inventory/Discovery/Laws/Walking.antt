-- ===== src/Inventory/Discovery/Laws/Walking.antt =====
-- The walk of `_directory_digest` ends, and finds every file unless it says that it is incomplete.
use skill_governance_control.Base.{
  ℕ, zero, suc, ◌+◌, ◌≤◌, String, List, [], ◌∷◌, length, reverse_onto, ltb, Bool-cases, ◌≡◌, ◌≢◌,
  refl, ap, ◌∙◌, ◌⊎◌, inl, inr, arith,
}
use skill_governance_control.Base.Sorting.{text_leb, insert_by, sort_by}
use skill_governance_control.Inventory.{ScanLimits}
use skill_governance_control.Inventory.Discovery.{
  Node, link, folder, regular, special, untold, Listing, unlisted, listed, Entries, entry_end,
  entry, entry_list, Waiting, WalkState, with_link, with_folder, with_file, is_ignored_directory,
  ignore_file, scan_entries, descending, exhausted, walk, walk_root, has_failed, folders_of_node,
  folders_of_listing, folders_of_entries,
}

-- The folders below the entries of a list.
folders_in : List (String × Node) → ℕ
folders_in [] = 0
folders_in ((name, node) ∷ rest) = folders_of_node node + folders_in rest

folders_in-entry_list : (es : Entries) → folders_in (entry_list es) ≡ folders_of_entries es
unfolding folders_in folders_of_entries
folders_in-entry_list entry_end = refl
folders_in-entry_list (entry name node rest) = omega (arith, folders_in-entry_list rest)

folders_in-reverse_onto :
    (es acc : List (String × Node))
    → folders_in (reverse_onto es acc) ≡ folders_in es + folders_in acc
unfolding folders_in
folders_in-reverse_onto [] acc = omega arith
folders_in-reverse_onto (e ∷ es) acc = omega (arith, folders_in-reverse_onto es (e ∷ acc))

folders_in-insert_by :
    (e : String × Node) (es : List (String × Node))
    → folders_in (insert_by (λ x. x.0) e es) ≡ folders_of_node e.1 + folders_in es
unfolding folders_in insert_by
folders_in-insert_by e [] = refl
folders_in-insert_by e (x ∷ xs) = elim (Bool-cases (text_leb e.0 x.0)) [
  | inl low ↦ rw low refl
  | inr high ↦ rw high (omega (arith, folders_in-insert_by e xs))
]

folders_in-sort_by :
    (es : List (String × Node)) → folders_in (sort_by (λ x. x.0) es) ≡ folders_in es
unfolding folders_in sort_by
folders_in-sort_by [] = refl
folders_in-sort_by (e ∷ es) =
    folders_in-insert_by e (sort_by (λ x. x.0) es)
    ∙ ap (λ n. folders_of_node e.1 + n) (folders_in-sort_by es)

folders_in-descending : (es : Entries) → folders_in (descending es) ≡ folders_of_entries es
unfolding descending folders_in
folders_in-descending es =
    folders_in-reverse_onto (sort_by (λ e. e.0) (entry_list es)) []
    ∙ (omega (arith, folders_in-sort_by (entry_list es), folders_in-entry_list es))

-- The rounds that the directories on the stack need.
pending : List Waiting → ℕ
pending [] = 0
pending (d ∷ ds) = suc (folders_of_listing d.listing) + pending ds

scan_entries-pending :
    (limits : ScanLimits) (root : String) (d : Waiting) (es : List (String × Node)) (w : WalkState)
    → pending (scan_entries limits root d es w).directories ≤ pending w.directories + folders_in es
unfolding scan_entries folders_in pending folders_of_node
scan_entries-pending limits root d [] w = omega arith
scan_entries-pending limits root d ((name, untold) ∷ rest) w = omega arith
scan_entries-pending limits root d ((name, link) ∷ rest) w =
    omega (arith, scan_entries-pending limits root d rest (with_link d name w))
scan_entries-pending limits root d ((name, special) ∷ rest) w =
    omega (arith, scan_entries-pending limits root d rest w)
scan_entries-pending limits root d ((name, folder listing) ∷ rest) w =
    elim (Bool-cases (is_ignored_directory name)) [
      | inl e ↦ rw (e, scan_entries) (omega (arith, scan_entries-pending limits root d rest w))
      | inr e ↦
          rw (e, scan_entries)
            (omega (arith, scan_entries-pending limits root d rest (with_folder d name listing w)))
    ]
scan_entries-pending limits root d ((name, regular answer) ∷ rest) w =
    let w' : WalkState = with_file d name answer w in
    elim (Bool-cases (ignore_file name)) [
      | inl e ↦ rw (e, scan_entries) (omega (arith, scan_entries-pending limits root d rest w))
      | inr e ↦ elim (Bool-cases (ltb limits.max_files (suc (length w.files)))) [
        | inl over ↦ rw (e, over, scan_entries) (omega arith)
        | inr within ↦
            rw (e, within, scan_entries) (omega (arith, scan_entries-pending limits root d rest w'))
      ]
    ]

pub Listing-cases : (l : Listing) → (l ≡ unlisted) ⊎ ((es : Entries) × (l ≡ listed es))
Listing-cases unlisted = inl refl
Listing-cases (listed es) = inr (es, refl)

walk_ends :
    (fuel : ℕ) (limits : ScanLimits) (root : String) (ds : List Waiting) (w : WalkState)
    → pending ds ≤ fuel
    → walk fuel limits root ds w ≢ exhausted
unfolding walk pending folders_of_listing
walk_ends fuel limits root [] w h = λ e. ground arith
walk_ends zero limits root (d ∷ ds) w h = ground arith
walk_ends (suc fuel) limits root (d ∷ ds) w h = elim (Listing-cases d.listing) [
  | inl e ↦ rw (e, walk) (λ x. ground arith)
  | inr (es, e) ↦
      let w' : WalkState =
        scan_entries limits root d (descending es) (record w { directories = ds }) in
      let fewer =
        scan_entries-pending limits root d (descending es) (record w { directories = ds }) in
      let all_folders = folders_in-descending es in
      let h' : suc (folders_of_listing (listed es)) + pending ds ≤ suc fuel = rw e at h in
      elim (Bool-cases (has_failed w')) [
        | inl raised ↦ rw (e, walk, raised) (λ x. ground arith)
        | inr goes_on ↦ elim (Bool-cases (ltb limits.max_files (length w'.files))) [
          | inl over ↦ rw (e, walk, goes_on, over) (λ x. ground arith)
          | inr within ↦
              rw (e, walk, goes_on, within)
                (walk_ends fuel limits root w'.directories w' (omega arith))
        ]
      ]
]

-- The walk from a root ends by itself in as many rounds as it has folders: it was completed or cut
-- off at the limit, or a directory could not be listed or an entry of it not be told apart.
pub walk_root_ends :
    (limits : ScanLimits) (root : String) (listing : Listing) (warnings : List String)
    → walk_root limits root listing warnings ≢ exhausted
unfolding walk_root pending
walk_root_ends limits root listing warnings =
    walk_ends (suc (folders_of_listing listing)) limits root _ _ (omega arith)
