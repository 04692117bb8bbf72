-- ===== src/Inventory/Discovery/Laws/Hashing.antt =====
-- What the digest of a directory is made from, and how many bytes are read for it.
use skill_governance_control.Base.{
  ℕ, suc, ◌+◌, ◌-◌, ◌≤◌, min, String, true, false, some, List, [], ◌∷◌, ◌++◌, length, map, All, ltb,
  ◌==◌, string_eq, Bool-cases, Option-cases, ◌≡◌, ◌⊎◌, refl, sym, ap, ◌∙◌, inl, inr, arith,
  append_assoc, append-nil,
}
use skill_governance_control.Base.Bytes.{Bytes}
use skill_governance_control.Base.Reading.{read_limited, read_limited_whole}
use skill_governance_control.Inventory.{ScanLimits}
use skill_governance_control.Inventory.Discovery.{
  OpenFile, FileAnswer, refused, opened, ReadResult, content, failure, limit_exceeded, read_opened,
  read_regular_file, FoundFile, frame, Hashed, hash_file, hash_files,
}

-- The bytes are all that a regular file has.
pub IsContentOf : FileAnswer → Bytes → Type 0
IsContentOf answer c =
    (f : OpenFile) × (answer ≡ opened f) × (f.is_regular ≡ some true) × (f.content ≡ c)

read_opened-content :
    (f : OpenFile) (max_bytes : ℕ) (c : Bytes)
    → read_opened f max_bytes ≡ content c
    → (f.is_regular ≡ some true) × (f.content ≡ c) × (length c ≤ max_bytes)
unfolding read_opened
read_opened-content f max_bytes c h =
    elim (Option-cases (read_limited f.answers (suc max_bytes) f.content)) [
      | inl e ↦ ground arith
      | inr (candidate, e) ↦
          let regular : f.is_regular ≡ some true = ground arith in
          let same : candidate ≡ c = ground arith in
          let fits : length c ≤ max_bytes = ground arith in
          (
            regular,
            read_limited_whole f.answers max_bytes f.content c (e ∙ ap some same) fits,
            fits,
          )
    ]

-- However the file comes in chunks: what `_read_regular_file` returns is the whole content of a
-- regular file, and within the limit.
pub read_regular_file-content :
    (answer : FileAnswer) (max_bytes : ℕ) (c : Bytes)
    → read_regular_file answer max_bytes ≡ content c
    → IsContentOf answer c × (length c ≤ max_bytes)
unfolding read_regular_file IsContentOf read_opened
read_regular_file-content refused max_bytes c h = ground arith
read_regular_file-content (opened f) max_bytes c h = elim (Bool-cases f.closes) [
  | inl e ↦
      let (regular, same, fits) =
        read_opened-content f max_bytes c (rw (e, read_regular_file) at h) in
      ((f, refl, regular, same), fits)
  | inr e ↦ ground arith
]

-- What the digest is made from.
pub frames : (String → Bytes) → List (FoundFile × Bytes) → Bytes
frames encode [] = []
frames encode ((f, c) ∷ rest) = frame encode f.relative_path c ++ frames encode rest

pub total_size : List (FoundFile × Bytes) → ℕ
total_size [] = 0
total_size ((f, c) ∷ rest) = length c + total_size rest

ReadResult-cases :
    (r : ReadResult) → ((c : Bytes) × (r ≡ content c)) ⊎ ((reason : String) × (r ≡ failure reason))
ReadResult-cases (content c) = inl (c, refl)
ReadResult-cases (failure reason) = inr (reason, refl)

abbrev added : (String → Bytes) → FoundFile → Bytes → Hashed → Hashed
added encode f c h = record h {
  input = h.input ++ frame encode f.relative_path c;
  total_bytes = h.total_bytes + length c;
}

-- One round either adds a file, or reads none and says so.
hash_file-cases :
    (encode : String → Bytes) (limits : ScanLimits) (root : String) (f : FoundFile) (h : Hashed)
    → h.total_bytes ≤ limits.max_total_bytes
    → ((c : Bytes) × IsContentOf f.answer c
        × (hash_file encode limits root f h ≡ (true, added encode f c h))
        × (h.total_bytes + length c ≤ limits.max_total_bytes))
      ⊎ (((hash_file encode limits root f h).1.complete ≡ false)
          × ((hash_file encode limits root f h).1.total_bytes ≡ h.total_bytes))
unfolding hash_file
hash_file-cases encode limits root f h k =
    let left : ℕ = limits.max_total_bytes - h.total_bytes in
    let r = read_regular_file f.answer (min limits.max_file_bytes left) in
    elim (ReadResult-cases r) [
      | inl (c, e) ↦
          let (whole, fits) = read_regular_file-content f.answer _ c e in
          inl (c, whole, rw (e, hash_file) refl, omega arith)
      | inr (reason, e) ↦ inr (elim (Bool-cases (reason == limit_exceeded)) [
        | inl limit ↦ elim (Bool-cases (ltb left limits.max_file_bytes)) [
          | inl low ↦ rw (e, limit, low, hash_file) (refl, refl)
          | inr high ↦ rw (e, limit, high, hash_file) (refl, refl)
        ]
        | inr other ↦ rw (e, other, hash_file) (refl, refl)
      ])
    ]

-- Once incomplete, the loop remains so; and it keeps the limit.
pub hash_files-complete :
    (encode : String → Bytes) (limits : ScanLimits) (root : String) (fs : List FoundFile)
    (h : Hashed)
    → h.total_bytes ≤ limits.max_total_bytes
    → ((hash_files encode limits root fs h).complete ≡ true → h.complete ≡ true)
      × ((hash_files encode limits root fs h).total_bytes ≤ limits.max_total_bytes)
unfolding hash_files
hash_files-complete encode limits root [] h k = (λ c. c, k)
hash_files-complete encode limits root (f ∷ fs) h k =
    elim (hash_file-cases encode limits root f h k) [
      | inl (c, whole, e, m) ↦
          rw (e, hash_files) (hash_files-complete encode limits root fs (added encode f c h) m)
      | inr (incomplete, same) ↦
          let h' : Hashed = (hash_file encode limits root f h).1 in
          let (mono, bound) = hash_files-complete encode limits root fs h' (omega arith) in
          elim (Bool-cases (hash_file encode limits root f h).0) [
            | inl e ↦ rw (e, hash_files) (λ c. ground (arith, mono c), bound)
            | inr e ↦ rw (e, hash_files) (λ c. ground arith, omega arith)
          ]
    ]

-- What a complete loop hashed: the files in their order, each with all that it has.
unfoldable pub IsHashed : (String → Bytes) → List FoundFile → Hashed → Hashed → Type 0
IsHashed encode fs h result =
    (hashed : List (FoundFile × Bytes)) × (map (λ p. p.0) hashed ≡ fs)
    × All (λ p. IsContentOf p.0.answer p.1) hashed
    × (result.input ≡ h.input ++ frames encode hashed)
    × (result.total_bytes ≡ h.total_bytes + total_size hashed)

pub hash_files-IsHashed :
    (encode : String → Bytes) (limits : ScanLimits) (root : String) (fs : List FoundFile)
    (h : Hashed)
    → h.total_bytes ≤ limits.max_total_bytes
    → (hash_files encode limits root fs h).complete ≡ true
    → IsHashed encode fs h (hash_files encode limits root fs h)
unfolding hash_files IsHashed frames total_size
hash_files-IsHashed encode limits root [] h k complete =
    ([], refl, tt, sym (append-nil h.input), omega arith)
hash_files-IsHashed encode limits root (f ∷ fs) h k complete =
    elim (hash_file-cases encode limits root f h k) [
      | inl (c, whole, e, m) ↦
          let (hashed, files, contents, input, total) =
            hash_files-IsHashed encode limits root fs (added encode f c h) m
              (rw (e, hash_files) at complete) in
          (
            (f, c) ∷ hashed,
            ap (λ l. f ∷ l) files,
            (whole, contents),
            rw (e, hash_files)
                (input
                  ∙ append_assoc h.input (frame encode f.relative_path c) (frames encode hashed)),
            rw (e, hash_files) (omega arith),
          )
      | inr (incomplete, same) ↦
          let h' : Hashed = (hash_file encode limits root f h).1 in
          let (mono, bound) = hash_files-complete encode limits root fs h' (omega arith) in
          elim (Bool-cases (hash_file encode limits root f h).0) [
            | inl e ↦
                let c' : (hash_files encode limits root fs h').complete ≡ true =
                  rw (e, hash_files) at complete in
                ground (arith, mono c')
            | inr e ↦ let c' : h'.complete ≡ true = rw (e, hash_files) at complete in ground arith
          ]
    ]
