-- ===== src/Repository/Records/Publish.antt =====
-- `_publish_exclusive_record` of repository.py: a record appears whole or not at all, and never
-- replaces another.
use skill_governance_control.Base.{
  ℕ, zero, suc, ◌+◌, ◌≤◌, String, Bool, true, Option, none, some, [], ◌∷◌, ◌++◌, take, drop, length,
  ◌≡◌, ◌≢◌, ◌⊎◌, inl, inr, refl, ap, ◌∙◌, arith, ◌==◌, string_eq, if◌then◌else◌, Option-cases,
  take-append-drop, length-drop,
}
use skill_governance_control.Base.Bytes.{Bytes}
use skill_governance_control.Repository.Records.{
  Directory, read_file, put_file, remove_file, PublishIo, Published, published, already_exists,
  write_all, remove_temporary, publish_link, publish,
}

read-put :
    (j k : String) (v : Bytes) (d : Directory)
    → read_file j (put_file k v d) ≡ (if j == k then some v else read_file j d)
unfolding read_file put_file
read-put j k v d = refl

read-remove :
    (j k : String) (d : Directory)
    → read_file j (remove_file k d) ≡ (if j == k then none else read_file j d)
unfolding read_file remove_file
read-remove j k [] = ground arith
read-remove j k ((i, v) ∷ d) = ground (arith, read-remove j k d)

read-remove_temporary :
    (allowed : Bool) (j k : String) (d : Directory)
    → j ≢ k
    → read_file j (remove_temporary allowed k d).1 ≡ read_file j d
unfolding remove_temporary
read-remove_temporary allowed j k d h = ground (arith, read-remove j k d)

-- `_write_all` returns only when every byte is written, in order.
write_all-done :
    (fuel : ℕ) (write : ℕ → Option ℕ) (offset : ℕ) (payload : Bytes)
    → (write_all fuel write offset payload).0 ≡ true
    → (write_all fuel write offset payload).1 ≡ payload
unfolding write_all
write_all-done fuel write offset [] h = refl
write_all-done zero write offset (b ∷ bs) h = ground arith
write_all-done (suc fuel) write offset (b ∷ bs) h = elim (Option-cases (write offset)) [
  | inl e ↦ ground arith
  | inr (zero, e) ↦ ground arith
  | inr (suc n, e) ↦
      rw (e, write_all)
        (ap (λ l. b ∷ take n bs ++ l)
            (write_all-done fuel write (offset + suc n) (drop n bs) (rw (e, write_all) at h))
          ∙ ap (λ l. b ∷ l) (take-append-drop n bs))
]

-- The loop of `_write_all` ends: if every `os.write` accepts at least one byte, the rounds given to it
-- write the whole payload.
pub write_all_total :
    (fuel : ℕ) (write : ℕ → Option ℕ) (offset : ℕ) (payload : Bytes)
    → ((i : ℕ) → (n : ℕ) × (write i ≡ some (suc n)))
    → length payload ≤ fuel
    → write_all fuel write offset payload ≡ (true, payload)
unfolding write_all
write_all_total fuel write offset [] accepts h = refl
write_all_total zero write offset (b ∷ bs) accepts h = elim h [ ]
write_all_total (suc fuel) write offset (b ∷ bs) accepts h =
    let (n, e) = accepts offset in
    rw
      (
        e,
        write_all,
        write_all_total fuel write (offset + suc n) (drop n bs) accepts
            (omega (arith, length-drop n bs)),
      )
      (ap (λ l. (true, b ∷ l)) (take-append-drop n bs))

publish_link-final_old :
    (io : PublishIo) (final temporary : String) (payload old : Bytes) (d : Directory)
    → final ≢ temporary
    → read_file final d ≡ some old
    → (read_file final (publish_link io final temporary payload d).1 ≡ some old)
      × ((publish_link io final temporary payload d).0 ≢ published)
unfolding publish_link
publish_link-final_old io final temporary payload old d ne h =
    ground (arith, read-remove_temporary io.unlink final temporary d ne)

-- What the final name holds after a publication that found it free.
abbrev pub Fills : String → Bytes → Published × Directory → Type 0
Fills final payload (outcome, d) =
    ((read_file final d ≡ some payload) ⊎ ((read_file final d ≡ none) × (outcome ≢ published)))
    × (outcome ≢ already_exists)

publish_link-Fills :
    (io : PublishIo) (final temporary : String) (payload : Bytes) (d : Directory)
    → final ≢ temporary
    → read_file final d ≡ none
    → Fills final payload (publish_link io final temporary payload d)
unfolding publish_link
publish_link-Fills io final temporary payload d ne h = ground (
  arith,
  read-remove_temporary io.unlink final temporary d ne,
  read-remove_temporary io.unlink final temporary (put_file final payload d) ne,
  read-put final final payload d,
)

module _ (io : PublishIo) (final temporary : String) (payload : Bytes) (d : Directory)
    (ne : final ≢ temporary) where
  abbrev after_write : Directory
  after_write = put_file temporary (write_all (length payload) io.write 0 payload).1 d

  read-after_write : read_file final after_write ≡ read_file final d
  read-after_write =
      ground (arith, read-put final temporary (write_all (length payload) io.write 0 payload).1 d)

  -- A record that is there stays as it is, and no publication over it is reported as done.
  pub publish_immutable :
      (old : Bytes)
      → read_file final d ≡ some old
      → (read_file final (publish io final temporary payload d).1 ≡ some old)
        × ((publish io final temporary payload d).0 ≢ published)
  unfolding publish
  publish_immutable old h = ground (
    arith,
    read-after_write,
    read-remove_temporary io.unlink final temporary d ne,
    read-remove_temporary io.unlink final temporary after_write ne,
    publish_link-final_old io final temporary (write_all (length payload) io.write 0 payload).1 old
        after_write ne,
  )

  -- A free name is filled with the whole payload or stays free, whatever fails on the way; it is
  -- filled if the publication is reported as done, and `already_exists` is not reported.
  pub publish_atomic :
      read_file final d ≡ none → Fills final payload (publish io final temporary payload d)
  unfolding publish
  publish_atomic h = ground (
    arith,
    read-after_write,
    read-remove_temporary io.unlink final temporary d ne,
    read-remove_temporary io.unlink final temporary after_write ne,
    write_all-done (length payload) io.write 0 payload,
    publish_link-Fills io final temporary (write_all (length payload) io.write 0 payload).1
        after_write ne,
  )
