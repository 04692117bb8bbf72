-- ===== src/Base/Reading.antt =====
-- The loops that read a file by `os.read` up to a limit: of the runtime inventory's store and
-- discovery, and of the evidence resolver.
use Prim.Native.Nat.{ℕ, zero, suc, ◌+◌, ◌-◌, ◌≤◌, min}
use mathlib.Core.Path.{◌≡◌, refl, sym, ap, subst, ◌∙◌}
use mathlib.Core.Logic.{inl, inr}
use mathlib.Core.Option.{Option, none, some}
use mathlib.Core.List.{[], ◌∷◌, ◌++◌}
use native.Mathlib.Omega.{arith}
use skill_governance_control.Base.Tests.{Option-cases}
use skill_governance_control.Base.Lists.{length, take, drop}
use skill_governance_control.Base.Bytes.{Bytes}

-- How many bytes more than one `os.read` returns at an offset, if that many are asked for and left;
-- `none` is an `OSError`. It returns no byte only at the end of the file, where it can raise too.
abbrev pub ReadAnswers : Type 0
ReadAnswers = ℕ → Option ℕ

-- `min(65536, remaining) - 1`, for what remains after one byte.
abbrev pub chunk_limit : ℕ → ℕ
chunk_limit remaining = min 65535 remaining

-- The loop `while remaining > 0`, on the rest of the file from an offset. It is given one round for
-- each byte that it may read, and one to leave.
unfoldable pub read_chunks : ℕ → ReadAnswers → ℕ → ℕ → Bytes → Option Bytes
read_chunks fuel answers zero offset rest = some []
read_chunks zero answers (suc remaining) offset rest = none
read_chunks (suc fuel) answers (suc remaining) offset [] = elim (answers offset) [
  | none ↦ none
  | some _ ↦ some []
]
read_chunks (suc fuel) answers (suc remaining) offset (b ∷ rest) = elim (answers offset) [
  | none ↦ none
  | some n ↦
      let more = min n (chunk_limit remaining) in
      elim (read_chunks fuel answers (remaining - length (take more rest))
        (offset + suc (length (take more rest))) (drop more rest)) [
          | none ↦ none
          | some content ↦ some (b ∷ take more rest ++ content)
        ]
]

-- `os.read` until `limit` bytes are there or the file ends.
unfoldable pub read_limited : ReadAnswers → ℕ → Bytes → Option Bytes
unfolding read_chunks
read_limited answers limit content = read_chunks (suc limit) answers limit 0 content

take_split :
    (m n : ℕ) (xs : Bytes)
    → m ≤ n
    → take m xs ++ take (n - length (take m xs)) (drop m xs) ≡ take n xs
take_split zero n xs h = ap (λ k. take k xs) (omega arith)
take_split (suc m) zero xs h = elim h [ ]
take_split (suc m) (suc n) [] h = take_nil (suc n - 0)
  where
    take_nil : (k : ℕ) → take {A = ℕ} k [] ≡ []
    take_nil zero = refl
    take_nil (suc k) = refl
take_split (suc m) (suc n) (x ∷ xs) h =
    ap (λ l. x ∷ l)
      (ap (λ k. take m xs ++ take k (drop m xs)) (omega arith) ∙ take_split m n xs (omega arith))

-- However the chunks come, the loop returns the first bytes of the file, or an `OSError`.
pub read_chunks-take :
    (fuel : ℕ) (answers : ReadAnswers) (remaining offset : ℕ) (rest content : Bytes)
    → read_chunks fuel answers remaining offset rest ≡ some content
    → content ≡ take remaining rest
unfolding read_chunks
read_chunks-take fuel answers zero offset rest content h = ground arith
read_chunks-take zero answers (suc remaining) offset rest content h = ground arith
read_chunks-take (suc fuel) answers (suc remaining) offset [] content h =
    elim (Option-cases (answers offset)) [ inl failed ↦ ground arith | inr (n, e) ↦ ground arith ]
read_chunks-take (suc fuel) answers (suc remaining) offset (b ∷ rest) content h =
    elim (Option-cases (answers offset)) [
      | inl failed ↦ ground arith
      | inr (n, e) ↦
          let more : ℕ = min n (chunk_limit remaining) in
          let left : ℕ = remaining - length (take more rest) in
          let next : ℕ = offset + suc (length (take more rest)) in
          elim (Option-cases (read_chunks fuel answers left next (drop more rest))) [
            | inl failed ↦ ground arith
            | inr (tail, k) ↦
                let ih = read_chunks-take fuel answers left next (drop more rest) tail k in
                let same : content ≡ b ∷ take more rest ++ tail = ground arith in
                same
                ∙ ap (λ l. b ∷ take more rest ++ l) ih
                ∙ ap (λ l. b ∷ l) (take_split more remaining rest (omega arith))
          ]
    ]

-- It returns, if every `os.read` does.
pub read_chunks_total :
    (fuel : ℕ) (answers : ReadAnswers) (remaining offset : ℕ) (rest : Bytes)
    → ((i : ℕ) → (n : ℕ) × (answers i ≡ some n))
    → remaining ≤ fuel
    → (content : Bytes) × (read_chunks fuel answers remaining offset rest ≡ some content)
unfolding read_chunks
read_chunks_total fuel answers zero offset rest returns h = ([], refl)
read_chunks_total zero answers (suc remaining) offset rest returns h = elim h [ ]
read_chunks_total (suc fuel) answers (suc remaining) offset [] returns h =
    let (n, e) = returns offset in ([], rw (e, read_chunks) refl)
read_chunks_total (suc fuel) answers (suc remaining) offset (b ∷ rest) returns h =
    let (n, e) = returns offset in
    let more = min n (chunk_limit remaining) in
    let (content, k) =
      read_chunks_total fuel answers (remaining - length (take more rest))
        (offset + suc (length (take more rest))) (drop more rest) returns (omega arith) in
    (b ∷ take more rest ++ content, ground arith)

take-all : (n : ℕ) (xs : Bytes) → length (take (suc n) xs) ≤ n → take (suc n) xs ≡ xs
take-all n [] h = refl
take-all zero (x ∷ xs) h = ground arith
take-all (suc n) (x ∷ xs) h = ap (λ l. x ∷ l) (take-all n xs (omega arith))

-- What was read with one byte to spare is the whole file.
pub read_limited_whole :
    (answers : ReadAnswers) (most : ℕ) (content c : Bytes)
    → read_limited answers (suc most) content ≡ some c
    → length c ≤ most
    → content ≡ c
unfolding read_limited
read_limited_whole answers most content c h k =
    let same : c ≡ take (suc most) content =
      read_chunks-take (suc (suc most)) answers (suc most) 0 content c h in
    sym (same ∙ take-all most content (subst (λ l. length l ≤ most) same k))
