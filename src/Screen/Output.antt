-- ===== src/Screen/Output.antt =====
-- The output of the recovery program that src/recovery_screen.cpp's runTool keeps.
use sovereign_windows_auth.Base.{
  ◌≡◌, refl, sym, ap, ◌∙◌, inl, inr, ℕ, zero, suc, ◌-◌, ◌≤◌, List, [], ◌∷◌, ◌++◌, length, take, ltb,
  length-append, Bool-cases, append_assoc, append-nil, need_elim, ok-injective, subst, ok, arith,
}
use sovereign_windows_auth.Core.{Bytes}
use mathlib.Core.Path.{◌≡⟨◌⟩◌, ◌∎}
use sovereign_windows_auth.Screen.{kept, Tool, output_limit, read_output, run_tool}

-- All that the program wrote until the pipe ended: an empty block is the end.
abbrev pub written : List Bytes → Bytes
written [] = []
written ([] ∷ blocks) = []
written ((b ∷ block) ∷ blocks) = (b ∷ block) ++ written blocks

-- The reference: the first `output_limit` bytes.
abbrev pub first_bytes : List Bytes → Bytes
first_bytes blocks = take output_limit (written blocks)

take-append_short :
    (n : ℕ) (xs ys : Bytes) → length xs ≤ n → take n (xs ++ ys) ≡ xs ++ take (n - length xs) ys
take-append_short n [] ys h = let e : n - 0 ≡ n = omega arith in rw e
take-append_short zero (x ∷ xs) ys h = absurd (omega arith)
take-append_short (suc n) (x ∷ xs) ys h =
    let e : suc n - suc (length xs) ≡ n - length xs = omega arith in
    rw e (ap (λ t. x ∷ t) (take-append_short n xs ys (omega arith)))

take-append_take :
    (n : ℕ) (xs ys : Bytes) → take n xs ++ take (n - length (take n xs)) ys ≡ take n (xs ++ ys)
take-append_take zero xs ys = refl
take-append_take (suc n) [] ys = let e : suc n - 0 ≡ suc n = omega arith in rw e
take-append_take (suc n) (x ∷ xs) ys =
    let e : suc n - suc (length (take n xs)) ≡ n - length (take n xs) = omega arith in
    rw e (ap (λ t. x ∷ t) (take-append_take n xs ys))

length-take-le : (n : ℕ) (xs : Bytes) → length (take n xs) ≤ n
length-take-le zero xs = omega arith
length-take-le (suc n) [] = omega arith
length-take-le (suc n) (x ∷ xs) = omega (arith, length-take-le n xs)

kept_lem :
    (limit : ℕ) (output block : Bytes)
    → length output ≤ limit
    → kept limit output block ≡ output ++ take (limit - length output) block
unfolding kept
kept_lem limit output block h = elim (Bool-cases (ltb (length output) limit)) [
  | inl e ↦ rw e
  | inr e ↦
      let full : limit - length output ≡ 0 = ground arith in
      rw e (rw full (sym (append-nil output)))
]

module _ (limit : ℕ) (output block : Bytes) (h : length output ≤ limit) where
  length-kept : length (kept limit output block) ≤ limit
  length-kept = rw (kept_lem limit output block h) (
      omega (
        arith,
        length-append output (take (limit - length output) block),
        length-take-le (limit - length output) block,
      ))

  -- What is kept of two blocks is what is kept of both in one.
  take-kept :
      (rest : Bytes)
      → take limit (kept limit output block ++ rest) ≡ take limit (output ++ (block ++ rest))
  take-kept rest =
      let m = limit - length output in
      let all = kept limit output block in
      let here : all ≡ output ++ take m block = kept_lem limit output block h in
      let left : limit - length (output ++ take m block) ≡ m - length (take m block) =
        omega (arith, length-append output (take m block)) in
      take limit (all ++ rest)
      ≡⟨ take-append_short limit all rest length-kept ⟩ all ++ take (limit - length all) rest
      ≡⟨ (rw here
          (rw left (append_assoc output (take m block) (take (m - length (take m block)) rest)))) ⟩
        output ++ (take m block ++ take (m - length (take m block)) rest)
      ≡⟨ ap (λ t. output ++ t) (take-append_take m block rest) ⟩ output ++ take m (block ++ rest)
      ≡⟨ sym (take-append_short limit output (block ++ rest) h) ⟩
        take limit (output ++ (block ++ rest)) ∎

take-nil : (n : ℕ) → take {A = ℕ} n [] ≡ []
take-nil zero = refl
take-nil (suc n) = refl

take_all : (n : ℕ) (xs : Bytes) → length xs ≤ n → take n (xs ++ []) ≡ xs
take_all n xs h =
    let full : take (n - length xs) [] ≡ [] = take-nil (n - length xs) in
    take-append_short n xs [] h ∙ ap (λ t. xs ++ t) full ∙ append-nil xs

read_output_lem :
    (output : Bytes) (blocks : List Bytes)
    → length output ≤ output_limit
    → read_output output blocks ≡ take output_limit (output ++ written blocks)
unfolding read_output
read_output_lem output [] h = sym (take_all output_limit output h)
read_output_lem output ([] ∷ blocks) h = sym (take_all output_limit output h)
read_output_lem output ((b ∷ block) ∷ blocks) h =
    read_output_lem (kept output_limit output (b ∷ block)) blocks
      (length-kept output_limit output (b ∷ block) h)
    ∙ take-kept output_limit output (b ∷ block) h (written blocks)

-- The output of the recovery program is bounded, and only its end is lost: where `runTool` returns,
-- the text that it keeps is the first 16384 bytes of what the program wrote until the pipe ended, or
-- all of it where it wrote less, however the pipe cut it into blocks.
pub run_tool-output :
    (tool : Tool) (exit : ℕ) (output : Bytes)
    → run_tool tool ≡ ok (exit, output)
    → (output ≡ first_bytes tool.blocks) × (length output ≤ output_limit)
unfolding run_tool
run_tool-output tool exit output h = need_elim tool.piped _ _ h λ _ h.
    need_elim tool.is_protected _ _ h λ _ h. need_elim tool.started _ _ h λ _ h.
      let same : read_output [] tool.blocks ≡ output =
        ap (λ (t : ℕ × Bytes). t.1) (ok-injective h) in
      let kept : output ≡ first_bytes tool.blocks =
        sym same ∙ read_output_lem [] tool.blocks (omega arith) in
      (
        kept,
        subst (λ (t : Bytes). length t ≤ output_limit) (sym kept)
            (length-take-le output_limit (written tool.blocks)),
      )
