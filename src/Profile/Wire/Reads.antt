-- ===== src/Profile/Wire/Reads.antt =====
-- What the reader of src/profile.cpp had before it, when it has read.
use sovereign_windows_auth.Base.{
  ℕ, zero, suc, ◌-◌, ◌*◌, ◌≤◌, ◌<◌, ◌≡◌, refl, sym, ap, ◌∙◌, arith, ◌&&◌, [], ◌∷◌, ◌++◌,
  append_assoc, All, length, take, drop, subst, All-append_left, All-append_right, length-append,
  take-append-drop, length-take, drop-append, ltb, leb, Result, ok, ◌>>=◌, ◌>>◌, need, need-eq-ok,
  positive_le, >>=-eq-ok, >>=_assoc,
}
use sovereign_windows_auth.Core.{Bytes, WideString, IsByte, IsBytes, read32}
use sovereign_windows_auth.Core.Number.{le32, le32-read32}
use sovereign_windows_auth.Profile.Wide.{no_nul, wide_bytes, wide_of}
use sovereign_windows_auth.Profile.Wire.{Reader, take_bytes, read_number, read_string}
use sovereign_windows_auth.Profile.Wire.Writes.{IsUnit, IsIdentity, string_bytes}
use sovereign_windows_auth.Profile.Wire.Moves.{at}

-- A reader that took `n` bytes had them before it.
take_splits :
    (done tail : Bytes) (n : ℕ) {bs : Bytes} {r : Reader}
    → take_bytes (at done tail) n ≡ ok (bs, r)
    → (left : Bytes) × (tail ≡ bs ++ left) × (length bs ≡ n) × (r ≡ at (done ++ bs) left)
unfolding take_bytes
take_splits done tail n {bs} {r} h =
    let (t, e) =
      need-eq-ok
        (leb (length done) (length (done ++ tail)) && leb n (length (done ++ tail) - length done)) _
        _ h in
    let fits : n ≤ length tail = ground (arith, length-append done tail) in
    let taken : take n tail ≡ bs = cc (drop-append done tail) in
    let cut : tail ≡ bs ++ drop n tail = cc (take-append-drop n tail) in
    let size : length bs ≡ n = omega (arith, ap length taken, length-take n tail fits) in
    (
      drop n tail,
      cut,
      size,
      ground (arith, length-append done bs, append_assoc done bs (drop n tail)),
    )

-- The same backwards, for a read and what goes on with its result.
module _ {ℓ} {B : Type ℓ} {x : B} where
  pub take_inv :
      (done tail : Bytes) (n : ℕ) (f : Bytes × Reader → Result B)
      → IsBytes tail
      → (take_bytes (at done tail) n >>= f) ≡ ok x
      → (bs left : Bytes) × (tail ≡ bs ++ left)
        × (length bs ≡ n)
        × IsBytes bs
        × IsBytes left
        × (f (bs, at (done ++ bs) left) ≡ ok x)
  take_inv done tail n f b h =
      let ((bs, r), e, k) = >>=-eq-ok (take_bytes (at done tail) n) f h in
      let (left, cut, size, there) = take_splits done tail n e in
      let bytes = subst IsBytes cut b in
      (
        bs,
        left,
        cut,
        size,
        All-append_left IsByte bs left bytes,
        All-append_right IsByte bs left bytes,
        cc,
      )

  pub number_inv :
      (done tail : Bytes) (f : ℕ × Reader → Result B)
      → IsBytes tail
      → (read_number (at done tail) >>= f) ≡ ok x
      → (n : ℕ) × (left : Bytes) × (tail ≡ le32 n ++ left)
        × IsBytes left
        × (f (n, at (done ++ le32 n) left) ≡ ok x)
  unfolding read_number
  number_inv done tail f b h =
      let (bs, left, cut, size, bytes, rest, k) =
        take_inv done tail 4 (λ (bs, r). f (read32 bs, r)) b
          (sym (>>=_assoc (take_bytes (at done tail) 4) _ f) ∙ h) in
      let same = le32-read32 bs bytes size in (read32 bs, left, cc, rest, rw same k)

wide_bytes-wide_of :
    (n : ℕ) (bs : Bytes)
    → IsBytes bs
    → length bs ≡ n * 2
    → (wide_bytes (wide_of bs) ≡ bs) × (length (wide_of bs) ≡ n) × All IsUnit (wide_of bs)
wide_bytes-wide_of zero [] b e = (refl, refl, tt)
wide_bytes-wide_of (suc n) [] b e = absurd (omega arith)
wide_bytes-wide_of n (x ∷ []) b e = absurd (omega arith)
wide_bytes-wide_of zero (x ∷ y ∷ bs) b e = absurd (omega arith)
wide_bytes-wide_of (suc n) (x ∷ y ∷ bs) (hx, (hy, b)) e =
    let (same, size, units) = wide_bytes-wide_of n bs b (omega arith) in
    (ground arith, omega arith, (omega arith, units))

-- `read_string` behind its number.
abbrev string_rest : ℕ × Reader → Result (WideString × Reader)
string_rest (n, r) = do
  need (ltb 0 n && leb n 512) "Invalid identity length"
  (bytes, r) ← take_bytes r (n * 2)
  need (no_nul (wide_of bytes)) "Embedded identity terminator"
  ok (wide_of bytes, r)

module _ {ℓ} {B : Type ℓ} {x : B} where
  string_rest_inv :
      (done tail : Bytes) (n : ℕ) (f : WideString × Reader → Result B)
      → IsBytes tail
      → (string_rest (n, at done tail) >>= f) ≡ ok x
      → (s : WideString) × (left : Bytes) × (tail ≡ wide_bytes s ++ left)
        × IsBytes left
        × (length s ≡ n)
        × IsIdentity s
        × All IsUnit s
        × (f (s, at (done ++ wide_bytes s) left) ≡ ok x)
  string_rest_inv done tail n f b h =
      let (small, k) =
        need-eq-ok (ltb 0 n && leb n 512) _ _
          (sym (>>=_assoc (need (ltb 0 n && leb n 512) _) _ f) ∙ h) in
      let (bs, left, cut, size, bytes, rest, k) =
        take_inv done tail (n * 2) _ b
          (sym (>>=_assoc (take_bytes (at done tail) (n * 2)) _ f) ∙ k) in
      let (whole, k) =
        need-eq-ok (no_nul (wide_of bs)) _ _
          (sym (>>=_assoc (need (no_nul (wide_of bs)) _) _ f) ∙ k) in
      let (same, long, units) = wide_bytes-wide_of n bs bytes size in
      let (pos, short) = positive_le n 512 small in
      (
        wide_of bs,
        left,
        cc,
        rest,
        long,
        record {
          nonempty = subst (λ k. 0 < k) (sym long) pos;
          short = subst (λ k. k ≤ 512) (sym long) short;
          unterminated = whole;
        },
        units,
        rw same k,
      )

module _ {ℓ} {B : Type ℓ} {x : B} where
  pub string_inv :
      (done tail : Bytes) (f : WideString × Reader → Result B)
      → IsBytes tail
      → (read_string (at done tail) >>= f) ≡ ok x
      → (s : WideString) × (left : Bytes) × (tail ≡ string_bytes s ++ left)
        × IsBytes left
        × IsIdentity s
        × All IsUnit s
        × (f (s, at (done ++ string_bytes s) left) ≡ ok x)
  unfolding read_string
  string_inv done tail f b h =
      let (n, left, cut, rest, k) =
        number_inv done tail _ b (sym (>>=_assoc (read_number (at done tail)) _ f) ∙ h) in
      let (s, left, cut', rest, long, identity, units, k) =
        string_rest_inv (done ++ le32 n) left n f rest k in
      let number = ap le32 long in
      let join = append_assoc (le32 n) (wide_bytes s) left in
      let place : at ((done ++ le32 n) ++ wide_bytes s) left ≡ at (done ++ string_bytes s) left =
        ap (λ d. at d left)
          (append_assoc done (le32 n) (wide_bytes s)
            ∙ ap (λ t. done ++ (t ++ wide_bytes s)) (sym number)) in
      (s, left, cc, rest, identity, units, subst (λ r. f (s, r) ≡ ok x) place k)

module _ {ℓ κ} {B : Type ℓ} {x : B} {G : Type κ} where
  pub take_elim :
      (done tail : Bytes) (n : ℕ) (f : Bytes × Reader → Result B)
      → IsBytes tail
      → (take_bytes (at done tail) n >>= f) ≡ ok x
      → ((bs left : Bytes)
          → tail ≡ bs ++ left
          → length bs ≡ n
          → IsBytes bs
          → IsBytes left
          → f (bs, at (done ++ bs) left) ≡ ok x
          → G)
      → G
  take_elim done tail n f b h g =
      let (bs, left, cut, size, kb, kl, e) = take_inv done tail n f b h in
      g bs left cut size kb kl e

  pub number_elim :
      (done tail : Bytes) (f : ℕ × Reader → Result B)
      → IsBytes tail
      → (read_number (at done tail) >>= f) ≡ ok x
      → ((n : ℕ) (left : Bytes)
          → tail ≡ le32 n ++ left
          → IsBytes left
          → f (n, at (done ++ le32 n) left) ≡ ok x
          → G)
      → G
  number_elim done tail f b h g =
      let (n, left, cut, kl, e) = number_inv done tail f b h in g n left cut kl e

  pub string_elim :
      (done tail : Bytes) (f : WideString × Reader → Result B)
      → IsBytes tail
      → (read_string (at done tail) >>= f) ≡ ok x
      → ((s : WideString) (left : Bytes)
          → tail ≡ string_bytes s ++ left
          → IsBytes left
          → IsIdentity s
          → All IsUnit s
          → f (s, at (done ++ string_bytes s) left) ≡ ok x
          → G)
      → G
  string_elim done tail f b h g =
      let (s, left, cut, kl, id, units, e) = string_inv done tail f b h in
      g s left cut kl id units e
