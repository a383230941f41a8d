-- ===== src/Core/Equal.antt =====
-- The comparison that looks at every byte decides equality.
use sovereign_windows_auth.Base.{ℕ, ◌<◌, ◌%◌, ◌≡◌, ◌↔◌, refl, subst, true, [], ◌∷◌, length, arith}
use sovereign_windows_auth.Base.{bit_or, bit_xor, ◌==◌, ◌&&◌}
use sovereign_windows_auth.Base.Bits.{
  bit_or_lt, bit_or_eq_zero, bit_xor_lt, bit_xor_eq_zero, bit_xor_self,
}
use sovereign_windows_auth.Core.{Bytes, IsBytes, gather, equal}

gather-eq :
    (d : ℕ) (a b : Bytes)
    → d < 256
    → IsBytes a
    → IsBytes b
    → length a ≡ length b
    → gather d a b ≡ 0
    → (d ≡ 0) × (a ≡ b)
unfolding gather
gather-eq d [] [] hd ha hb e g = (g, refl)
gather-eq d [] (y ∷ b) hd ha hb e g = absurd (omega arith)
gather-eq d (x ∷ a) [] hd ha hb e g = absurd (omega arith)
gather-eq d (x ∷ a) (y ∷ b) hd ha hb e g =
    let low = bit_or_lt 8 d (bit_xor x y) hd (bit_xor_lt 8 x y ha.0 hb.0) in
    let (none_yet, same) =
      gather-eq (bit_or d (bit_xor x y) % 256) a b (omega arith) ha.1 hb.1 (omega arith) g in
    let (before, here) = bit_or_eq_zero 8 d (bit_xor x y) hd (omega arith) in
    (before, cc (bit_xor_eq_zero 8 x y ha.0 here))

gather_self : (a : Bytes) → IsBytes a → gather 0 a a ≡ 0
unfolding gather
gather_self [] h = refl
gather_self (x ∷ a) h = rw (bit_xor_self 8 x h.0) (gather_self a h.1)

-- On bytes the comparison without early exit answers true exactly on equal buffers.
pub equal_iff : (a b : Bytes) → IsBytes a → IsBytes b → (equal a b ≡ true) ↔ (a ≡ b)
unfolding equal
equal_iff a b ha hb = (
  λ e. (gather-eq 0 a b (omega arith) ha hb (ground arith) (ground arith)).1,
  λ p.
      subst (λ x. ((length a == length x) && (gather 0 a x == 0)) ≡ true) p
        (ground (arith, gather_self a ha)),
)
