-- ===== src/Com/Unguarded.antt =====
-- The locks of the credential provider's module, which counts without a guard: src/provider.cpp.
use sovereign_windows_auth.Base.{
  ◌≡◌, refl, ap, ◌∙◌, ◌↔◌, ℕ, ◌+◌, ◌-◌, ◌%◌, ◌^◌, ◌≤◌, ◌<◌, Bool, true, false, List, [], ◌∷◌, ◌++◌,
  length, arith,
}
use sovereign_windows_auth.Filter.Types.{s_ok}
use sovereign_windows_auth.Com.{ModuleState, lock_unguarded, can_unload}
use sovereign_windows_auth.Com.Unloads.{can_unload_iff_zero}

-- The calls of LockServer, with their arguments.
abbrev pub after_locks : List Bool → ModuleState → ModuleState
after_locks [] m = m
after_locks (lock ∷ calls) m = after_locks calls (lock_unguarded lock m).1

-- How many of the calls lock, and how many unlock.
abbrev pub locking : List Bool → ℕ
locking [] = 0
locking (true ∷ calls) = locking calls + 1
locking (false ∷ calls) = locking calls

abbrev pub unlocking : List Bool → ℕ
unlocking [] = 0
unlocking (true ∷ calls) = unlocking calls
unlocking (false ∷ calls) = unlocking calls + 1

-- The locks that stand after the calls, where an unlock takes away a lock that stands, or none.
abbrev pub standing : ℕ → List Bool → ℕ
standing held [] = held
standing held (true ∷ calls) = standing (held + 1) calls
standing held (false ∷ calls) = standing (held - 1) calls

-- The count only keeps the difference.
balance :
    (calls : List Bool) (m : ModuleState) (n : ℕ)
    → m.locks < 2 ^ 32
    → unlocking calls ≤ n
    → n < 2 ^ 32
    → ((after_locks calls m).locks + n) % 2 ^ 32
      ≡ (m.locks + locking calls + (n - unlocking calls)) % 2 ^ 32
unfolding lock_unguarded
balance [] m n small room bound = omega arith
balance (true ∷ calls) m n small room bound =
    balance calls (lock_unguarded true m).1 n (omega arith) room bound ∙ omega arith
balance (false ∷ calls) m n small room bound =
    balance calls (lock_unguarded false m).1 n (omega arith) (omega (arith, room)) bound
    ∙ omega (arith, room)

same_objects : (calls : List Bool) (m : ModuleState) → (after_locks calls m).objects ≡ m.objects
unfolding lock_unguarded
same_objects [] m = refl
same_objects (true ∷ calls) m = same_objects calls (lock_unguarded true m).1
same_objects (false ∷ calls) m = same_objects calls (lock_unguarded false m).1

within :
    (calls : List Bool) (m : ModuleState) → m.locks < 2 ^ 32 → (after_locks calls m).locks < 2 ^ 32
unfolding lock_unguarded
within [] m h = h
within (true ∷ calls) m h = within calls (lock_unguarded true m).1 (omega arith)
within (false ∷ calls) m h = within calls (lock_unguarded false m).1 (omega arith)

locking_and_unlocking : (calls : List Bool) → locking calls + unlocking calls ≡ length calls
locking_and_unlocking [] = refl
locking_and_unlocking (true ∷ calls) = omega (arith, locking_and_unlocking calls)
locking_and_unlocking (false ∷ calls) = omega (arith, locking_and_unlocking calls)

locking_then : (calls : List Bool) → locking (calls ++ (true ∷ [])) ≡ locking calls + 1
locking_then [] = refl
locking_then (true ∷ calls) = ap (λ n. n + 1) (locking_then calls)
locking_then (false ∷ calls) = locking_then calls

unlocking_then : (calls : List Bool) → unlocking (calls ++ (true ∷ [])) ≡ unlocking calls
unlocking_then [] = refl
unlocking_then (true ∷ calls) = unlocking_then calls
unlocking_then (false ∷ calls) = ap (λ n. n + 1) (unlocking_then calls)

standing_then : (calls : List Bool) (held : ℕ) → 0 < standing held (calls ++ (true ∷ []))
standing_then [] held = omega arith
standing_then (true ∷ calls) held = standing_then calls (held + 1)
standing_then (false ∷ calls) held = standing_then calls (held - 1)

-- The count is 0 exactly where the calls balance.
zero_iff :
    (locks l u : ℕ)
    → locks < 2 ^ 32
    → l < 2 ^ 32
    → u < 2 ^ 32
    → (locks + u) % 2 ^ 32 ≡ l % 2 ^ 32
    → (locks ≡ 0) ↔ (l ≡ u)
zero_iff locks l u a b c h = (λ z. omega arith, λ z. omega arith)

balanced :
    (calls : List Bool) (m : ModuleState)
    → m.objects ≡ 0
    → m.locks ≡ 0
    → locking calls + unlocking calls < 2 ^ 32
    → (can_unload (after_locks calls m) ≡ s_ok) ↔ (locking calls ≡ unlocking calls)
balanced calls m none_made none_held few =
    let (there, back) = can_unload_iff_zero (after_locks calls m) in
    let small : (after_locks calls m).locks < 2 ^ 32 = within calls m (omega (arith, none_held)) in
    let objects : (after_locks calls m).objects ≡ 0 = same_objects calls m ∙ none_made in
    let difference : ((after_locks calls m).locks + unlocking calls) % 2 ^ 32
        ≡ locking calls % 2 ^ 32 =
      balance calls m (unlocking calls) (omega (arith, none_held)) (omega arith)
        (omega (arith, few))
      ∙ omega (arith, none_held) in
    let (equal_then, zero_then) =
      zero_iff (after_locks calls m).locks (locking calls) (unlocking calls) small
        (omega (arith, few)) (omega (arith, few)) difference in
    (λ h. equal_then (there h).1, λ h. back (objects, zero_then h))

-- The credential provider loses locks: after any calls of LockServer on its module, from no lock and
-- without objects, fewer than 2^32 with the two below, `DllCanUnloadNow` answers S_OK if and only if
-- as many of the calls lock as unlock, whatever their order; so that an unlock before them and a lock
-- behind them make no difference, although that lock stands then.
pub lock_unguarded-lost :
    (calls : List Bool) (m : ModuleState)
    → m.objects ≡ 0
    → m.locks ≡ 0
    → length calls + 2 < 2 ^ 32
    → ((can_unload (after_locks calls m) ≡ s_ok) ↔ (locking calls ≡ unlocking calls))
      × ((can_unload (after_locks (false ∷ (calls ++ (true ∷ []))) m) ≡ s_ok)
          ↔ (locking calls ≡ unlocking calls))
      × (0 < standing 0 (false ∷ (calls ++ (true ∷ []))))
lock_unguarded-lost calls m none_made none_held few =
    let sum = locking_and_unlocking calls in
    let more = locking_then calls in
    let same = unlocking_then calls in
    let (there, back) =
      balanced (false ∷ (calls ++ (true ∷ []))) m none_made none_held
        (omega (arith, sum, more, same, few)) in
    (
      balanced calls m none_made none_held (omega (arith, sum, few)),
      (λ h. omega (arith, there h, more, same), λ h. back (omega (arith, h, more, same))),
      standing_then calls 0,
    )
