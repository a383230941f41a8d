-- ===== src/Com/Locks.antt =====
-- The locks of a module, under its COM calls.
use sovereign_windows_auth.Base.{
  ◌≡◌, refl, sym, ◌∙◌, inl, inr, ℕ, ◌-◌, Bool, true, false, List, [], ◌∷◌, length, get_elem?,
  Option, none, some, some-injective, ◌==◌, Bool-cases, arith,
}
use sovereign_windows_auth.Filter.Types.{Guid, s_ok, e_unexpected}
use sovereign_windows_auth.Com.{
  product, factory, Object, Class, Server, ModuleState, knows, fresh, construct, release_at, down,
  slot, add_reference, release_reference, query, make, create_instance, get_class_object,
  is_positive, unlock_loop, unlocked, lock_guarded,
}

-- An unlock that succeeds takes one away from a positive count.
pub unlock_loop_lem :
    (reads : List ℕ) (now count : ℕ)
    → unlock_loop reads now ≡ some count
    → (is_positive now ≡ true) × (count ≡ down now)
unfolding unlock_loop
unlock_loop_lem [] now count h = elim (Bool-cases (is_positive now)) [
  | inl e ↦ (e, sym (some-injective (rw e at h)))
  | inr e ↦ cc (rw e at h)
]
unlock_loop_lem (read ∷ reads) now count h = elim (Bool-cases (is_positive read)) [
  | inl e ↦ unlock_loop_lem reads now count (rw (e, unlock_loop) at h)
  | inr e ↦ cc (rw (e, unlock_loop) at h)
]

pub unlocked_lem :
    (count : Option ℕ) (m : ModuleState)
    → (unlocked count m).0 ≡ s_ok
    → (n : ℕ) × (count ≡ some n) × ((unlocked count m).1.locks ≡ n)
unfolding unlocked
unlocked_lem none m h = cc
unlocked_lem (some n) m h = (n, refl, refl)

pub refused_lem :
    (count : Option ℕ) (m : ModuleState)
    → (unlocked count m).0 ≡ e_unexpected
    → (unlocked count m).1.locks ≡ m.locks
unfolding unlocked
refused_lem none m h = refl
refused_lem (some n) m h = cc

pub counts_down : (n m held : ℕ) → is_positive n ≡ true → m ≡ down n → n ≡ held → m ≡ held - 1
counts_down n m held p e h = ground arith

pub lock_guarded-once :
    (reads : List ℕ) (m : ModuleState) (held : ℕ)
    → m.locks ≡ held
    → (lock_guarded reads false m).0 ≡ s_ok
    → (lock_guarded reads false m).1.locks ≡ held - 1
unfolding lock_guarded
lock_guarded-once reads m held exact h =
    let (n, e, left) = unlocked_lem (unlock_loop reads m.locks) m h in
    let (positive, down_one) = unlock_loop_lem reads m.locks n e in
    left ∙ counts_down m.locks n held positive down_one exact

pub lock_guarded-refused :
    (reads : List ℕ) (m : ModuleState)
    → (lock_guarded reads false m).0 ≡ e_unexpected
    → (lock_guarded reads false m).1.locks ≡ m.locks
unfolding lock_guarded
lock_guarded-refused reads m h = refused_lem (unlock_loop reads m.locks) m h

-- The calls on objects leave the locks alone.
pub query-locks :
    (server : Server) (present : Bool) (iid : Guid) (a : ℕ) (o : Object) (m : ModuleState)
    → (query server present iid a o m).2.locks ≡ m.locks
unfolding query add_reference
query-locks server false iid a o m = refl
query-locks server true iid a o m = elim (Bool-cases (knows server o.class iid)) [
  | inl e ↦ simp e
  | inr e ↦ simp e
]

pub release_reference-locks :
    (a : ℕ) (o : Object) (m : ModuleState) → (release_reference a o m).1.locks ≡ m.locks
unfolding release_reference
release_reference-locks a o m = elim (Bool-cases (down o.references == 0)) [
  | inl e ↦ simp e
  | inr e ↦ simp e
]

pub by_slot-locks :
    (a : ℕ) (m : ModuleState) (found : Option Object)
    → (elim found as (λ _. ModuleState) [ none ↦ m | some o ↦ (release_reference a o m).1 ]).locks
      ≡ m.locks
by_slot-locks a m none = refl
by_slot-locks a m (some o) = release_reference-locks a o m

pub release_at-locks : (a : ℕ) (m : ModuleState) → (release_at a m).locks ≡ m.locks
unfolding release_at
release_at-locks a m = by_slot-locks a m (slot (get_elem? m.slots a))

pub make-locks :
    (server : Server) (allocates : Bool) (class : Class) (iid : Guid) (m : ModuleState)
    → (make server allocates class iid m).2.locks ≡ m.locks
unfolding make construct
make-locks server false class iid m = refl
make-locks server true class iid m =
    release_at-locks (length m.slots) _
    ∙ query-locks server true iid (length m.slots) (fresh class) (construct class m)

pub get_class_object-locks :
    (server : Server) (present allocates : Bool) (clsid iid : Guid) (m : ModuleState)
    → (get_class_object server present allocates clsid iid m).2.locks ≡ m.locks
unfolding get_class_object
get_class_object-locks server false allocates clsid iid m = refl
get_class_object-locks server true allocates clsid iid m =
    elim (Bool-cases (clsid == server.clsid)) [
      | inl e ↦ simp e (make-locks server allocates factory iid m)
      | inr e ↦ simp e
    ]

pub create_instance-locks :
    (server : Server) (present outer allocates : Bool) (iid : Guid) (m : ModuleState)
    → (create_instance server present outer allocates iid m).2.locks ≡ m.locks
unfolding create_instance
create_instance-locks server false outer allocates iid m = refl
create_instance-locks server true true allocates iid m = refl
create_instance-locks server true false allocates iid m = make-locks server allocates product iid m
