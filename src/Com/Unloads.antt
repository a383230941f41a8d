-- ===== src/Com/Unloads.antt =====
-- When DllCanUnloadNow of the modules lets Windows unload them: src/desktop_filter.cpp,
-- src/filter_vm.cpp, src/pin_bridge_vm.cpp and src/provider.cpp.
use sovereign_windows_auth.Base.{
  ◌≡◌, refl, ◌∙◌, ◌↔◌, inl, inr, ℕ, ◌+◌, ◌-◌, ◌%◌, ◌^◌, ◌<◌, Bool, true, false, List, get_elem?,
  Option, none, some, ◌==◌, Bool-cases, arith,
}
use sovereign_windows_auth.Filter.Types.{Guid, s_ok, e_unexpected}
use sovereign_windows_auth.Com.{
  product, factory, Object, Server, ModuleState, slot, add_reference, release_reference, query,
  create_instance, get_class_object, unlock_loop, unlocked, lock_guarded, can_unload, empty_module,
}
use sovereign_windows_auth.Com.Counted.{
  live, IsCounted, add_reference-IsCounted, release_reference-IsCounted, query-IsCounted,
  make-IsCounted,
}
use sovereign_windows_auth.Com.Locks.{
  lock_guarded-once, lock_guarded-refused, query-locks, release_reference-locks,
  get_class_object-locks, create_instance-locks,
}

-- The states of a module that loads empty, with the number of locks that are held: its clients call
-- through pointers to objects that live, and hold fewer than 2^31 locks.
pub data Reach (server : Server) : ModuleState → ℕ → Type 0 where
  loaded : Reach server empty_module 0
  queried :
      {m : ModuleState} {held : ℕ} (present : Bool) (iid : Guid) (a : ℕ) (o : Object)
      → slot (get_elem? m.slots a) ≡ some o
      → Reach server m held
      → Reach server (query server present iid a o m).2 held
  referenced :
      {m : ModuleState} {held : ℕ} (a : ℕ) (o : Object)
      → slot (get_elem? m.slots a) ≡ some o
      → Reach server m held
      → Reach server (add_reference a o m) held
  released :
      {m : ModuleState} {held : ℕ} (a : ℕ) (o : Object)
      → slot (get_elem? m.slots a) ≡ some o
      → Reach server m held
      → Reach server (release_reference a o m).1 held
  got_class :
      {m : ModuleState} {held : ℕ} (present allocates : Bool) (clsid iid : Guid)
      → Reach server m held
      → Reach server (get_class_object server present allocates clsid iid m).2 held
  created :
      {m : ModuleState} {held : ℕ} (present outer allocates : Bool) (iid : Guid)
      → Reach server m held
      → Reach server (create_instance server present outer allocates iid m).2 held
  locked :
      {m : ModuleState} {held : ℕ} (reads : List ℕ)
      → held + 1 < 2 ^ 31
      → Reach server m held
      → Reach server (lock_guarded reads true m).1 (held + 1)
  unlocked_once :
      {m : ModuleState} {held : ℕ} (reads : List ℕ)
      → (lock_guarded reads false m).0 ≡ s_ok
      → Reach server m held
      → Reach server (lock_guarded reads false m).1 (held - 1)
  refused :
      {m : ModuleState} {held : ℕ} (reads : List ℕ)
      → (lock_guarded reads false m).0 ≡ e_unexpected
      → Reach server m held
      → Reach server (lock_guarded reads false m).1 held

record IsKept (m : ModuleState) (held : ℕ) : Type 0 where
  counted : IsCounted m
  exact : m.locks ≡ held
  few : held < 2 ^ 31

get_class_object-IsCounted :
    (server : Server) (present allocates : Bool) (clsid iid : Guid) (m : ModuleState)
    → IsCounted m
    → IsCounted (get_class_object server present allocates clsid iid m).2
unfolding get_class_object
get_class_object-IsCounted server false allocates clsid iid m counted = counted
get_class_object-IsCounted server true allocates clsid iid m counted =
    elim (Bool-cases (clsid == server.clsid)) [
      | inl e ↦ simp e (make-IsCounted server allocates factory iid m counted)
      | inr e ↦ simp e counted
    ]

create_instance-IsCounted :
    (server : Server) (present outer allocates : Bool) (iid : Guid) (m : ModuleState)
    → IsCounted m
    → IsCounted (create_instance server present outer allocates iid m).2
unfolding create_instance
create_instance-IsCounted server false outer allocates iid m counted = counted
create_instance-IsCounted server true true allocates iid m counted = counted
create_instance-IsCounted server true false allocates iid m counted =
    make-IsCounted server allocates product iid m counted

same_objects :
    (reads : List ℕ) (lock : Bool) (m : ModuleState)
    → IsCounted m
    → IsCounted (lock_guarded reads lock m).1
unfolding lock_guarded
same_objects reads true m counted = counted
same_objects reads false m counted = by_count (unlock_loop reads m.locks) m counted
  where
    by_count : (count : Option ℕ) (m : ModuleState) → IsCounted m → IsCounted (unlocked count m).1
    by_count none m counted = counted
    by_count (some n) m counted = counted

counts_up : (n held : ℕ) → n ≡ held → held + 1 < 2 ^ 31 → (n + 1) % 2 ^ 32 ≡ held + 1
counts_up n held e h = omega arith

Reach-IsKept : {server : Server} {m : ModuleState} {held : ℕ} → Reach server m held → IsKept m held
unfolding add_reference lock_guarded empty_module
Reach-IsKept loaded = record { counted = refl; exact = refl; few = omega arith }
Reach-IsKept (queried {m} present iid a o here r) =
    let k = Reach-IsKept r in
    record {
      counted = query-IsCounted a o m here k.counted _ present iid;
      exact = query-locks _ present iid a o m ∙ k.exact;
      few = k.few;
    }
Reach-IsKept (referenced {m} a o here r) =
    let k = Reach-IsKept r in
    record { counted = add_reference-IsCounted a o m here k.counted; exact = k.exact; few = k.few }
Reach-IsKept (released {m} a o here r) =
    let k = Reach-IsKept r in
    record {
      counted = release_reference-IsCounted a o m here k.counted;
      exact = release_reference-locks a o m ∙ k.exact;
      few = k.few;
    }
Reach-IsKept (got_class {m} present allocates clsid iid r) =
    let k = Reach-IsKept r in
    record {
      counted = get_class_object-IsCounted _ present allocates clsid iid m k.counted;
      exact = get_class_object-locks _ present allocates clsid iid m ∙ k.exact;
      few = k.few;
    }
Reach-IsKept (created {m} present outer allocates iid r) =
    let k = Reach-IsKept r in
    record {
      counted = create_instance-IsCounted _ present outer allocates iid m k.counted;
      exact = create_instance-locks _ present outer allocates iid m ∙ k.exact;
      few = k.few;
    }
Reach-IsKept (locked {m} {held} reads fits r) =
    let k = Reach-IsKept r in
    record { counted = k.counted; exact = counts_up m.locks held k.exact fits; few = fits }
Reach-IsKept (unlocked_once {m} {held} reads done r) =
    let k = Reach-IsKept r in
    record {
      counted = same_objects reads false m k.counted;
      exact = lock_guarded-once reads m held k.exact done;
      few = omega (arith, k.few);
    }
Reach-IsKept (refused {m} reads done r) =
    let k = Reach-IsKept r in
    record {
      counted = same_objects reads false m k.counted;
      exact = lock_guarded-refused reads m done ∙ k.exact;
      few = k.few;
    }

pub can_unload_iff_zero :
    (m : ModuleState) → (can_unload m ≡ s_ok) ↔ ((m.objects ≡ 0) × (m.locks ≡ 0))
unfolding can_unload
can_unload_iff_zero m = (λ h. ground arith, λ h. ground arith)

-- A module is unloaded exactly when nothing of it is used: after any calls on its objects, its
-- factory and its locks through pointers to live objects, with fewer than 2^32 live objects and 2^31
-- locks, `DllCanUnloadNow` answers S_OK if and only if no object lives and no lock is held, where an
-- unlock that no lock stands against takes none away.
pub can_unload_iff :
    (server : Server) (m : ModuleState) (held : ℕ)
    → Reach server m held
    → live m.slots < 2 ^ 32
    → (can_unload m ≡ s_ok) ↔ ((live m.slots ≡ 0) × (held ≡ 0))
can_unload_iff server m held r fits =
    let k = Reach-IsKept r in
    let (there, back) = can_unload_iff_zero m in
    (
      λ h. let (o, l) = there h in (omega (arith, k.counted, o), omega (arith, k.exact, l)),
      λ h. back (omega (arith, k.counted, h.0), omega (arith, k.exact, h.1)),
    )
