-- ===== src/Com.antt =====
-- The COM objects of the modules: how src/desktop_filter.cpp, src/filter_vm.cpp, src/provider.cpp and
-- src/pin_bridge_vm.cpp count references, objects and locks. Servers has the functions of each.
pub mod Servers
pub mod Counted
pub mod Locks
pub mod Unloads
pub mod Unguarded
use sovereign_windows_auth.Base.{
  ℕ, zero, suc, ◌+◌, ◌-◌, ◌%◌, ◌^◌, Bool, true, false, not, ◌&&◌, ◌||◌, List, [], ◌∷◌, ◌++◌, length,
  get_elem?, Option, none, some, ◌==◌, ltb, if◌then◌else◌,
}
use sovereign_windows_auth.Filter.Types.{
  Guid, HResult, s_ok, s_false, e_pointer, e_nointerface, e_unexpected, e_outofmemory,
  class_e_noaggregation, class_e_classnotavailable,
}

-- `++` and `--` on a count of 32 bits.
abbrev pub up : ℕ → ℕ
up n = (n + 1) % 2 ^ 32

abbrev pub down : ℕ → ℕ
down n = (n + (2 ^ 32 - 1)) % 2 ^ 32

-- The classes of a module's objects: its factory, and what the factory makes.
pub data Class : Type 0 where
  factory product : Class

pub record Object : Type 0 where
  pub class : Class
  pub references : ℕ

-- The interfaces that QueryInterface of a class knows besides IUnknown, and the class identifier.
pub record Server : Type 0 where
  pub iid_unknown : Guid
  pub factory_iids : List Guid
  pub product_iids : List Guid
  pub clsid : Guid

-- The objects of a module at their addresses (none: deleted) and its two counters.
pub record ModuleState : Type 0 where
  pub slots : List (Option Object)
  pub objects : ℕ
  pub locks : ℕ

unfoldable pub is_among : Guid → List Guid → Bool
is_among id [] = false
is_among id (x ∷ ids) = id == x || is_among id ids

unfoldable pub iids_of : Server → Class → List Guid
iids_of server factory = server.factory_iids
iids_of server product = server.product_iids

unfoldable pub knows : Server → Class → Guid → Bool
unfolding is_among iids_of
knows server class iid = iid == server.iid_unknown || is_among iid (iids_of server class)

abbrev pub put : {A : Type 0} → ℕ → A → List A → List A
put a x [] = []
put zero x (y ∷ slots) = x ∷ slots
put (suc a) x (y ∷ slots) = y ∷ put a x slots

-- AddRef on the object at an address.
unfoldable pub add_reference : ℕ → Object → ModuleState → ModuleState
add_reference a o m = record m {
  slots = put a (some (record o { references = up o.references })) m.slots;
}

-- Release: at 0 the object is deleted, and its destructor counts it down.
unfoldable pub release_reference : ℕ → Object → ModuleState → ℕ × ModuleState
release_reference a o m =
    let n = down o.references in
    if n == 0
    then (0, record m { slots = put a none m.slots; objects = down m.objects })
    else (n, record m { slots = put a (some (record o { references = n })) m.slots })

-- QueryInterface; `present` is whether the output pointer is not null. The output is an address.
unfoldable pub query :
    Server → Bool → Guid → ℕ → Object → ModuleState → HResult × Option ℕ × ModuleState
unfolding knows add_reference
query server false iid a o m = (e_pointer, none, m)
query server true iid a o m =
    if knows server o.class iid
    then (s_ok, some a, add_reference a o m)
    else (e_nointerface, none, m)

abbrev pub fresh : Class → Object
fresh class = record { class = class; references = 1 }

-- A constructor.
unfoldable pub construct : Class → ModuleState → ModuleState
construct class m = record m {
  slots = m.slots ++ (some (fresh class) ∷ []);
  objects = up m.objects;
}

abbrev pub slot : Option (Option Object) → Option Object
slot none = none
slot (some o) = o

-- Release through a pointer.
unfoldable pub release_at : ℕ → ModuleState → ModuleState
unfolding release_reference
release_at a m = elim (slot (get_elem? m.slots a)) [
  | none ↦ m
  | some o ↦ (release_reference a o m).1
]

-- A new object is made, asked for an interface and released once.
unfoldable pub make : Server → Bool → Class → Guid → ModuleState → HResult × Option ℕ × ModuleState
unfolding query construct release_at
make server false class iid m = (e_outofmemory, none, m)
make server true class iid m =
    let a = length m.slots in
    let (result, out, n) = query server true iid a (fresh class) (construct class m) in
    (result, out, release_at a n)

-- IClassFactory::CreateInstance: `outer` is whether an aggregate is asked for.
unfoldable pub create_instance :
    Server → Bool → Bool → Bool → Guid → ModuleState → HResult × Option ℕ × ModuleState
unfolding make
create_instance server false outer allocates iid m = (e_pointer, none, m)
create_instance server true true allocates iid m = (class_e_noaggregation, none, m)
create_instance server true false allocates iid m = make server allocates product iid m

-- DllGetClassObject.
unfoldable pub get_class_object :
    Server → Bool → Bool → Guid → Guid → ModuleState → HResult × Option ℕ × ModuleState
unfolding make
get_class_object server false allocates clsid iid m = (e_pointer, none, m)
get_class_object server true allocates clsid iid m =
    if clsid == server.clsid
    then make server allocates factory iid m
    else (class_e_classnotavailable, none, m)

-- A LONG above 0.
abbrev pub is_positive : ℕ → Bool
is_positive n = ltb 0 n && ltb n (2 ^ 31)

-- The loop of the guarded unlock: `reads` has what was read at first and by the exchanges that failed
-- since other threads had changed the count; `now` is what the count is at the last exchange. The
-- result is the count that is left.
unfoldable pub unlock_loop : List ℕ → ℕ → Option ℕ
unlock_loop [] now = if is_positive now then some (down now) else none
unlock_loop (read ∷ reads) now = elim (is_positive read) [
  | true ↦ unlock_loop reads now
  | false ↦ none
]

unfoldable pub unlocked : Option ℕ → ModuleState → HResult × ModuleState
unlocked none m = (e_unexpected, m)
unlocked (some count) m = (s_ok, record m { locks = count })

-- LockServer of the filters and of the test machine's provider.
unfoldable pub lock_guarded : List ℕ → Bool → ModuleState → HResult × ModuleState
unfolding unlock_loop unlocked
lock_guarded reads true m = (s_ok, record m { locks = up m.locks })
lock_guarded reads false m = unlocked (unlock_loop reads m.locks) m

-- LockServer of the credential provider: it counts down without a guard.
unfoldable pub lock_unguarded : Bool → ModuleState → HResult × ModuleState
lock_unguarded true m = (s_ok, record m { locks = up m.locks })
lock_unguarded false m = (s_ok, record m { locks = down m.locks })

-- DllCanUnloadNow.
unfoldable pub can_unload : ModuleState → HResult
can_unload m = if (m.objects == 0) && (m.locks == 0) then s_ok else s_false

unfoldable pub empty_module : ModuleState
empty_module = record { slots = []; objects = 0; locks = 0 }
