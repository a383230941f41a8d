-- ===== src/Tests/Modules.antt =====
-- A module whose factory is got and released, for the modules' COM objects.
use sovereign_windows_auth.Base.{◌≡◌, refl, ◌↔◌, ℕ, ◌<◌, true, false, false, [], ◌∷◌, some, arith}
use sovereign_windows_auth.Filter.Types.{s_ok, s_false, clsid_sovereign_filter}
use sovereign_windows_auth.Com.{
  factory, Server, ModuleState, is_among, iids_of, knows, add_reference, release_reference, query,
  construct, release_at, make, get_class_object, unlock_loop, unlocked, lock_guarded, can_unload,
  empty_module,
}
use sovereign_windows_auth.Com.Counted.{live}
use sovereign_windows_auth.Com.Servers.{Interfaces, filter_server}
use sovereign_windows_auth.Com.Unloads.{Reach, loaded, got_class, locked, refused, can_unload_iff}
use sovereign_windows_auth.Com.Unguarded.{after_locks, standing, lock_unguarded-lost}

abbrev ids : Interfaces
ids = record { unknown = 0; class_factory = 1; filter = 2; provider = 3; set_user_array = 4 }

abbrev server : Server
server = filter_server ids

-- The factory is got, an unlock is refused, and a lock is taken.
abbrev used : ModuleState
used = record {
  slots = some (record { class = factory; references = 1 }) ∷ [];
  objects = 1;
  locks = 1;
}

used-Reach : Reach server used 1
unfolding get_class_object make query knows is_among iids_of construct release_at release_reference
    add_reference lock_guarded unlock_loop unlocked empty_module
used-Reach =
    locked [] (omega arith) (refused [] refl (got_class true true clsid_sovereign_filter 1 loaded))

can_unload_iff_example : (can_unload used ≡ s_ok) ↔ ((live used.slots ≡ 0) × (◌≡◌ {A = ℕ} 1 0))
can_unload_iff_example = can_unload_iff server used 1 used-Reach (omega arith)

in_use : can_unload used ≡ s_false
unfolding can_unload
in_use = refl

-- An unlock, a lock and an unlock, and a lock that is lost.
lock_unguarded-lost_example :
    ((can_unload (after_locks (true ∷ false ∷ []) empty_module) ≡ s_ok) ↔ (◌≡◌ {A = ℕ} 1 1))
    × ((can_unload (after_locks (false ∷ true ∷ false ∷ true ∷ []) empty_module) ≡ s_ok)
        ↔ (◌≡◌ {A = ℕ} 1 1))
    × (0 < standing 0 (false ∷ true ∷ false ∷ true ∷ []))
unfolding empty_module
lock_unguarded-lost_example =
    lock_unguarded-lost (true ∷ false ∷ []) empty_module refl refl (omega arith)
