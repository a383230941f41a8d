-- ===== src/Recovery/Path/Plain.antt =====
-- Which paths the recovery tool accepts: src/recovery_usb.cpp and src/filter_recovery.cpp.
use sovereign_windows_auth.Base.{
  ℕ, ◌≤◌, ◌≡◌, ◌≢◌, refl, subst, arith, Bool, true, not, Bool-cases, inl, inr, [], ◌∷◌, ◌++◌,
  append_assoc, append-nil, zero, suc, length, take, drop, take-append-drop, get_or, Option, ◌==◌,
  eq→==, String, ok, need-ok, need-eq-ok, >>=-eq-ok, ok-injective,
}
use sovereign_windows_auth.Core.{WideString}
use sovereign_windows_auth.Recovery.Path.{
  Attributes, PathApi, backslash, is_local, full, is_plain, walk, usb_path, running_volume,
  absolute_windows_root,
}

-- The walk looked at every place where a component ends.
walk_visits :
    (attributes : WideString → Option Attributes) (directory : Bool) (message : String)
    (front rest before after : WideString)
    → walk attributes directory message front rest ≡ ok tt
    → rest ≡ before ++ (backslash ∷ after)
    → is_plain (attributes (front ++ before)) ≡ true
unfolding walk
walk_visits attributes directory message front [] [] after h e = cc
walk_visits attributes directory message front [] (b ∷ before) after h e = cc
walk_visits attributes directory message front (c ∷ rest) [] after h e =
    let here : (c == backslash) ≡ true = eq→== c backslash (cc) in
    let (plain, _) =
      need-eq-ok (is_plain (attributes front)) message
        (walk attributes directory message (front ++ (c ∷ [])) rest) (rw here at h) in
    rw append-nil plain
walk_visits attributes directory message front (c ∷ rest) (b ∷ before) after h e =
    let same : c ≡ b = cc in
    let left : rest ≡ before ++ (backslash ∷ after) = cc in
    let later : walk attributes directory message (front ++ (c ∷ [])) rest ≡ ok tt =
      elim (Bool-cases (c == backslash)) [
        | inl here ↦ (need-eq-ok (is_plain (attributes front)) message _ (rw here at h)).1
        | inr elsewhere ↦ rw elsewhere at h
      ] in
    let visited =
      walk_visits attributes directory message (front ++ (c ∷ [])) rest before after later left in
    rw (← same) (rw append_assoc at visited)

walk_ends :
    (attributes : WideString → Option Attributes) (message : String) (front rest : WideString)
    → walk attributes true message front rest ≡ ok tt
    → is_plain (attributes (front ++ rest)) ≡ true
unfolding walk
walk_ends attributes message front [] h = rw append-nil (need-ok _ message h)
walk_ends attributes message front (c ∷ rest) h =
    let later : walk attributes true message (front ++ (c ∷ [])) rest ≡ ok tt =
      elim (Bool-cases (c == backslash)) [
        | inl here ↦ (need-eq-ok (is_plain (attributes front)) message _ (rw here at h)).1
        | inr elsewhere ↦ rw elsewhere at h
      ] in
    rw append_assoc at (walk_ends attributes message (front ++ (c ∷ [])) rest later)

-- A path is cut at its third unit; a cut further right leaves those units in front.
cut_after :
    (n : ℕ) (path before after : WideString)
    → path ≡ before ++ after
    → n ≤ length before
    → (take n path ++ drop n before ≡ before) × (drop n path ≡ drop n before ++ after)
cut_after zero path before after e h = (refl, e)
cut_after (suc n) [] [] after e h = absurd (omega arith)
cut_after (suc n) (x ∷ path) [] after e h = absurd (omega arith)
cut_after (suc n) [] (b ∷ before) after e h = cc
cut_after (suc n) (x ∷ path) (b ∷ before) after e h =
    let (front, back) = cut_after n path before after (cc) (omega arith) in
    let same : x ≡ b = cc in (rw (same, front) refl, back)

-- The directories of a path: it is cut before a backslash, not within its first three units.
abbrev pub IsBelow : WideString → WideString → Type 0
IsBelow directory path =
    (3 ≤ length directory) × ((after : WideString) × (path ≡ directory ++ (backslash ∷ after)))

walk-plain :
    (attributes : WideString → Option Attributes) (directory : Bool) (message : String)
    (path above : WideString)
    → walk attributes directory message (take 3 path) (drop 3 path) ≡ ok tt
    → IsBelow above path
    → is_plain (attributes above) ≡ true
walk-plain attributes directory message path above h (long, (after, cut)) =
    let (front, back) = cut_after 3 path above (backslash ∷ after) cut long in
    let seen =
      walk_visits attributes directory message (take 3 path) (drop 3 path) (drop 3 above) after h
        back in
    rw front at seen

usb_path_inv :
    (api : PathApi) (input : WideString) (directory : Bool) {result : WideString}
    → usb_path api input directory ≡ ok result
    → (is_local input ≡ true)
      × (api.is_removable (take 3 result) ≡ true)
      × ((message : String) × (walk api.attributes directory message (take 3 result) (drop 3 result)
            ≡ ok tt))
unfolding usb_path
usb_path_inv api input directory {result} h =
    let (local, h) = need-eq-ok (is_local input) _ _ h in
    let (path, made, h) = >>=-eq-ok (full (api.full_path input) "Invalid USB path.") _ h in
    let (removable, h) = need-eq-ok (api.is_removable (take 3 path)) _ _ h in
    let message : String = "USB path is missing or traverses a reparse point." in
    let (u, walked, h) =
      >>=-eq-ok (walk api.attributes directory message (take 3 path) (drop 3 path)) _ h in
    let same : path ≡ result = ok-injective h in
    (local, rw (← same) removable, (message, rw (← same) walked))

-- A recovery credential lies on a removable drive: a path that `usbPath` returns starts with a
-- drive that Windows calls removable, and every directory on the way to it is a directory that is
-- no reparse point.
pub usb_path_plain :
    (api : PathApi) (input : WideString) (directory : Bool) (result above : WideString)
    → usb_path api input directory ≡ ok result
    → IsBelow above result
    → (api.is_removable (take 3 result) ≡ true) × (is_plain (api.attributes above) ≡ true)
usb_path_plain api input directory result above h below =
    let (local, removable, (message, walked)) = usb_path_inv api input directory h in
    (removable, walk-plain api.attributes directory message result above walked below)

-- What is accepted as the root of an offline Windows.
pub record IsOffline (api : PathApi) (root : WideString) : Type 0 where
  pub plain : is_plain (api.attributes root) ≡ true
  pub plain_above :
      (above : WideString) → IsBelow above root → is_plain (api.attributes above) ≡ true
  pub running : ℕ
  pub running_there : running_volume api.windows_directory ≡ ok running
  pub other_volume : api.to_upper (get_or root 0 0) ≢ api.to_upper running

-- The Windows that is repaired is not the one that runs: a root that `absoluteWindowsRoot` returns
-- is a directory and so is every directory above it, none of them a reparse point, and its drive
-- letter is not that of the running Windows, in upper or lower case.
pub absolute_windows_root-IsOffline :
    (api : PathApi) (input root : WideString)
    → absolute_windows_root api input ≡ ok root
    → IsOffline api root
unfolding absolute_windows_root
absolute_windows_root-IsOffline api input root h =
    let (local, h) = need-eq-ok (is_local input) _ _ h in
    let (path, made, h) =
      >>=-eq-ok (full (api.full_path input) "Invalid offline Windows path") _ h in
    let message : String = "Offline Windows path is missing or traverses a reparse point" in
    let (u, walked, h) =
      >>=-eq-ok (walk api.attributes true message (take 3 path) (drop 3 path)) _ h in
    let (running, there, h) = >>=-eq-ok (running_volume api.windows_directory) _ h in
    let (other, h) =
      need-eq-ok (not (api.to_upper (get_or path 0 0) == api.to_upper running)) _ _ h in
    let end = walk_ends api.attributes message (take 3 path) (drop 3 path) walked in
    subst (IsOffline api) (ok-injective h) (record {
      plain = subst (λ p. is_plain (api.attributes p) ≡ true) (take-append-drop 3 path) end;
      plain_above = λ above below. walk-plain api.attributes true message path above walked below;
      running = running;
      running_there = there;
      other_volume = λ e. cc (rw (eq→== _ _ e) at other);
    })
