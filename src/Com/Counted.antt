-- ===== src/Com/Counted.antt =====
-- The count of the objects of a module, under its COM calls.
use sovereign_windows_auth.Base.{
  ◌≡◌, refl, sym, ap, ◌∙◌, inl, inr, ℕ, zero, suc, ◌+◌, ◌%◌, ◌^◌, Bool, true, false, List, [], ◌∷◌,
  ◌++◌, length, get_elem?, Option, none, some, ◌==◌, Bool-cases, arith,
}
use sovereign_windows_auth.Filter.Types.{Guid}
use sovereign_windows_auth.Com.{
  Class, Object, Server, ModuleState, knows, put, fresh, down, slot, add_reference,
  release_reference, query, construct, release_at, make,
}

-- The number of the objects that live.
abbrev pub live : List (Option Object) → ℕ
live [] = 0
live (none ∷ slots) = live slots
live (some o ∷ slots) = live slots + 1

live-append :
    (slots : List (Option Object)) (o : Object) → live (slots ++ (some o ∷ [])) ≡ live slots + 1
live-append [] o = refl
live-append (none ∷ slots) o = live-append slots o
live-append (some x ∷ slots) o = ap (λ n. n + 1) (live-append slots o)

live-put-some :
    (slots : List (Option Object)) (a : ℕ) (o p : Object)
    → slot (get_elem? slots a) ≡ some o
    → live (put a (some p) slots) ≡ live slots
live-put-some [] a o p h = refl
live-put-some (none ∷ slots) zero o p h = cc
live-put-some (some x ∷ slots) zero o p h = refl
live-put-some (none ∷ slots) (suc a) o p h = live-put-some slots a o p h
live-put-some (some x ∷ slots) (suc a) o p h = ap (λ n. n + 1) (live-put-some slots a o p h)

live-put-none :
    (slots : List (Option Object)) (a : ℕ) (o : Object)
    → slot (get_elem? slots a) ≡ some o
    → live (put a none slots) + 1 ≡ live slots
live-put-none [] a o h = cc
live-put-none (none ∷ slots) zero o h = cc
live-put-none (some x ∷ slots) zero o h = refl
live-put-none (none ∷ slots) (suc a) o h = live-put-none slots a o h
live-put-none (some x ∷ slots) (suc a) o h = ap (λ n. n + 1) (live-put-none slots a o h)

-- The count of the objects, modulo the width of the counter.
abbrev pub IsCounted : ModuleState → Type 0
IsCounted m = m.objects ≡ live m.slots % 2 ^ 32

module _ (a : ℕ) (o : Object) (m : ModuleState) (here : slot (get_elem? m.slots a) ≡ some o)
    (counted : IsCounted m) where
  pub add_reference-IsCounted : IsCounted (add_reference a o m)
  unfolding add_reference
  add_reference-IsCounted = counted ∙ ap (λ n. n % 2 ^ 32) (sym (live-put-some m.slots a o _ here))

  pub release_reference-IsCounted : IsCounted (release_reference a o m).1
  unfolding release_reference
  release_reference-IsCounted = elim (Bool-cases (down o.references == 0)) [
    | inl e ↦ simp e (omega (arith, counted, live-put-none m.slots a o here))
    | inr e ↦ simp e (counted ∙ ap (λ n. n % 2 ^ 32) (sym (live-put-some m.slots a o _ here)))
  ]

  pub query-IsCounted :
      (server : Server) (present : Bool) (iid : Guid) → IsCounted (query server present iid a o m).2
  unfolding query
  query-IsCounted server false iid = counted
  query-IsCounted server true iid = elim (Bool-cases (knows server o.class iid)) [
    | inl e ↦ simp e add_reference-IsCounted
    | inr e ↦ simp e counted
  ]

by_slot :
    (a : ℕ) (m : ModuleState) (found : Option Object)
    → slot (get_elem? m.slots a) ≡ found
    → IsCounted m
    → IsCounted (elim found [ none ↦ m | some o ↦ (release_reference a o m).1 ])
by_slot a m none h counted = counted
by_slot a m (some o) h counted = release_reference-IsCounted a o m h counted

pub release_at-IsCounted : (a : ℕ) (m : ModuleState) → IsCounted m → IsCounted (release_at a m)
unfolding release_at
release_at-IsCounted a m counted = by_slot a m (slot (get_elem? m.slots a)) refl counted

construct-IsCounted :
    (class : Class) (m : ModuleState) → IsCounted m → IsCounted (construct class m)
unfolding construct
construct-IsCounted class m counted = omega (arith, counted, live-append m.slots (fresh class))

get_elem?-append :
    (slots : List (Option Object)) (o : Object)
    → slot (get_elem? (slots ++ (some o ∷ [])) (length slots)) ≡ some o
get_elem?-append [] o = refl
get_elem?-append (x ∷ slots) o = get_elem?-append slots o

constructed :
    (class : Class) (m : ModuleState)
    → slot (get_elem? (construct class m).slots (length m.slots)) ≡ some (fresh class)
unfolding construct
constructed class m = get_elem?-append m.slots (fresh class)

pub make-IsCounted :
    (server : Server) (allocates : Bool) (class : Class) (iid : Guid) (m : ModuleState)
    → IsCounted m
    → IsCounted (make server allocates class iid m).2
unfolding make
make-IsCounted server false class iid m counted = counted
make-IsCounted server true class iid m counted = release_at-IsCounted (length m.slots) _ (
    query-IsCounted (length m.slots) (fresh class) (construct class m) (constructed class m)
      (construct-IsCounted class m counted) server true iid)
