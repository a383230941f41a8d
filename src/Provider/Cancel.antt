-- ===== src/Provider/Cancel.antt =====
-- What src/provider.cpp's Credential does with a password when the tile is deselected, and how old
-- a password can be.
use sovereign_windows_auth.Base.{
  ◌≡◌, refl, ap, ◌∙◌, sym, ◌⊎◌, inl, inr, ℕ, ◌+◌, ◌^◌, ◌≤◌, ◌<◌, Bool, true, false, List, [], ◌∷◌,
  ◌++◌, Option, none, some, ltb, leb, leb→le, if◌then◌else◌, length, drop, Bool-cases,
}
use sovereign_windows_auth.Core.{Bytes}
use sovereign_windows_auth.Provider.Credential.{Credential, elapsed}
use sovereign_windows_auth.Provider.Protocol.{
  Phase, idle, waiting, canceled, proven, Event, began, ended, asked, taken, deselected, listened,
  password, run, Promise, promised, promised_run, starts, begin_phase, end_phase, ask_phase,
  offered, take_phase, deselect_phase,
}
use sovereign_windows_auth.Provider.Refinement.{run-promised_run}
use sovereign_windows_auth.Provider.Safety.{alone, passwords, no_begin}

reached : List Event → Promise → Promise
reached [] p = p
reached (e ∷ es) p = reached es (promised e p).0

drop-promised_run :
    (before after : List Event) (p : Promise)
    → drop (length before) (promised_run (before ++ after) p)
      ≡ promised_run after (reached before p)
unfolding promised_run reached
drop-promised_run [] after p = refl
drop-promised_run (e ∷ before) after p = drop-promised_run before after (promised e p).0

-- The phases without a password to come.
barren : Phase → Bool
barren idle = true
barren canceled = true
barren _ = false

deselect-barren : (ph : Phase) → barren (deselect_phase ph) ≡ true
unfolding barren
deselect-barren idle = refl
deselect-barren waiting = refl
deselect-barren canceled = refl
deselect-barren (proven b at) = refl

barren_run :
    (es : List Event) (ph : Phase) (events : Option ℕ)
    → barren ph ≡ true
    → no_begin es ≡ true
    → passwords (promised_run es (record { phase = ph; events = events })) ≡ []
unfolding promised_run promised barren
barren_run [] ph events h k = refl
barren_run (e ∷ es) waiting events h k = cc
barren_run (e ∷ es) (proven b at) events h k = cc
barren_run (began platform ∷ es) idle events h k = cc
barren_run (ended now q ∷ es) idle events h k = barren_run es idle events refl k
barren_run (asked now ∷ es) idle events h k = barren_run es idle events refl k
barren_run (taken now ∷ es) idle events h k = barren_run es idle events refl k
barren_run (deselected ∷ es) idle events h k = barren_run es idle events refl k
barren_run (listened l context ∷ es) idle events h k = barren_run es idle l refl k
barren_run (began platform ∷ es) canceled events h k = cc
barren_run (ended now q ∷ es) canceled events h k = barren_run es idle events refl k
barren_run (asked now ∷ es) canceled events h k = barren_run es canceled events refl k
barren_run (taken now ∷ es) canceled events h k = barren_run es canceled events refl k
barren_run (deselected ∷ es) canceled events h k = barren_run es canceled events refl k
barren_run (listened l context ∷ es) canceled events h k = barren_run es canceled l refl k

-- Deselecting revokes: after `SetDeselected`, and until `begin` is called again, no password is
-- handed out, whatever happened before and whenever a worker that was under way ends.
pub deselected_hands_out_nothing :
    (before after : List Event) (c : Credential)
    → c.working ≡ false
    → c.ready_password ≡ none
    → c.generation + length (before ++ (deselected ∷ after)) < 2 ^ 64
    → no_begin after ≡ true
    → passwords (drop (length before) (run (before ++ (deselected ∷ after)) (alone c))) ≡ []
unfolding promised_run promised
deselected_hands_out_nothing before after c free cleared small quiet =
    let p : Promise = record { phase = idle; events = c.provider_events } in
    rw (run-promised_run (before ++ (deselected ∷ after)) c free cleared small) (
      rw (drop-promised_run before (deselected ∷ after) p) (
        barren_run after (deselect_phase (reached before p).phase) (reached before p).events
          (deselect-barren (reached before p).phase) quiet))

-- An event is among the events.
abbrev pub IsAmong : Event → List Event → Type 0
IsAmong e [] = ⊥
IsAmong e (x ∷ es) = (x ≡ e) ⊎ IsAmong e es

module _ {b : Bytes} {at : ℕ} where
  by_begin : (s : Bool) (ph : Phase) → begin_phase s ph ≡ proven b at → ph ≡ proven b at
  by_begin true idle h = cc
  by_begin false idle h = cc
  by_begin s waiting h = cc
  by_begin s canceled h = cc
  by_begin true (proven d t) h = cc
  by_begin false (proven d t) h = cc

  by_end :
      (now : ℕ) (q : Option Bytes) (ph : Phase)
      → end_phase now q ph ≡ proven b at
      → (ph ≡ proven b at) ⊎ (ended now q ≡ ended at (some b))
  by_end now q idle h = cc
  by_end now none waiting h = cc
  by_end now (some d) waiting h = inr cc
  by_end now q canceled h = cc
  by_end now q (proven d t) h = inl h

  by_age :
      {d : Bytes} {t : ℕ} (old : Bool)
      → (if old then idle else proven d t) ≡ proven b at
      → proven d t ≡ proven b at
  by_age true h = cc
  by_age false h = h

  by_ask : (now : ℕ) (ph : Phase) → ask_phase now ph ≡ proven b at → ph ≡ proven b at
  by_ask now idle h = cc
  by_ask now waiting h = cc
  by_ask now canceled h = cc
  by_ask now (proven d t) h = by_age (ltb 30000 (elapsed now t)) h

  by_take : (ph : Phase) → take_phase ph ≡ proven b at → ph ≡ proven b at
  by_take idle h = cc
  by_take waiting h = cc
  by_take canceled h = cc
  by_take (proven d t) h = cc

  by_deselect : (ph : Phase) → deselect_phase ph ≡ proven b at → ph ≡ proven b at
  by_deselect idle h = cc
  by_deselect waiting h = cc
  by_deselect canceled h = cc
  by_deselect (proven d t) h = cc

proven_by :
    (e : Event) (p : Promise) (b : Bytes) (at : ℕ)
    → (promised e p).0.phase ≡ proven b at
    → (p.phase ≡ proven b at) ⊎ (e ≡ ended at (some b))
unfolding promised
proven_by (began platform) p b at h = inl (by_begin (starts platform p.events) p.phase h)
proven_by (ended now q) p b at h = by_end now q p.phase h
proven_by (asked now) p b at h = inl (by_ask now p.phase h)
proven_by (taken now) p b at h = inl (by_take p.phase h)
proven_by deselected p b at h = inl (by_deselect p.phase h)
proven_by (listened l context) p b at h = inl h

proven-IsAmong :
    (es : List Event) (p : Promise) (b : Bytes) (at : ℕ)
    → (reached es p).phase ≡ proven b at
    → (p.phase ≡ proven b at) ⊎ IsAmong (ended at (some b)) es
unfolding reached
proven-IsAmong [] p b at h = inl h
proven-IsAmong (e ∷ es) p b at h = elim (proven-IsAmong es (promised e p).0 b at h) [
  | inr later ↦ inr (inr later)
  | inl now ↦ elim (proven_by e p b at now) [ inl before ↦ inl before | inr this ↦ inr (inl this) ]
]

offered_fresh :
    (now : ℕ) (ph : Phase) (b : Bytes)
    → offered now ph ≡ some b
    → (at : ℕ) × (ph ≡ proven b at) × (elapsed now at ≤ 30000)
offered_fresh now idle b h = cc
offered_fresh now waiting b h = cc
offered_fresh now canceled b h = cc
offered_fresh now (proven d t) b h = elim (Bool-cases (leb (elapsed now t) 30000)) [
  | inl e ↦
      let h : some d ≡ some b = rw e at h in
      let q : d ≡ b = cc in (t, ap (λ x. proven x t) q, leb→le _ _ e)
  | inr e ↦ let h : none ≡ some b = rw e at h in cc
]

idle_proven : {b : Bytes} {at : ℕ} → idle ≡ proven b at → ⊥
idle_proven h = cc

last_offered :
    (before : List Event) (now : ℕ) (b : Bytes) (p : Promise)
    → drop (length before) (promised_run (before ++ (taken now ∷ [])) p) ≡ password (some b) ∷ []
    → offered now (reached before p).phase ≡ some b
unfolding promised_run promised
last_offered before now b p h =
    let e : password (offered now (reached before p).phase) ∷ [] ≡ password (some b) ∷ [] =
      sym (drop-promised_run before (taken now ∷ []) p) ∙ h in
    cc

-- A password is fresh: the password `b` that `GetSerialization` takes at the time `now` is one
-- that a worker ended with before, at a time at most 30000 milliseconds ago, whatever operations
-- a new credential went through before, while the generation does not wrap around.
pub taken-is_fresh :
    (before : List Event) (now : ℕ) (b : Bytes) (c : Credential)
    → c.working ≡ false
    → c.ready_password ≡ none
    → c.generation + length (before ++ (taken now ∷ [])) < 2 ^ 64
    → drop (length before) (run (before ++ (taken now ∷ [])) (alone c)) ≡ password (some b) ∷ []
    → (at : ℕ) × IsAmong (ended at (some b)) before × (elapsed now at ≤ 30000)
taken-is_fresh before now b c free cleared small h =
    let p : Promise = record { phase = idle; events = c.provider_events } in
    let last = last_offered before now b p (
      sym (
        ap (drop (length before))
          (run-promised_run (before ++ (taken now ∷ [])) c free cleared small))
      ∙ h) in
    let (at, e, fresh) = offered_fresh now (reached before p).phase b last in
    elim (proven-IsAmong before p b at e) [
      | inl impossible ↦ absurd (idle_proven impossible)
      | inr among ↦ (at, among, fresh)
    ]
