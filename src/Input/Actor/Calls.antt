-- ===== src/Input/Actor/Calls.antt =====
-- What the recorded requests of src/input/actor.rs leave behind at the device, and what the steps that
-- the handlers share do to it.
use mathlib.Core.List.{reverse}
use hypr_rdp.Base.{
  ℕ, ◌+◌, ◌≤◌, ◌≡◌, refl, Bool, true, false, not, ◌&&◌, ◌||◌, List, [], ◌∷◌, ◌++◌, ◌==◌,
  if◌then◌else◌, arith,
}
use hypr_rdp.Input.Keyboard.{tracker_key}
use hypr_rdp.Input.Depressed.{
  DepressedKeys, contains, is_empty, release_all, holds_modifier, no_keys,
}
use hypr_rdp.Input.Depressed.Laws.{
  contains-append, contains-reverse, count, count-append, count-reverse, count-contains,
  contains-count,
}
use hypr_rdp.Input.Actor.{
  left_shift_key, is_modifier, Call, key_call, modifiers_call, keymap_call, mouse_call, flush_call,
  pump_call, Env, Actor, drive_key, release_one, release_keys, release_depressed,
}

-- Whether the device sees key `k` down: its latest key request decides.
abbrev pub held : ℕ → List Call → Bool
held k [] = false
held k (key_call t j down ∷ cs) = if j == k then down else held k cs
held k (modifiers_call m ∷ cs) = held k cs
held k (keymap_call m ∷ cs) = held k cs
held k (mouse_call t e ∷ cs) = held k cs
held k (flush_call ∷ cs) = held k cs
held k (pump_call ∷ cs) = held k cs

-- A request for key `k` must change whether the device sees it down.
abbrev turn : ℕ → ℕ → Bool → Bool → Bool
turn k j down was = if j == k then (if down then not was else was) else true

-- Presses and releases of `k` take turns, a press first.
abbrev pub alternates : ℕ → List Call → Bool
alternates k [] = true
alternates k (key_call t j down ∷ cs) = turn k j down (held k cs) && alternates k cs
alternates k (modifiers_call m ∷ cs) = alternates k cs
alternates k (keymap_call m ∷ cs) = alternates k cs
alternates k (mouse_call t e ∷ cs) = alternates k cs
alternates k (flush_call ∷ cs) = alternates k cs
alternates k (pump_call ∷ cs) = alternates k cs

-- Whether the lists hold key `k`, the Shift of a held character included.
abbrev pub is_down : DepressedKeys → ℕ → Bool
is_down d k =
    contains d.plain k
    || contains d.modifiers k
    || (k == left_shift_key && not (is_empty d.unicode_shift_owners))

-- What is kept at each key `k`.
pub record At {S : Type 0} (k : ℕ) (a : Actor S) : Type 0 where
  pub tracks : held k a.calls ≡ is_down a.depressed k
  pub plain_only : contains a.depressed.plain k ≡ true → is_modifier k ≡ false
  pub modifiers_only : contains a.depressed.modifiers k ≡ true → is_modifier k ≡ true
  pub once : count k a.depressed.modifiers ≤ 1
  pub turns : is_modifier k ≡ true → alternates k a.calls ≡ true

-- The mapping of characters, one of them at a time, is not touched.
module _ {S : Type 0} (v : Env S) (cp : ℕ) where
  pub drive_key-unicode :
      (a : Actor S) (t j : ℕ) (down : Bool)
      → (drive_key v a t j down).tracker.unicode_to_keycode cp ≡ a.tracker.unicode_to_keycode cp
  unfolding drive_key tracker_key
  drive_key-unicode a t j down = ground arith

  release_keys-unicode :
      (a : Actor S) (t : ℕ) (ks : List ℕ)
      → (release_keys v a t ks).tracker.unicode_to_keycode cp ≡ a.tracker.unicode_to_keycode cp
  unfolding release_keys release_one tracker_key
  release_keys-unicode a t [] = refl
  release_keys-unicode a t (j ∷ ks) = release_keys-unicode (release_one v a t j) t ks

  pub release_depressed-unicode :
      (a : Actor S) (t : ℕ)
      → (release_depressed v a t).0.tracker.unicode_to_keycode cp ≡ a.tracker.unicode_to_keycode cp
  unfolding release_depressed tracker_key
  release_depressed-unicode a t = ground (
    arith,
    release_keys-unicode (record a { depressed = (release_all a.depressed).1 }) t
        (release_all a.depressed).0,
  )

module _ {S : Type 0} (v : Env S) (k : ℕ) where
  pub drive_key_lem :
      (a : Actor S) (t j : ℕ) (down : Bool)
      → let r = drive_key v a t j down in
        (r.depressed ≡ a.depressed)
        × (held k r.calls ≡ (if j == k then down else held k a.calls))
        × (alternates k r.calls ≡ (turn k j down (held k a.calls) && alternates k a.calls))
  unfolding drive_key
  drive_key_lem a t j down = ground arith

  release_keys_lem :
      (a : Actor S) (t : ℕ) (ks : List ℕ)
      → let r = release_keys v a t ks in
        (r.depressed ≡ a.depressed)
        × (held k r.calls ≡ (if contains ks k then false else held k a.calls))
  unfolding release_keys release_one contains
  release_keys_lem a t [] = ground arith
  release_keys_lem a t (j ∷ ks) = ground (arith, release_keys_lem (release_one v a t j) t ks)

  release_keys-alternates :
      (a : Actor S) (t : ℕ) (ks : List ℕ)
      → count k ks ≤ 1
      → (contains ks k ≡ true → held k a.calls ≡ true)
      → alternates k a.calls ≡ true
      → alternates k (release_keys v a t ks).calls ≡ true
  unfolding release_keys release_one contains
  release_keys-alternates a t [] once h alt = alt
  release_keys-alternates a t (j ∷ ks) once h alt =
      release_keys-alternates (release_one v a t j) t ks (ground arith)
        (ground (arith, count-contains k ks, contains-count k ks)) (ground arith)

  -- The keys of `release_all`.
  contains-keys :
      (xs ys : List ℕ)
      → contains (reverse xs ++ reverse ys) k ≡ (if contains xs k then true else contains ys k)
  contains-keys xs ys =
      rw (contains-append (reverse xs) (reverse ys) k, contains-reverse xs k, contains-reverse ys k)

  count-keys : (xs ys : List ℕ) → count k (reverse xs ++ reverse ys) ≡ count k xs + count k ys
  count-keys xs ys =
      omega
        (arith, count-append k (reverse xs) (reverse ys), count-reverse k xs, count-reverse k ys)

  -- Afterwards nothing is held, at the device as in the lists.
  pub release_depressed-At :
      (a : Actor S) (t : ℕ)
      → At k a
      → At k (release_depressed v a t).0
        × (held k (release_depressed v a t).0.calls ≡ false)
        × ((release_depressed v a t).0.depressed ≡ no_keys)
  unfolding release_depressed holds_modifier contains
  release_depressed-At a t h =
      let (keys, rest) = release_all a.depressed in
      let b = record a { depressed = rest } in
      ground (
        arith,
        release_keys_lem b t keys,
        release_keys-alternates b t keys,
        contains-keys a.depressed.plain a.depressed.modifiers,
        count-keys a.depressed.plain a.depressed.modifiers,
        count-contains k a.depressed.plain,
        count-contains k a.depressed.modifiers,
      )
