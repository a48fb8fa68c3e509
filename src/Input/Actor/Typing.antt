-- ===== src/Input/Actor/Typing.antt =====
-- Which keys type characters is settled when a keymap is loaded: src/input/actor.rs and
-- src/input/keyboard.rs keep it otherwise.
use Prim.Native.String.{String}
use hypr_rdp.Base.{
  ℕ, ◌≡◌, refl, true, false, some, List, ◌∷◌, arith, inl, inr, Option-cases, Bool-cases, ◌∙◌, sym,
}
use hypr_rdp.Input.Keymap.{xt_to_evdev}
use hypr_rdp.Input.Keyboard.{
  KeyboardStateTracker, UnicodeKeyMapping, SynchronizeFlags, layout_index_by_name, set_locked_group,
  synchronize_locks,
}
use hypr_rdp.Input.Depressed.{press_unicode_shift, release_unicode_shift, press, release}
use hypr_rdp.Input.Actor.{
  left_shift_key, is_modifier, KeyboardEvent, pressed, released, synchronize, unicode_pressed,
  unicode_released, InputCommand, keyboard, mouse, release_held, apply_keymap, set_locked_layout,
  set_initial_layout, key_call, Env, Actor, emit, announce_flush, release_held_keys, press_key,
  release_key, press_unicode, hold_unicode_shift, drop_unicode_shift, release_unicode,
  synchronize_keys, handle_rdp_event, handle_own_layout_event, lock_group, switch_keymap,
  handle_command, pick_initial_layout,
}
use hypr_rdp.Input.Actor.Calls.{drive_key-unicode, release_depressed-unicode}

-- Characters are typed by keys that are not modifiers. `IsTyping` asks it of every keymap.
abbrev pub Maps : {S : Type 0} → KeyboardStateTracker S → Type 0
Maps tracker =
    (cp : ℕ) (m : UnicodeKeyMapping)
    → tracker.unicode_to_keycode cp ≡ some m
    → is_modifier m.evdev_key ≡ false

abbrev pub IsTyping : {S : Type 0} → Env S → Type 0
IsTyping {S} v =
    (keymap : List ℕ) (tracker : KeyboardStateTracker S)
    → v.load keymap ≡ some tracker
    → Maps tracker

-- The handlers that keep the mapping of characters, at one character.
module _ {S : Type 0} (v : Env S) (cp : ℕ) where
  abbrev Same : Actor S → Actor S → Type 0
  Same a b = b.tracker.unicode_to_keycode cp ≡ a.tracker.unicode_to_keycode cp

  press_key-unicode : (a : Actor S) (t j : ℕ) → Same a (press_key v a t j)
  unfolding press_key emit
  press_key-unicode a t j = ground (
    arith,
    drive_key-unicode v cp (record a { depressed = press a.depressed j (is_modifier j) }) t j true,
  )

  release_key-unicode : (a : Actor S) (t j : ℕ) → Same a (release_key v a t j)
  unfolding release_key emit
  release_key-unicode a t j = ground (
    arith,
    drive_key-unicode v cp (record a { depressed = release a.depressed j (is_modifier j) }) t j
        false,
  )

  synchronize_locks-unicode :
      (tracker : KeyboardStateTracker S) (flags : SynchronizeFlags)
      → (synchronize_locks v.xkb tracker flags).0.unicode_to_keycode cp
        ≡ tracker.unicode_to_keycode cp
  unfolding synchronize_locks
  synchronize_locks-unicode tracker flags = ground arith

  synchronize_keys-unicode :
      (a : Actor S) (t : ℕ) (flags : SynchronizeFlags) → Same a (synchronize_keys v a t flags)
  unfolding synchronize_keys announce_flush
  synchronize_keys-unicode a t flags =
      synchronize_locks-unicode _ flags ∙ release_depressed-unicode v cp a t

  press_unicode-unicode :
      (a : Actor S) (t c : ℕ) (m : UnicodeKeyMapping) → Same a (press_unicode v a t c m)
  unfolding press_unicode hold_unicode_shift emit
  press_unicode-unicode a t c m = ground (
    arith,
    drive_key-unicode v cp (record a { depressed = press_unicode_shift a.depressed c }) t
        left_shift_key true,
  )

  drop_unicode_shift-unicode : (a : Actor S) (t c : ℕ) → Same a (drop_unicode_shift v a t c)
  unfolding drop_unicode_shift
  drop_unicode_shift-unicode a t c = ground (
    arith,
    drive_key-unicode v cp (record a { depressed = (release_unicode_shift a.depressed c).0 }) t
        left_shift_key false,
  )

  release_unicode-unicode :
      (a : Actor S) (t c : ℕ) (m : UnicodeKeyMapping) → Same a (release_unicode v a t c m)
  unfolding release_unicode emit
  release_unicode-unicode a t c m = ground (
    arith,
    drop_unicode_shift-unicode
        (record a {
          depressed = release a.depressed m.evdev_key false;
          calls = key_call t m.evdev_key false ∷ a.calls;
        })
        t c,
  )

  lock_group-unicode : (a : Actor S) (group : ℕ) → Same a (lock_group v a group)
  unfolding lock_group set_locked_group announce_flush
  lock_group-unicode a group = ground arith

  handle_own_layout_event-unicode :
      (a : Actor S) (name : String) → Same a (handle_own_layout_event v a name)
  unfolding handle_own_layout_event announce_flush
  handle_own_layout_event-unicode a name = ground arith

  release_held_keys-unicode : (a : Actor S) (t : ℕ) → Same a (release_held_keys v a t)
  unfolding release_held_keys announce_flush
  release_held_keys-unicode a t = ground (arith, release_depressed-unicode v cp a t)

  handle_rdp_event-unicode :
      (a : Actor S) (t : ℕ) (e : KeyboardEvent) → Same a (handle_rdp_event v a t e)
  unfolding handle_rdp_event
  handle_rdp_event-unicode a t (pressed code extended) =
      elim (Option-cases (xt_to_evdev code extended)) [
        | inl e ↦ rw (e, handle_rdp_event) refl
        | inr (k, e) ↦ rw (e, handle_rdp_event) (press_key-unicode a t k)
      ]
  handle_rdp_event-unicode a t (released code extended) =
      elim (Option-cases (xt_to_evdev code extended)) [
        | inl e ↦ rw (e, handle_rdp_event) refl
        | inr (k, e) ↦ rw (e, handle_rdp_event) (release_key-unicode a t k)
      ]
  handle_rdp_event-unicode a t (synchronize flags) = synchronize_keys-unicode a t flags
  handle_rdp_event-unicode a t (unicode_pressed c) =
      elim (Option-cases (a.tracker.unicode_to_keycode c)) [
        | inl e ↦ rw (e, handle_rdp_event) refl
        | inr (m, e) ↦ rw (e, handle_rdp_event) (press_unicode-unicode a t c m)
      ]
  handle_rdp_event-unicode a t (unicode_released c) =
      elim (Option-cases (a.tracker.unicode_to_keycode c)) [
        | inl e ↦ rw (e, handle_rdp_event) refl
        | inr (m, e) ↦ rw (e, handle_rdp_event) (release_unicode-unicode a t c m)
      ]

-- The mapping is kept, or is that of a loaded keymap.
module _ {S : Type 0} (v : Env S) where
  Maps-same :
      (a b : Actor S)
      → ((cp : ℕ) → b.tracker.unicode_to_keycode cp ≡ a.tracker.unicode_to_keycode cp)
      → Maps a.tracker
      → Maps b.tracker
  Maps-same a b same h cp m e = h cp m (sym (same cp) ∙ e)

  lock_group-Maps : (a : Actor S) (group : ℕ) → Maps a.tracker → Maps (lock_group v a group).tracker
  lock_group-Maps a group h =
      Maps-same a (lock_group v a group) (λ cp. lock_group-unicode v cp a group) h

  switch_keymap-Maps :
      (a : Actor S) (t : ℕ) (keymap : List ℕ) (tracker : KeyboardStateTracker S)
      → Maps tracker
      → Maps a.tracker
      → Maps (switch_keymap v a t keymap tracker).tracker
  unfolding switch_keymap announce_flush emit
  switch_keymap-Maps a t keymap tracker new old = elim (Bool-cases (v.accepts a.calls keymap)) [
    | inl e ↦ rw (e, switch_keymap) new
    | inr e ↦ rw (e, switch_keymap) old
  ]

  pub handle_command-Maps :
      (a : Actor S) (t : ℕ) (c : InputCommand)
      → IsTyping v
      → Maps a.tracker
      → Maps (handle_command v a t c).tracker
  unfolding handle_command emit
  handle_command-Maps a t release_held typing h =
      Maps-same a (release_held_keys v a t) (λ cp. release_held_keys-unicode v cp a t) h
  handle_command-Maps a t (keyboard e) typing h =
      Maps-same a (handle_rdp_event v a t e) (λ cp. handle_rdp_event-unicode v cp a t e) h
  handle_command-Maps a t (mouse e) typing h = h
  handle_command-Maps a t (apply_keymap keymap) typing h = elim (Option-cases (v.load keymap)) [
    | inl e ↦ rw (e, handle_command) h
    | inr (tracker, e) ↦
        rw (e, handle_command) (switch_keymap-Maps a t keymap tracker (typing keymap tracker e) h)
  ]
  handle_command-Maps a t (set_locked_layout name true) typing h =
      Maps-same a (handle_own_layout_event v a name)
        (λ cp. handle_own_layout_event-unicode v cp a name) h
  handle_command-Maps a t (set_locked_layout name false) typing h =
      elim (Option-cases (layout_index_by_name a.tracker name)) [
        | inl e ↦ rw (e, handle_command) h
        | inr (group, e) ↦ rw (e, handle_command) (lock_group-Maps a group h)
      ]
  handle_command-Maps a t (set_initial_layout c) typing h =
      elim (Option-cases (pick_initial_layout (λ name. layout_index_by_name a.tracker name) c)) [
        | inl e ↦ rw (e, handle_command) h
        | inr (p, e) ↦ rw (e, handle_command) (lock_group-Maps a p.1 h)
      ]
