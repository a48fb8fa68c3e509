-- ===== src/Input/Actor/Held.antt =====
-- The device holds the keys that the lists of held keys hold: src/input/actor.rs, every command.
use Prim.Native.String.{String}
use hypr_rdp.Base.{
  ℕ, ◌≡◌, refl, true, false, List, ◌∷◌, if◌then◌else◌, arith, inl, inr, Option-cases,
}
use hypr_rdp.Input.Keymap.{xt_to_evdev}
use hypr_rdp.Input.Keyboard.{
  KeyboardStateTracker, UnicodeKeyMapping, SynchronizeFlags, layout_index_by_name,
}
use hypr_rdp.Input.Depressed.{
  contains, without, nothing_held, holds_modifier, press_unicode_shift, release_unicode_shift,
  press, release,
}
use hypr_rdp.Input.Depressed.Laws.{
  contains-push_new, contains-without, is_empty-push_new, is_empty_by_length, count-push_new,
  count-without-le, length-without_empty,
}
use hypr_rdp.Input.Actor.{
  left_shift_key, is_modifier, KeyboardEvent, pressed, released, synchronize, unicode_pressed,
  unicode_released, InputCommand, keyboard, mouse, release_held, apply_keymap, set_locked_layout,
  set_initial_layout, key_call, keymap_call, pump_call, Env, Actor, emit, announce_flush,
  release_held_keys, press_key, release_key, press_unicode, hold_unicode_shift, drop_unicode_shift,
  release_unicode, synchronize_keys, handle_rdp_event, handle_own_layout_event, lock_group,
  switch_keymap, handle_command, pick_initial_layout, start_actor,
}
use hypr_rdp.Input.Actor.Typing.{Maps}
use hypr_rdp.Input.Actor.Calls.{held, At, drive_key_lem, release_depressed-At}

shift_is_modifier : is_modifier left_shift_key ≡ true
unfolding is_modifier
shift_is_modifier = refl

module _ {S : Type 0} (v : Env S) (k : ℕ) where
  press_key-At : (a : Actor S) (t j : ℕ) → At k a → At k (press_key v a t j)
  unfolding press_key press emit holds_modifier
  press_key-At a t j h = ground (
    arith,
    shift_is_modifier,
    drive_key_lem v k (record a { depressed = press a.depressed j (is_modifier j) }) t j true,
    contains-push_new a.depressed.plain j k,
    contains-push_new a.depressed.modifiers j k,
    count-push_new k j a.depressed.modifiers,
  )

  release_key-At : (a : Actor S) (t j : ℕ) → At k a → At k (release_key v a t j)
  unfolding release_key release emit holds_modifier
  release_key-At a t j h = ground (
    arith,
    shift_is_modifier,
    drive_key_lem v k (record a { depressed = release a.depressed j (is_modifier j) }) t j false,
    contains-without a.depressed.plain j k,
    contains-without a.depressed.modifiers j k,
    count-without-le k j a.depressed.modifiers,
  )

  hold_unicode_shift-At : (a : Actor S) (t cp : ℕ) → At k a → At k (hold_unicode_shift v a t cp)
  unfolding hold_unicode_shift press_unicode_shift holds_modifier
  hold_unicode_shift-At a t cp h = ground (
    arith,
    shift_is_modifier,
    drive_key_lem v k (record a { depressed = press_unicode_shift a.depressed cp }) t left_shift_key
        true,
    is_empty-push_new a.depressed.unicode_shift_owners cp,
  )

  drop_unicode_shift-At : (a : Actor S) (t cp : ℕ) → At k a → At k (drop_unicode_shift v a t cp)
  unfolding drop_unicode_shift release_unicode_shift holds_modifier
  drop_unicode_shift-At a t cp h = ground (
    arith,
    shift_is_modifier,
    drive_key_lem v k (record a { depressed = (release_unicode_shift a.depressed cp).0 }) t
        left_shift_key false,
    is_empty_by_length (without a.depressed.unicode_shift_owners cp)
        a.depressed.unicode_shift_owners,
    length-without_empty a.depressed.unicode_shift_owners cp,
  )

  press_unicode-At :
      (a : Actor S) (t cp : ℕ) (m : UnicodeKeyMapping)
      → is_modifier m.evdev_key ≡ false
      → At k a
      → At k (press_unicode v a t cp m)
  unfolding press_unicode press emit
  press_unicode-At a t cp m plain h =
      let b = if m.needs_shift then hold_unicode_shift v a t cp else a in
      ground (
        arith,
        shift_is_modifier,
        hold_unicode_shift-At a t cp h,
        contains-push_new b.depressed.plain m.evdev_key k,
      )

  abbrev let_go : Actor S → ℕ → ℕ → Actor S
  let_go a t key = record a {
    depressed = release a.depressed key false;
    calls = key_call t key false ∷ a.calls;
  }

  let_go-At : (a : Actor S) (t key : ℕ) → is_modifier key ≡ false → At k a → At k (let_go a t key)
  unfolding release
  let_go-At a t key plain h =
      ground (arith, shift_is_modifier, contains-without a.depressed.plain key k)

  release_unicode-At :
      (a : Actor S) (t cp : ℕ) (m : UnicodeKeyMapping)
      → is_modifier m.evdev_key ≡ false
      → At k a
      → At k (release_unicode v a t cp m)
  unfolding release_unicode emit
  release_unicode-At a t cp m plain h =
      let b = let_go a t m.evdev_key in
      let hb = let_go-At a t m.evdev_key plain h in ground (arith, drop_unicode_shift-At b t cp hb)

  synchronize_keys-At :
      (a : Actor S) (t : ℕ) (flags : SynchronizeFlags)
      → At k a
      → At k (synchronize_keys v a t flags)
  unfolding synchronize_keys announce_flush
  synchronize_keys-At a t flags h = ground (arith, release_depressed-At v k a t)

  pub release_held_keys-At :
      (a : Actor S) (t : ℕ)
      → At k a
      → At k (release_held_keys v a t) × (held k (release_held_keys v a t).calls ≡ false)
  unfolding release_held_keys announce_flush nothing_held contains
  release_held_keys-At a t h = ground (arith, release_depressed-At v k a t)

  handle_own_layout_event-At :
      (a : Actor S) (name : String) → At k a → At k (handle_own_layout_event v a name)
  unfolding handle_own_layout_event announce_flush emit
  handle_own_layout_event-At a name h = ground arith

  lock_group-At : (a : Actor S) (group : ℕ) → At k a → At k (lock_group v a group)
  unfolding lock_group announce_flush
  lock_group-At a group h = ground arith

  switch_keymap-At :
      (a : Actor S) (t : ℕ) (keymap : List ℕ) (tracker : KeyboardStateTracker S)
      → At k a
      → At k (switch_keymap v a t keymap tracker)
  unfolding switch_keymap announce_flush emit
  switch_keymap-At a t keymap tracker h =
      ground (arith, release_depressed-At v k (emit a (keymap_call keymap)) t)

  handle_rdp_event-At :
      (a : Actor S) (t : ℕ) (e : KeyboardEvent)
      → Maps a.tracker
      → At k a
      → At k (handle_rdp_event v a t e)
  unfolding handle_rdp_event
  handle_rdp_event-At a t (pressed code extended) maps h =
      elim (Option-cases (xt_to_evdev code extended)) [
        | inl e ↦ rw (e, handle_rdp_event) h
        | inr (j, e) ↦ rw (e, handle_rdp_event) (press_key-At a t j h)
      ]
  handle_rdp_event-At a t (released code extended) maps h =
      elim (Option-cases (xt_to_evdev code extended)) [
        | inl e ↦ rw (e, handle_rdp_event) h
        | inr (j, e) ↦ rw (e, handle_rdp_event) (release_key-At a t j h)
      ]
  handle_rdp_event-At a t (synchronize flags) maps h = synchronize_keys-At a t flags h
  handle_rdp_event-At a t (unicode_pressed c) maps h =
      elim (Option-cases (a.tracker.unicode_to_keycode c)) [
        | inl e ↦ rw (e, handle_rdp_event) h
        | inr (m, e) ↦ rw (e, handle_rdp_event) (press_unicode-At a t c m (maps c m e) h)
      ]
  handle_rdp_event-At a t (unicode_released c) maps h =
      elim (Option-cases (a.tracker.unicode_to_keycode c)) [
        | inl e ↦ rw (e, handle_rdp_event) h
        | inr (m, e) ↦ rw (e, handle_rdp_event) (release_unicode-At a t c m (maps c m e) h)
      ]

  pub handle_command-At :
      (a : Actor S) (t : ℕ) (c : InputCommand)
      → Maps a.tracker
      → At k a
      → At k (handle_command v a t c)
  unfolding handle_command emit
  handle_command-At a t release_held maps h = (release_held_keys-At a t h).0
  handle_command-At a t (keyboard e) maps h = handle_rdp_event-At a t e maps h
  handle_command-At a t (mouse e) maps h = ground arith
  handle_command-At a t (apply_keymap keymap) maps h = elim (Option-cases (v.load keymap)) [
    | inl e ↦ rw (e, handle_command) h
    | inr (tracker, e) ↦ rw (e, handle_command) (switch_keymap-At a t keymap tracker h)
  ]
  handle_command-At a t (set_locked_layout name true) maps h = handle_own_layout_event-At a name h
  handle_command-At a t (set_locked_layout name false) maps h =
      elim (Option-cases (layout_index_by_name a.tracker name)) [
        | inl e ↦ rw (e, handle_command) h
        | inr (group, e) ↦ rw (e, handle_command) (lock_group-At a group h)
      ]
  handle_command-At a t (set_initial_layout c) maps h =
      elim (Option-cases (pick_initial_layout (λ name. layout_index_by_name a.tracker name) c)) [
        | inl e ↦ rw (e, handle_command) h
        | inr (p, e) ↦ rw (e, handle_command) (lock_group-At a p.1 h)
      ]

  pub pump-At : (a : Actor S) → At k a → At k (emit a pump_call)
  unfolding emit
  pump-At a h = ground arith

  pub start_actor-At :
      (tracker : KeyboardStateTracker S) (keymap : List ℕ) → At k (start_actor v tracker keymap)
  unfolding start_actor announce_flush emit contains
  start_actor-At tracker keymap = ground arith
