-- ===== src/Input/Actor/Announce.antt =====
-- The modifiers that src/input/actor.rs announces are those of its replica.
use Prim.Native.String.{String}
use hypr_rdp.Base.{
  ℕ, ◌≡◌, refl, Bool, true, false, Option, none, some, List, [], ◌∷◌, arith, inl, inr, Option-cases,
  Bool-cases, sym, ap, ◌∙◌,
}
use hypr_rdp.Input.Keymap.{xt_to_evdev}
use hypr_rdp.Input.Keyboard.{
  KeyboardModifierState, KeyboardStateTracker, UnicodeKeyMapping, same_modifiers, modifier_state,
  tracker_key, set_locked_group, apply_latched_locked, layout_index_by_name,
}
use hypr_rdp.Input.Depressed.{press, release, press_unicode_shift, release_unicode_shift}
use hypr_rdp.Input.Actor.{
  left_shift_key, is_modifier, KeyboardEvent, pressed, released, synchronize, unicode_pressed,
  unicode_released, InputCommand, keyboard, mouse, release_held, apply_keymap, set_locked_layout,
  set_initial_layout, Call, key_call, modifiers_call, keymap_call, mouse_call, flush_call,
  pump_call, Env, Actor, emit, announce, announce_flush, drive_key, release_held_keys, press_key,
  release_key, press_unicode, hold_unicode_shift, drop_unicode_shift, release_unicode,
  synchronize_keys, handle_rdp_event, handle_own_layout_event, lock_group, switch_keymap,
  handle_command, pick_initial_layout, actor_loop, start_actor, release_depressed, send_keymap,
}

-- The modifiers that the device was told last.
abbrev pub last_modifiers : List Call → Option KeyboardModifierState
last_modifiers [] = none
last_modifiers (modifiers_call m ∷ cs) = some m
last_modifiers (key_call t j down ∷ cs) = last_modifiers cs
last_modifiers (keymap_call m ∷ cs) = last_modifiers cs
last_modifiers (mouse_call t e ∷ cs) = last_modifiers cs
last_modifiers (flush_call ∷ cs) = last_modifiers cs
last_modifiers (pump_call ∷ cs) = last_modifiers cs

same_modifiers-eq : (m n : KeyboardModifierState) → same_modifiers m n ≡ true → m ≡ n
same_modifiers-eq m n h = ground arith

module _ {S : Type 0} (v : Env S) where
  abbrev pub Announced : Actor S → Type 0
  Announced a = last_modifiers a.calls ≡ some (modifier_state v.xkb a.tracker)

  announce_flush-Announced : (a : Actor S) → Announced (announce_flush v a)
  unfolding announce_flush
  announce_flush-Announced a = refl

  drive_key-Announced :
      (a : Actor S) (t k : ℕ) (down : Bool) → Announced a → Announced (drive_key v a t k down)
  unfolding drive_key tracker_key
  drive_key-Announced a t k down h =
      let u = tracker_key v.xkb a.tracker k down in
      elim (Bool-cases
        (same_modifiers (modifier_state v.xkb u.0) (modifier_state v.xkb a.tracker))) [
          | inl e ↦ rw (e, drive_key) (h ∙ ap some (sym (same_modifiers-eq _ _ e)))
          | inr e ↦ rw (e, drive_key) refl
        ]

  press_key-Announced : (a : Actor S) (t k : ℕ) → Announced a → Announced (press_key v a t k)
  unfolding press_key emit
  press_key-Announced a t k h = ground (
    arith,
    drive_key-Announced (record a { depressed = press a.depressed k (is_modifier k) }) t k true h,
  )

  release_key-Announced : (a : Actor S) (t k : ℕ) → Announced a → Announced (release_key v a t k)
  unfolding release_key emit
  release_key-Announced a t k h = ground (
    arith,
    drive_key-Announced (record a { depressed = release a.depressed k (is_modifier k) }) t k false
        h,
  )

  press_unicode-Announced :
      (a : Actor S) (t c : ℕ) (m : UnicodeKeyMapping)
      → Announced a
      → Announced (press_unicode v a t c m)
  unfolding press_unicode hold_unicode_shift emit
  press_unicode-Announced a t c m h = ground (
    arith,
    drive_key-Announced (record a { depressed = press_unicode_shift a.depressed c }) t
        left_shift_key true h,
  )

  drop_unicode_shift-Announced :
      (a : Actor S) (t c : ℕ) → Announced a → Announced (drop_unicode_shift v a t c)
  unfolding drop_unicode_shift
  drop_unicode_shift-Announced a t c h = ground (
    arith,
    drive_key-Announced (record a { depressed = (release_unicode_shift a.depressed c).0 }) t
        left_shift_key false h,
  )

  release_unicode-Announced :
      (a : Actor S) (t c : ℕ) (m : UnicodeKeyMapping)
      → Announced a
      → Announced (release_unicode v a t c m)
  unfolding release_unicode emit
  release_unicode-Announced a t c m h = ground (
    arith,
    drop_unicode_shift-Announced
        (record a {
          depressed = release a.depressed m.evdev_key false;
          calls = key_call t m.evdev_key false ∷ a.calls;
        })
        t c h,
  )

  handle_rdp_event-Announced :
      (a : Actor S) (t : ℕ) (e : KeyboardEvent) → Announced a → Announced (handle_rdp_event v a t e)
  unfolding handle_rdp_event synchronize_keys
  handle_rdp_event-Announced a t (pressed code extended) h =
      elim (Option-cases (xt_to_evdev code extended)) [
        | inl e ↦ rw (e, handle_rdp_event) h
        | inr (j, e) ↦ rw (e, handle_rdp_event) (press_key-Announced a t j h)
      ]
  handle_rdp_event-Announced a t (released code extended) h =
      elim (Option-cases (xt_to_evdev code extended)) [
        | inl e ↦ rw (e, handle_rdp_event) h
        | inr (j, e) ↦ rw (e, handle_rdp_event) (release_key-Announced a t j h)
      ]
  handle_rdp_event-Announced a t (synchronize flags) h = announce_flush-Announced _
  handle_rdp_event-Announced a t (unicode_pressed c) h =
      elim (Option-cases (a.tracker.unicode_to_keycode c)) [
        | inl e ↦ rw (e, handle_rdp_event) h
        | inr (m, e) ↦ rw (e, handle_rdp_event) (press_unicode-Announced a t c m h)
      ]
  handle_rdp_event-Announced a t (unicode_released c) h =
      elim (Option-cases (a.tracker.unicode_to_keycode c)) [
        | inl e ↦ rw (e, handle_rdp_event) h
        | inr (m, e) ↦ rw (e, handle_rdp_event) (release_unicode-Announced a t c m h)
      ]

  set_locked_group_same :
      (t : KeyboardStateTracker S) (group : ℕ)
      → (set_locked_group v.xkb t group).1 ≡ false
      → modifier_state v.xkb (set_locked_group v.xkb t group).0 ≡ modifier_state v.xkb t
  unfolding set_locked_group apply_latched_locked
  set_locked_group_same t group h = elim (Option-cases v.xkb.update_latched_locked) [
    | inl e ↦ rw (e, set_locked_group) refl
    | inr (update, e) ↦
        rw (e, set_locked_group)
          (same_modifiers-eq _ _ (ground (arith, (rw (e, set_locked_group) at h))))
  ]

  lock_group-Announced : (a : Actor S) (group : ℕ) → Announced a → Announced (lock_group v a group)
  unfolding lock_group
  lock_group-Announced a group h = elim (Bool-cases (set_locked_group v.xkb a.tracker group).1) [
    | inl e ↦ rw e (
        announce_flush-Announced
          (record a { tracker = (set_locked_group v.xkb a.tracker group).0 }))
    | inr e ↦ rw e (h ∙ ap some (sym (set_locked_group_same a.tracker group e)))
  ]

  handle_own_layout_event-Announced :
      (a : Actor S) (name : String) → Announced a → Announced (handle_own_layout_event v a name)
  unfolding handle_own_layout_event announce_flush announce emit send_keymap
  handle_own_layout_event-Announced a name h = ground arith

  release_held_keys-Announced :
      (a : Actor S) (t : ℕ) → Announced a → Announced (release_held_keys v a t)
  unfolding release_held_keys
  release_held_keys-Announced a t h =
      ground (arith, announce_flush-Announced (release_depressed v a t).0)

  switch_keymap-Announced :
      (a : Actor S) (t : ℕ) (keymap : List ℕ) (tracker : KeyboardStateTracker S)
      → Announced a
      → Announced (switch_keymap v a t keymap tracker)
  unfolding switch_keymap emit
  switch_keymap-Announced a t keymap tracker h = elim (Bool-cases (v.accepts a.calls keymap)) [
    | inl e ↦ rw (e, switch_keymap) (announce_flush-Announced _)
    | inr e ↦ rw (e, switch_keymap) h
  ]

  handle_command-Announced :
      (a : Actor S) (t : ℕ) (c : InputCommand) → Announced a → Announced (handle_command v a t c)
  unfolding handle_command emit
  handle_command-Announced a t release_held h = release_held_keys-Announced a t h
  handle_command-Announced a t (keyboard e) h = handle_rdp_event-Announced a t e h
  handle_command-Announced a t (mouse e) h = h
  handle_command-Announced a t (apply_keymap keymap) h = elim (Option-cases (v.load keymap)) [
    | inl e ↦ rw (e, handle_command) h
    | inr (tracker, e) ↦ rw (e, handle_command) (switch_keymap-Announced a t keymap tracker h)
  ]
  handle_command-Announced a t (set_locked_layout name true) h =
      handle_own_layout_event-Announced a name h
  handle_command-Announced a t (set_locked_layout name false) h =
      elim (Option-cases (layout_index_by_name a.tracker name)) [
        | inl e ↦ rw (e, handle_command) h
        | inr (group, e) ↦ rw (e, handle_command) (lock_group-Announced a group h)
      ]
  handle_command-Announced a t (set_initial_layout c) h =
      elim (Option-cases (pick_initial_layout (λ name. layout_index_by_name a.tracker name) c)) [
        | inl e ↦ rw (e, handle_command) h
        | inr (p, e) ↦ rw (e, handle_command) (lock_group-Announced a p.1 h)
      ]

  actor_loop-Announced :
      (a : Actor S) (script : List (ℕ × Option InputCommand))
      → Announced a
      → Announced (actor_loop v a script)
  unfolding actor_loop emit
  actor_loop-Announced a [] h = h
  actor_loop-Announced a ((t, none) ∷ rest) h = actor_loop-Announced (emit a pump_call) rest h
  actor_loop-Announced a ((t, some c) ∷ rest) h =
      actor_loop-Announced (emit (handle_command v a t c) pump_call) rest
        (handle_command-Announced a t c h)

  -- At every moment between two commands, the modifiers and the group that the device was told last
  -- are those of the replica.
  pub announced_modifiers :
      (tracker : KeyboardStateTracker S) (keymap : List ℕ) (script : List (ℕ × Option InputCommand))
      → let a = actor_loop v (start_actor v tracker keymap) script in
        last_modifiers a.calls ≡ some (modifier_state v.xkb a.tracker)
  unfolding start_actor
  announced_modifiers tracker keymap script =
      actor_loop-Announced _ script (announce_flush-Announced _)
