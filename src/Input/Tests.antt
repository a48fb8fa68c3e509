-- ===== src/Input/Tests.antt =====
-- Runs of the keyboard actor of src/input/actor.rs with a small keyboard library.
use hypr_rdp.Base.{
  ℕ, ◌+◌, ◌≡◌, ◌<◌, refl, true, false, Option, none, some, List, [], ◌∷◌, ◌==◌, if◌then◌else◌,
  arith, ap, ◌∙◌,
}
use hypr_rdp.Input.Keymap.{xt_to_evdev}
use hypr_rdp.Input.Keymap.Inverse.{xt_to_evdev-injective}
use hypr_rdp.Input.Keyboard.{
  Xkb, KeyboardStateTracker, UnicodeKeyMapping, modifier_state, tracker_key,
}
use hypr_rdp.Input.Actor.{
  is_modifier, InputCommand, keyboard, release_held, pressed, released, unicode_pressed, Env, Actor,
  start_actor, actor_loop, run_input_actor, handle_command, emit, handle_rdp_event, release_key,
  press_key, announce_flush, drive_key, press_unicode, hold_unicode_shift,
}
use hypr_rdp.Input.Depressed.{holds_modifier, contains, press, push_new, press_unicode_shift}
use hypr_rdp.Input.Actor.Calls.{held, alternates}
use hypr_rdp.Input.Actor.Client.{Edge, all_up, key_down, shift_down, client_edges}
use hypr_rdp.Input.Actor.Typing.{IsTyping}
use hypr_rdp.Input.Actor.Announce.{last_modifiers, announced_modifiers}
use hypr_rdp.Input.Actor.Session.{session_end_releases, stopped_actor_holds_nothing}

-- A keyboard whose state counts the Shift presses.
abbrev small_xkb : Xkb ℕ
small_xkb = record {
  update_key = λ s code down. if code == 50 then (if down then s + 1 else 0) else s;
  serialize = λ s. record { depressed = s; latched = 0; locked = 0; group = 0 };
  update_latched_locked = none;
}

abbrev letters : ℕ → Option UnicodeKeyMapping
letters code_point =
    if code_point == 65 then some (record { evdev_key = 30; needs_shift = true }) else none

abbrev small_tracker : KeyboardStateTracker ℕ
small_tracker = record {
  unicode_to_keycode = letters;
  layout_names = "English" ∷ [];
  xkb_state = 0;
  caps_lock_mask = 2;
  num_lock_mask = 16;
  scroll_lock_mask = 0;
  kana_lock_mask = 0;
}

abbrev small_env : Env ℕ
small_env = record {
  xkb = small_xkb;
  load = λ keymap. some small_tracker;
  accepts = λ calls keymap. true;
}

letters_typing :
    (cp : ℕ) (m : UnicodeKeyMapping) → letters cp ≡ some m → is_modifier m.evdev_key ≡ false
unfolding is_modifier
letters_typing cp m h = ground arith

mapping_of : ℕ → Option (KeyboardStateTracker ℕ) → Option UnicodeKeyMapping
mapping_of cp none = none
mapping_of cp (some tracker) = tracker.unicode_to_keycode cp

small_env-IsTyping : IsTyping small_env
unfolding mapping_of
small_env-IsTyping keymap tracker e cp m h = letters_typing cp m (ap (mapping_of cp) e ∙ h)

-- Shift, `A` as a character, an unmapped scancode, and a second without a command.
abbrev small_script : List (ℕ × Option InputCommand)
small_script =
    (1, some (keyboard (pressed 42 false)))
    ∷ (2, some (keyboard (unicode_pressed 65)))
    ∷ (3, some (keyboard (pressed 99 false)))
    ∷ (4, none)
    ∷ (5, some (keyboard (released 42 false)))
    ∷ []

abbrev small_end : Actor ℕ
small_end = actor_loop small_env (start_actor small_env small_tracker []) small_script

-- The Shift of the character is still held, and so is its key.
still_down : (held 42 small_end.calls ≡ true) × (held 30 small_end.calls ≡ true)
unfolding actor_loop start_actor handle_command xt_to_evdev emit handle_rdp_event release_key
    is_modifier holds_modifier contains press_key announce_flush drive_key tracker_key press_unicode
    press hold_unicode_shift push_new press_unicode_shift
still_down = (refl, refl)

abbrev small_edges : List Edge
small_edges =
    client_edges small_env (start_actor small_env small_tracker []) small_script (all_up ∷ [])

-- The Shift went up as a key, and is down for the character.
shift_for_a : (key_down 42 small_edges ≡ false) × (shift_down 65 small_edges ≡ true)
unfolding client_edges start_actor handle_command xt_to_evdev emit handle_rdp_event release_key
    is_modifier holds_modifier contains press_key announce_flush drive_key tracker_key press_unicode
    press hold_unicode_shift push_new press_unicode_shift
shift_for_a = (refl, refl)

session_end_releases_example :
    held 42 (handle_command small_env small_end 6 release_held).calls ≡ false
session_end_releases_example =
    session_end_releases small_env small_env-IsTyping small_tracker [] small_script 6 refl 42

stopped_actor_holds_nothing_example :
    (held 42 (run_input_actor small_env [] small_script 6) ≡ false)
    × (is_modifier 42 ≡ true → alternates 42 (run_input_actor small_env [] small_script 6) ≡ true)
stopped_actor_holds_nothing_example =
    stopped_actor_holds_nothing small_env small_env-IsTyping [] small_script 6 42

abbrev right_ctrl : ℕ
right_ctrl = 0x1D

xt_to_evdev-injective_example : (right_ctrl ≡ right_ctrl) × (true ≡ true) × (97 < 256)
unfolding xt_to_evdev
xt_to_evdev-injective_example =
    xt_to_evdev-injective right_ctrl right_ctrl true true 97 (omega arith) (omega arith) refl refl

announced_modifiers_example :
    last_modifiers small_end.calls ≡ some (modifier_state small_xkb small_end.tracker)
announced_modifiers_example = announced_modifiers small_env small_tracker [] small_script
