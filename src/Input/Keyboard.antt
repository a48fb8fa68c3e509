-- ===== src/Input/Keyboard.antt =====
-- src/input/keyboard.rs: the replica of the compositor's keyboard state. libxkbcommon is a parameter:
-- its opaque `xkb_state`, the two updates, and the serialised modifiers.
use Prim.Native.Nat.{bit_and, bit_or, bit_xor}
use Prim.Native.String.{String}
use text.Mathlib.Text.{◌==◌ as str_eq}
use hypr_rdp.Base.{
  ℕ, suc, ◌+◌, Bool, true, false, not, ◌&&◌, Option, none, some, List, [], ◌∷◌, ◌==◌, if◌then◌else◌,
  is_some,
}

pub record KeyboardModifierState : Type 0 where
  pub depressed : ℕ
  pub latched : ℕ
  pub locked : ℕ
  pub group : ℕ

-- The derived `PartialEq`.
abbrev pub same_modifiers : KeyboardModifierState → KeyboardModifierState → Bool
same_modifiers a b =
    (a.depressed == b.depressed)
    && (a.latched == b.latched)
    && (a.locked == b.locked)
    && (a.group == b.group)

pub record UnicodeKeyMapping : Type 0 where
  pub evdev_key : ℕ
  pub needs_shift : Bool

-- What the program calls in libxkbcommon. `update_latched_locked` is `none` before version 1.10; its
-- arguments are the locked modifiers to affect and their values, and a layout to lock, if any.
pub record Xkb (S : Type 0) : Type 0 where
  pub update_key : S → (keycode : ℕ) → (down : Bool) → S
  pub serialize : S → KeyboardModifierState
  pub update_latched_locked :
      Option (S → (affect_locked locked : ℕ) → (affect_layout : Bool) → (layout : ℕ) → S)

abbrev pub xkb_keycode_offset : ℕ
xkb_keycode_offset = 8

abbrev pub key_capslock : ℕ
key_capslock = 58

abbrev pub key_numlock : ℕ
key_numlock = 69

abbrev pub key_scrolllock : ℕ
key_scrolllock = 70

abbrev pub key_katakanahiragana : ℕ
key_katakanahiragana = 93

-- The lock flags of the RDP `Synchronize` event.
pub record SynchronizeFlags : Type 0 where
  pub caps_lock : Bool
  pub num_lock : Bool
  pub scroll_lock : Bool
  pub kana_lock : Bool

pub record KeyboardStateTracker (S : Type 0) : Type 0 where
  pub unicode_to_keycode : ℕ → Option UnicodeKeyMapping
  pub layout_names : List String
  pub xkb_state : S
  pub caps_lock_mask : ℕ
  pub num_lock_mask : ℕ
  pub scroll_lock_mask : ℕ
  pub kana_lock_mask : ℕ

position_from : ℕ → String → List String → Option ℕ
position_from i name [] = none
position_from i name (layout ∷ rest) =
    if str_eq layout name then some i else position_from (suc i) name rest

module _ {S : Type 0} where
  pub layout_index_by_name : KeyboardStateTracker S → String → Option ℕ
  unfolding position_from
  layout_index_by_name t name = position_from 0 name t.layout_names

  unfoldable pub locked_mods_from_flags : KeyboardStateTracker S → SynchronizeFlags → ℕ
  locked_mods_from_flags t flags =
      let a = if flags.caps_lock then t.caps_lock_mask else 0 in
      let b = if flags.num_lock then bit_or a t.num_lock_mask else a in
      let c = if flags.scroll_lock then bit_or b t.scroll_lock_mask else b in
      if flags.kana_lock then bit_or c t.kana_lock_mask else c

module _ {S : Type 0} (x : Xkb S) where
  unfoldable pub modifier_state : KeyboardStateTracker S → KeyboardModifierState
  modifier_state t = x.serialize t.xkb_state

  -- The replica after the event, and whether its modifiers or group changed.
  unfoldable pub tracker_key : KeyboardStateTracker S → ℕ → Bool → KeyboardStateTracker S × Bool
  unfolding modifier_state
  tracker_key t evdev_key pressed =
      let u = record t {
        xkb_state = x.update_key t.xkb_state (evdev_key + xkb_keycode_offset) pressed;
      } in
      (u, not (same_modifiers (modifier_state u) (modifier_state t)))

  unfoldable pub supports_locked_layout : KeyboardStateTracker S → Bool
  supports_locked_layout t = is_some x.update_latched_locked

  unfoldable pub apply_latched_locked :
      KeyboardStateTracker S → ℕ → ℕ → Bool → ℕ → KeyboardStateTracker S × Bool
  unfolding modifier_state
  apply_latched_locked t affect locked affect_layout layout = elim x.update_latched_locked [
    | none ↦ (t, false)
    | some update ↦
        let u = record t { xkb_state = update t.xkb_state affect locked affect_layout layout } in
        (u, not (same_modifiers (modifier_state u) (modifier_state t)))
  ]

  unfoldable pub set_locked_group : KeyboardStateTracker S → ℕ → KeyboardStateTracker S × Bool
  unfolding apply_latched_locked
  set_locked_group t group = apply_latched_locked t 0 0 true group

  -- One round of the fallback loop: `before` and `target` are fixed for the whole loop.
  unfoldable pub toggle_lock :
      KeyboardStateTracker S → (before_locked target mask key : ℕ) → KeyboardStateTracker S
  unfolding tracker_key
  toggle_lock t before_locked target mask key =
      if mask == 0
      then t
      else if bit_and (bit_xor before_locked target) mask == 0
      then t
      else (tracker_key (tracker_key t key true).0 key false).0

  unfoldable pub synchronize_locks :
      KeyboardStateTracker S → SynchronizeFlags → KeyboardStateTracker S × Bool
  unfolding locked_mods_from_flags apply_latched_locked toggle_lock
  synchronize_locks t flags =
      let target = locked_mods_from_flags t flags in
      let affect =
        bit_or (bit_or (bit_or t.caps_lock_mask t.num_lock_mask) t.scroll_lock_mask)
          t.kana_lock_mask in
      let before = modifier_state t in
      let t1 = toggle_lock t before.locked target t.caps_lock_mask key_capslock in
      let t2 = toggle_lock t1 before.locked target t.num_lock_mask key_numlock in
      let t3 = toggle_lock t2 before.locked target t.scroll_lock_mask key_scrolllock in
      let t4 = toggle_lock t3 before.locked target t.kana_lock_mask key_katakanahiragana in
      if is_some x.update_latched_locked
      then apply_latched_locked t affect target false 0
      else (t4, not (same_modifiers (modifier_state t4) before))
