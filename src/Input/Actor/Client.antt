-- ===== src/Input/Actor/Client.antt =====
-- What the client holds, read off the commands that reach src/input/actor.rs and off nothing that the
-- actor notes of them: the keys and characters that went down and have not come up since.
use hypr_rdp.Base.{ℕ, Bool, true, false, Option, none, some, List, [], ◌∷◌, ◌==◌, if◌then◌else◌}
use hypr_rdp.Input.Keymap.{xt_to_evdev}
use hypr_rdp.Input.Keyboard.{UnicodeKeyMapping}
use hypr_rdp.Input.Actor.{
  KeyboardEvent, pressed, released, synchronize, unicode_pressed, unicode_released, InputCommand,
  keyboard, mouse, release_held, apply_keymap, set_locked_layout, set_initial_layout, pump_call,
  Env, Actor, emit, handle_command,
}

-- A key goes down or up, the Shift of a character does, or everything comes up.
pub data Edge : Type 0 where
  key_edge : (evdev_key : ℕ) (down : Bool) → Edge
  shift_edge : (code_point : ℕ) (down : Bool) → Edge
  all_up : Edge

-- Over the edges, the latest first: whether the key went down by its scancode or for a character, and
-- whether the Shift of the character did.
abbrev pub key_down : ℕ → List Edge → Bool
key_down k [] = false
key_down k (key_edge j down ∷ es) = let rest = key_down k es in if j == k then down else rest
key_down k (shift_edge cp down ∷ es) = key_down k es
key_down k (all_up ∷ es) = false

abbrev pub shift_down : ℕ → List Edge → Bool
shift_down c [] = false
shift_down c (key_edge j down ∷ es) = shift_down c es
shift_down c (shift_edge cp down ∷ es) =
    let rest = shift_down c es in if cp == c then down else rest
shift_down c (all_up ∷ es) = false

abbrev shift_edges : Bool → ℕ → Bool → List Edge → List Edge
shift_edges true cp down es = shift_edge cp down ∷ es
shift_edges false cp down es = es

abbrev pub scancode_edges : Option ℕ → Bool → List Edge → List Edge
scancode_edges none down es = es
scancode_edges (some k) down es = key_edge k down ∷ es

abbrev pub character_edges : Option UnicodeKeyMapping → ℕ → Bool → List Edge → List Edge
character_edges none cp down es = es
character_edges (some m) cp down es =
    key_edge m.evdev_key down ∷ shift_edges m.needs_shift cp down es

-- The edges of a command, before the ones that were: what the client's keyboard says. The end of the
-- session, a synchronization and a keymap that the device takes let everything go.
module _ {S : Type 0} (v : Env S) where
  unfoldable pub event_edges : Actor S → KeyboardEvent → List Edge → List Edge
  event_edges a (pressed code extended) es = scancode_edges (xt_to_evdev code extended) true es
  event_edges a (released code extended) es = scancode_edges (xt_to_evdev code extended) false es
  event_edges a (synchronize flags) es = all_up ∷ es
  event_edges a (unicode_pressed cp) es =
      character_edges (a.tracker.unicode_to_keycode cp) cp true es
  event_edges a (unicode_released cp) es =
      character_edges (a.tracker.unicode_to_keycode cp) cp false es

  unfoldable pub command_edges : Actor S → InputCommand → List Edge → List Edge
  unfolding event_edges
  command_edges a release_held es = all_up ∷ es
  command_edges a (keyboard event) es = event_edges a event es
  command_edges a (mouse event) es = es
  command_edges a (apply_keymap keymap) es = elim (v.load keymap) [
    | none ↦ es
    | some tracker ↦ if v.accepts a.calls keymap then all_up ∷ es else es
  ]
  command_edges a (set_locked_layout name own) es = es
  command_edges a (set_initial_layout c) es = es

  unfoldable pub client_edges : Actor S → List (ℕ × Option InputCommand) → List Edge → List Edge
  unfolding command_edges
  client_edges a [] es = es
  client_edges a ((t, none) ∷ rest) es = client_edges (emit a pump_call) rest es
  client_edges a ((t, some c) ∷ rest) es =
      client_edges (emit (handle_command v a t c) pump_call) rest (command_edges a c es)
