-- ===== src/Input/Actor/Session.antt =====
-- Whole sessions of src/input/actor.rs: what the device sees between commands and at the end.
use hypr_rdp.Base.{
  ℕ, ◌≡◌, true, false, Option, none, some, List, [], ◌∷◌, arith, inl, inr, Option-cases, Bool-cases,
}
use hypr_rdp.Input.Keyboard.{KeyboardStateTracker}
use hypr_rdp.Input.Actor.{
  is_modifier, InputCommand, release_held, pump_call, Env, Actor, emit, announce_flush,
  handle_command, actor_loop, start_actor, run_input_actor,
}
use hypr_rdp.Input.Actor.Typing.{Maps, IsTyping, handle_command-Maps}
use hypr_rdp.Input.Actor.Held.{handle_command-At, release_held_keys-At, pump-At, start_actor-At}
use hypr_rdp.Input.Actor.Calls.{held, alternates, At}
use hypr_rdp.Input.Actor.Mirrors.{Mirrors}

-- What is kept by every command, for every key.
pub record Inv {S : Type 0} (a : Actor S) : Type 0 where
  pub keys : (k : ℕ) → At k a
  pub maps : Maps a.tracker

module _ {S : Type 0} (v : Env S) (typing : IsTyping v) where
  pub handle_command-Inv :
      (a : Actor S) (t : ℕ) (c : InputCommand) → Inv a → Inv (handle_command v a t c)
  handle_command-Inv a t c h = record {
    keys = λ k. handle_command-At v k a t c h.maps (h.keys k);
    maps = handle_command-Maps v a t c typing h.maps;
  }

  pump-Inv : (a : Actor S) → Inv a → Inv (emit a pump_call)
  unfolding emit
  pump-Inv a h = record { keys = λ k. pump-At v k a (h.keys k); maps = h.maps }

  actor_loop-Inv :
      (a : Actor S) (script : List (ℕ × Option InputCommand)) → Inv a → Inv (actor_loop v a script)
  unfolding actor_loop
  actor_loop-Inv a [] h = h
  actor_loop-Inv a ((t, none) ∷ rest) h = actor_loop-Inv (emit a pump_call) rest (pump-Inv a h)
  actor_loop-Inv a ((t, some c) ∷ rest) h =
      let b = handle_command v a t c in
      actor_loop-Inv (emit b pump_call) rest (pump-Inv b (handle_command-Inv a t c h))

  start_actor-Inv :
      (tracker : KeyboardStateTracker S) (keymap : List ℕ)
      → v.load keymap ≡ some tracker
      → Inv (start_actor v tracker keymap)
  unfolding start_actor announce_flush
  start_actor-Inv tracker keymap e = record {
    keys = λ k. start_actor-At v k tracker keymap;
    maps = typing keymap tracker e;
  }

  -- Under the same conditions, after the command that ends a session no key is down at the device,
  -- whatever the client left held.
  pub session_end_releases :
      (tracker : KeyboardStateTracker S) (keymap : List ℕ) (script : List (ℕ × Option InputCommand))
      (t : ℕ)
      → v.load keymap ≡ some tracker
      → (k : ℕ)
      → let a = actor_loop v (start_actor v tracker keymap) script in
        held k (handle_command v a t release_held).calls ≡ false
  unfolding handle_command
  session_end_releases tracker keymap script t e k =
      (release_held_keys-At v k _ t
        ((actor_loop-Inv _ script (start_actor-Inv tracker keymap e)).keys k)).1

  -- If every keymap types characters by keys that are not modifiers: however the session goes, once
  -- the actor has stopped no key is down at the device, and the
  -- presses and releases of each modifier have taken turns.
  pub stopped_actor_holds_nothing :
      (keymap : List ℕ) (script : List (ℕ × Option InputCommand)) (t k : ℕ)
      → (held k (run_input_actor v keymap script t) ≡ false)
        × (is_modifier k ≡ true → alternates k (run_input_actor v keymap script t) ≡ true)
  unfolding run_input_actor
  stopped_actor_holds_nothing keymap script t k = elim (Option-cases (v.load keymap)) [
    | inl e ↦ rw (e, run_input_actor) (ground arith)
    | inr (tracker, e) ↦ elim (Bool-cases (v.accepts [] keymap)) [
      | inl ok ↦
          let h =
            release_held_keys-At v k _ t
              ((actor_loop-Inv _ script (start_actor-Inv tracker keymap e)).keys k) in
          rw (e, ok, run_input_actor) (h.1, h.0.turns)
      | inr no_device ↦ rw (e, no_device, run_input_actor) (ground arith)
    ]
  ]
