-- ===== src/Lib.antt =====
-- hypr-rdp serves a Hyprland desktop over RDP. A client connects, the graphics pipeline (src/egfx)
-- sends it encoded frames of what the capture threads (src/capture) take from the compositor,
-- fitted into the client's size (src/display), and its keyboard input (src/input) is replayed at
-- the compositor. This library models the parts of it that decide something, and proves what they
-- promise.
--
-- The parts, and the files that model them:
--   Base       helpers: Boolean tests with their laws, lists, fixed-width and signed numbers
--   Egfx       Shared is `EgfxShared` of src/egfx/shared.rs, with a function for each method, and
--              its Window the frames in flight; Factory the capability policy and the callbacks of
--              src/egfx/factory.rs, which `step` joins into one machine over the shared state;
--              OutputQueue the counter of src/egfx/output_queue.rs, as a relation over any number
--              of threads, one atomic access at a time; ClearCodec the packing of damage of
--              src/egfx/clearcodec.rs, and in Encoder its encoder's protocol; Transport the sending
--              of ClearCodec frames of src/egfx/rdpegfx.rs, Surface its surfaces and the resize,
--              and Avc its sending of encoded AVC frames, with the regions of src/egfx/avc420.rs
--              and the check of frames of src/egfx/frame.rs; Session is `EgfxFrameSession` of
--              src/egfx/rdpegfx.rs
--   Input      Keymap is src/input/keymap.rs; Keyboard the replica of src/input/keyboard.rs;
--              Depressed and Actor are src/input/actor.rs: `handle_command` takes the actor from
--              one command to the next and records the requests that it makes, `actor_loop` runs a
--              script of them; Actor.Client reads off the commands what the client holds
--   Capture    Damage is src/capture/damage.rs: regions and their merging, and in Detector the
--              comparison of frames; Pacer and Frame are the pacer and the frame processor of
--              src/capture/frame.rs, the latter for ClearCodec frames
--   Display    Geometry is src/display/geometry.rs: the fit of the source into the presentation
--   Clipboard  Text, Formats and its Mimes, Utf16 and Bitmap are src/clipboard/formats.rs;
--              Inbound.Tree is src/clipboard/inbound/tree.rs, the directory tree of the files that
--              a client offers, with its building in Entries, and Inbound.Transfer
--              src/clipboard/inbound/transfer.rs, the selections and the requests for contents:
--              `transfer_step` joins its operations
-- A method that changes its object takes the state and returns the new one. The tests of each part,
-- runs at concrete inputs, stand in its Tests, or FrameTests or InboundTests.
--
-- How they interact: the callbacks of Factory and the frames that are queued and acknowledged act
-- on the one state of Shared. Regions of Damage are what Geometry maps into the presentation. Actor
-- calls Keymap for a key's code and Keyboard for the state that it announces. Frame asks Damage
-- what changed, Shared whether a frame may go, Surface for the surface to draw on and Transport to
-- send; a selection of Transfer holds a tree of Tree, whose inodes begin past those of the trees
-- before.
--
-- Numbers: an unsigned number of the source is a natural number, with the wrap-around, saturation
-- or truncation of its type written out, also where a tile's position would leave its i32; i32 is
-- `IsI32` of an integer, and `usize` has 64 bits. A time is a number.
--
-- Loops: the loops over tiles take as fuel the width or height that is left, of which each round
-- uses up 64, and the loop that merges regions the number of regions that are left, one of which
-- each round takes away or passes. The loops that cut ClearCodec rectangles take the width or
-- height that is left. The pacer's loop takes the time that it is late, which every interval
-- shortens, and the loop over line endings the length of the text. The other loops are recursion on
-- a list or on a number of rows.
--
-- Concurrency: the actor is one thread, so a command runs to its end. The output queue is modelled
-- with every interleaving of atomic accesses. A section of the transfers under its lock is one
-- step. A call on the shared graphics state is one step: a frame sent and an acknowledgement
-- received at the same time are taken in one order or the other.
--
-- Outside: libxkbcommon is a parameter (`Xkb`), and so are the loading of keymaps, the device's
-- answer to a keymap (`Env`), the protocol server with the ClearCodec encoder (`ServerApi`), its
-- calls for surfaces (`SurfaceApi`) and for AVC frames (`VideoApi`), the event channel (`Channel`),
-- the chunked fetch of a file (`FetchApi`) and the rounding of a frame's duration. The counters of
-- transfers and inodes are 64 bits wide; what is proved of the transfers holds as long as none of
-- them has come to its end. Not modelled are the AVC encoders and video bindings, the path of AVC
-- frames through the frame processor, the capture threads, Wayland, PipeWire,
-- the clipboard's two ends and the mounting of its files, configuration, authentication and the
-- server's set-up, and logging.
pub mod Base
pub mod Egfx
pub mod Input
pub mod Capture
pub mod Display
pub mod Clipboard
