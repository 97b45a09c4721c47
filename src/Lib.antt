-- ===== src/Lib.antt =====
-- Oddio, a library for real-time audio mixing: lock-free communication between a control thread and
-- an audio thread, and signals that produce frames of samples.
--
-- Parts and files (the sources are src/*.rs of the repository):
-- * Spsc models src/spsc.rs. `Channel` is the shared ring with the receiver's own `len`. `channel`,
--   `send`, `send_from_slice`, `free`, `update`, `pop`, `release`, `index`, `drain` and `drop_shared`
--   are the functions of those names; arithmetic on indices wraps at 2^64. Spsc/Queue is the queue
--   that the channel stands for, Spsc/Threads cuts `send` and `pop` at their memory accesses.
-- * Swap models src/swap.rs, the triple buffer. Swap/Mailbox is what it stands for, Swap/Threads the
--   interleavings of its atomic accesses.
-- * Set models src/set.rs: Set/Handle is `SetHandle`, Set/Inner is `SetInner` and `Set`, Set/Sweep the
--   loop that src/mixer.rs and `walk_set` of src/spatial.rs run over a set. A message can carry an end
--   of a channel, so the channels stand in stores and an end is an index. Set/Bag is what a set
--   promises; Set/Sound is the invariant of a handle and its set, of the messages under way (Set/Chain,
--   Set/Route), the free queues (Set/Walk) and the capacities (Set/Stock, Set/Held).
-- * Mixer models src/mixer.rs; Spatial with Spatial/Ears, Spatial/Walk and Spatial/Render models
--   src/spatial.rs; both own sets, and the flags and motions that handles share with signals stand in
--   stores. Mixer/Safe, Mixer/Heard and Spatial/Perform run both from their creation on.
-- * Signal models the traits of src/signal.rs as records, `MonoToStereo`, and the functions of
--   src/lib.rs; Frame models src/frame.rs; Frames, Cycle, Ring, Stream, Fader, Adapt and Downmix model
--   the files of their names in src/; Gain models src/gain.rs and src/smooth.rs; Filters models
--   src/constant.rs, src/sine.rs, src/speed.rs, src/reinhard.rs and src/tanh.rs.
-- * Float is the arithmetic of f32 and f64 with the trait of src/math/mod.rs, a parameter of the model;
--   Backend models its implementations in src/math/std.rs and src/math/libm.rs; Vector models the
--   vectors and quaternions of src/math/mod.rs.
-- * Base holds the shared lists, tests, machine words and integers.
--
-- A signal is a function from its state to its state and the frames it leaves in the slice that it
-- was given. A panic is `none`, also that of a `debug_assert!` (in `release` of src/spsc.rs, in `write`
-- and `sample` of src/ring.rs, in the buffered half of src/spatial.rs; the one in `update` of
-- src/spsc.rs is left out) and of the overflow of an isize sum; other index arithmetic wraps. `to_int_unchecked` is `none` where it is undefined. Loops over the chunks of a slice have one round of fuel for each
-- element of the slice, and each round consumes at least one, so that they never run out; `powi` has a
-- round for each bit of its exponent; the loop over the messages of a set takes its fuel as an
-- argument, and running out of it is `none`: four rounds for each call since the creation are enough.
--
-- Bounds: a channel has at most 2^62 slots, which no allocation reaches; a set gets at most 2^58
-- calls, a scene and a mixer at most 2^58 signals; a delay ring and a stream have at most 2^24 samples,
-- the lengths that f32 represents exactly.
--
-- Not modelled: memory layout and allocation (`Shared::new`, `Frames::from_slice`), weak memory orders
-- (accesses are sequentially consistent), formatting, and the example programs. The
-- functions of the crate libm and of the standard library's floats are parameters.
pub mod Base
pub mod Spsc
pub mod Swap
pub mod Set
pub mod Float
pub mod Backend
pub mod Frame
pub mod Signal
pub mod Filters
pub mod Adapt
pub mod Gain
pub mod Downmix
pub mod Fader
pub mod Frames
pub mod Cycle
pub mod Stream
pub mod Ring
pub mod Mixer
pub mod Vector
pub mod Spatial
