-- ===== src/Lib.antt =====
-- hiemal is a C library for low-latency audio: sources, filters and sinks pass bytes through shared
-- buffers. This library models its core and proves what its parts promise.
--
-- Parts, with the files of the repository that they model:
--   Event          src/core/event_unix.c, src/core/include/intern/event.h: events that wait on a
--                  buffer, and the records that `hm_event_buffer_wake` writes to their pipes; `Event/Poll`
--                  holds the calls that wait, over what the kernel lets them see. `Buffer/Waiting` puts a
--                  poll at the other end of the pipe that the writes to a ring fill.
--   Buffer         src/core/buffer.c and its headers: `buffer_t` as a record. `Buffer` holds the
--                  counts, states, initialisers and copies; `Buffer/Io` the transfers and views;
--                  `Buffer/Descriptors` the set of descriptors that a transfer signals.
--                  `Buffer/Queue` is the abstract specification of a ring, a bounded byte queue.
--                  `Buffer/Sharing` interleaves the pieces of writes and reads by any number of
--                  threads; a piece is what a thread does between two points where others may run.
--                  `Buffer/Sharing/Atomic` says what each does to a bounded queue.
--                  A thread may stay before a piece, also before the write to a full pipe of an event.
--   IntrusiveList  the `hm_list_*` functions of src/core/common.c and the macros of
--                  src/core/include/intern/common.h, over an explicit heap of nodes. `IntrusiveList`
--                  holds the heap, commands that can fault, and insertion; `IntrusiveList/Access` the
--                  other operations; `IntrusiveList/Chain` what a well-formed list is;
--                  `IntrusiveList/Life` the macros that initialise lists and nodes, and the end of a list.
--   Array          the `hm_array_*` functions of src/core/common.c, over an area of bytes, and `u64sum` of
--                  src/core/math.c; `realloc` is a parameter with the laws that the C library states.
--   Copying        `hm_array_copy_list` and `hm_list_copy_array` of src/core/common.c, between the two.
--   Kwargs         `next_arg` and `kwargs_unpack` of src/core/common.c; a round of the loop for each unit
--                  of fuel, and one more than the keys of the format is enough.
--   Str            the tests and comparisons of src/util/str.c, on lists of character codes; `Str/Copy` copies
--                  arrays of strings, over a heap of those that are allocated.
--   Unicode        src/util/unicode.c, ASCII to UTF-16 and UTF-32.
--   Logging        src/core/logging.c, the log level, the environment variable that sets it, and the
--                  messages that pass it.
--   Format         src/core/format.c, sample formats; the floating-point arithmetic of a sample is a
--                  parameter.
--   Recording      src/core/recording.c, the list of src/protobuf/_c_wrap/hm_protobuf.cpp, and the call in
--                  `buffer_write` that records; a session is a recording with the buffers added to it.
--   Stream         src/core/stream.c, the making of streams and the loop of `hm_stream_run`, over the generated operations as
--                  parameters and a list of clock readings.
--   Alsa           src/core/alsa.c, counts of cards and devices, and the transfers; the answers of libasound are
--                  arguments.
--   Args           src/util/args.c, command lines against a table of options; a round of `parse_args`
--                  for each unit of fuel, and as many rounds as words are enough where it ends at all.
--   Dsp            src/core/dsp.c, the shifts of the 64-bit items of a buffer, and in `Dsp/Samples` the
--                  conversions between 16-bit samples and doubles, and in `Dsp/Sine` the sine source from
--                  where its keyword arguments are set, over the floating-point operations of C.
--   Io             src/core/io.c, rings filled from files and emptied into them.
--   Pulse          src/core/pulse.c, the io devices that a PulseAudio server lists, connections to them, and
--                  transfers; the server is what it answers, in order. `Pulse/Server` holds the callbacks,
--                  `Pulse/Connect` the connections, `Pulse/Transfer` the loops that move bytes,
--                  `Pulse/State` the loops that wait for a state, with the events that the main loop handles
--                  between a signal and the wake. The structure behind the pointer to the server's information
--                  is what is left there when it is read.
--   PyBuffer       src/python/hiemal/_c/src/buffer.c, the methods of the Python type over a buffer; what CPython
--                  makes of the arguments is given, and its allocator is a parameter.
--   PyObjects      src/python/hiemal/_c/src/backend.c and device.c, the lists of backends and devices as objects
--                  with reference counts.
--   Thread         src/core/thread.c and thread_unix.c, the registry of threads as a state machine.
--   Time           src/util/time.c, elapsed times.
--   Terminal       src/util/tty.c and file.c: printing in colours, and the kinds of path.
--   Device         src/core/backend.c and device.c, backends by name and their default devices.
--
-- Conventions. A C function keeps its name, less a leading underscore. Numbers are natural numbers,
-- with the wrap of `unsigned int` written out where the code can wrap. A pointer into a memory area is
-- an offset; `memcpy` beyond the end of an area stores nothing, and the theorems keep within it;
-- `_lbuf_read` has no result there. A
-- function that changes an object returns the new one. `Option` is used for calls that never return
-- (a mutex locked twice by its owner), or for the error code -1, as the function's comment says.
-- The heap of the lists maps an address to a node or to nothing, and a null pointer or a dangling one that
-- is followed is a fault. A loop that follows `next` until null has fuel for one round more than `n_items`,
-- which the rounds over a well-formed list never use up. Node addresses that `malloc` returns, and the
-- clients' functions on nodes, are arguments. Writes to descriptors and pipes are effects, listed in order.
-- In Pulse, Device and Thread `none` is a pointer that leads nowhere and is followed, memory freed twice, or a
-- call that still waits for the server. The model is of the default build for Linux with PulseAudio, without
-- protobuf, so buffers carry no recordings but in Recording.
--
-- Not modelled: the functions of src/core/alsa.c and playback.c that open and close devices, which are calls of
-- libasound; the registration of the Python types, the signatures of src/python/hiemal/_c/src/format.c and the older wrapper
-- src/python/hiemal/backend/src/_hm_pywrap.c, which are glue to CPython; the futex calls, which wait on the kernel;
-- the cosine transform of dsp.c, which is floating-point arithmetic; the wrappers of pthreads and semaphores; the
-- protobuf library, which writes a recording to its file; the code generator
-- gen_ops.py.
pub mod Alsa
pub mod Args
pub mod Array
pub mod Base
pub mod Buffer
pub mod Copying
pub mod Device
pub mod Dsp
pub mod Event
pub mod Format
pub mod IntrusiveList
pub mod Io
pub mod Kwargs
pub mod Logging
pub mod Pulse
pub mod PyBuffer
pub mod PyObjects
pub mod Recording
pub mod Str
pub mod Stream
pub mod Terminal
pub mod Thread
pub mod Time
pub mod Unicode
