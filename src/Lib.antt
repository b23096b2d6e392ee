-- ===== src/Lib.antt =====
-- wslay, a WebSocket library in C: its UTF-8 automaton, its queue, its frame layer and its event
-- layer.
--
-- src/wslay/frame.c writes and reads the frames of RFC 6455 over callbacks of the user, a piece at a
-- time. src/wslay/event.c queues messages in the queues of src/wslay/queue.h and sends them as frames;
-- control messages go first, and a close frame ends the sending. The modules:
--
--   Prelude    C comparisons, arrays with native indices, bit operations as arithmetic
--   Protocol   src/wslay/wslay.h: errors, opcodes, `struct wslay_frame_iocb`
--   Utf8       src/wslay/utf8.h and utf8.c: `decode` and its table; Utf8/Grammar is RFC 3629
--   Frame      src/wslay/frame.h and frame.c: Context (the state), Send (`wslay_frame_send`), Recv
--              (`wslay_frame_recv`), Bytes (byte order, masking), Wire (the framing of RFC 6455),
--              Unique (it can be read in one way), Exchange (both functions together). In Recv,
--              Illegal is about input that is refused, Legal, Lacking and Live about frames that
--              are not
--   Queue      src/wslay/queue.h: the cells on a heap; Linked, Refine, Ends and Runs compare them
--              with a list
--   Event      src/wslay/event.h, event.c, context.h and context.c: Context (the state and its
--              constructor), Queueing (the functions that queue messages, and those that read and
--              set fields), Send and SendLoop (`wslay_event_send`), Recv and RecvLoop
--              (`wslay_event_recv`); Closing, ClosedLoop and Calls are about a queued close
--              frame, Counts and Exact about the count of the messages, Rounds about the end of the
--              loop, Status about the end of a close frame, Priority about the message that a round
--              takes up, Text about the check of a text that comes in, Chunks about the pieces in
--              which a message is kept, Answer and Refusal about frames that violate the protocol,
--              Replies about close messages and pings, View, Pieces, Finish, Deliver, Start, Cuts,
--              Script, Inside and Messages about the message that is passed on, Kept and Receiving
--              about what the loops leave alone, Bounds about sizes and offsets of what is sent,
--              Session about calls of all the functions in any order, and Whole about the bytes
--              that messages put on the connection
--
-- A function of the frame layer takes the half of the context that it uses together with a world,
-- which is what the callbacks read and change; it returns `ok` with its results or `err` with its
-- error, and the state that it leaves in both cases. A function of the event layer returns its `int`
-- and the context. Pointers into a buffer are offsets; a byte is a number. `uint64_t` and `size_t`
-- sums keep their wrap-around. The control block's `data` is a list, of which `data_length` is the
-- length.
--
-- The callbacks are parameters. Where a theorem needs it, a callback keeps the contract that
-- wslay.h documents: IsSink (it sends a prefix of what it is given; the key callback fills in a key
-- or fails) and IsSource (it fills in at most what it is asked for, the next bytes of the
-- connection), and where it says so IsEager (it fills in at least one byte while there is one). A
-- `read_callback` is an IsReader where it fills in at most what it is asked for, which
-- `wslay_event_send` does not check. A callback that returns more than there is room for is outside
-- of the model of `wslay_recv`, which does not check it either. The callbacks that send and receive
-- for the event layer, and a `read_callback`, are given the context by the code; here they change
-- `user_data` and the field `error`, and call no other function of the library. Those that
-- `wslay_event_recv` calls are functions on the context, and in Session each of them calls
-- functions of the library and changes the data of the user.
--
-- Fuel: the masking loop of `wslay_frame_send` has as much as there is data, since every round
-- sends at least one byte. The loop of `wslay_event_send` takes a bound on its rounds, and returns
-- nothing when that is too small; a fragmented message whose source never ends keeps the loop of the
-- code going as well. So does that of `wslay_event_recv`, whose loop goes on while its input does.
--
-- Not modelled: allocation (talloc2), which is taken to succeed, while `malloc` in the queue can
-- fail; the error returns after a failed allocation in `wslay_event_queue_msg`,
-- `wslay_event_imsg_append_chunk` and their like are left out with it. In the event layer a queue is
-- the list that the module Queue shows it to implement; a chunk of a message is zero until it is
-- filled. `wslay_event_flatten_queue` copies a chunk before it compares the lengths; the model joins
-- lists, so it cannot tell whether chunks that are longer than the message would run over the buffer.
-- Resetting a message frees the queue of its chunks and keeps the pointer, as in the code: the field
-- `queue` of Imsg tells whether a queue has been used or freed after that. What C does then is not
-- modelled: the chunks of such a queue are the list that they would be in a new one.
pub mod Prelude
pub mod Utf8
pub mod Protocol
pub mod Frame
pub mod Queue
pub mod Event
