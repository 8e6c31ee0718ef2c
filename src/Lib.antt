-- ===== src/Lib.antt =====
-- CrabOS, a small x86_64 kernel with a text desktop and a command shell (src/ of the repository).
--
-- The program's parts, and the files that model them:
--
--   Prelude: shared names, lists indexed by native numbers, code that may panic (`none` is the panic),
--   bytes and UTF-8, and texts as `core::fmt` writes them.
--
--   Shell: the command shell, src/shell.rs.
--     Shell/Line: `struct Line`, the editor of one input line. `Line.Text` is the specification: a text
--     with a cursor. Line/Refine, Line/Word and Line/Str relate the two.
--     Shell/History: `struct History`, a ring of sixteen lines. History/Ring says which entries a ring
--     holds; History/Record is about `record`, History/Browse about `previous` and `next`.
--     Shell/Arguments: `struct Arguments`, the parser of a command line. `Arguments.Words` is the
--     specification, on plain lists; Arguments/Refine, Spans, Parse and Total relate the two, and
--     Arguments/Quoted has the round trip.
--     Shell/Output: what commands do to the console, as a list of actions; Output/Kept shows that they keep
--     a console valid.
--     Shell/Commands: the table of commands and `execute`; Commands/Safe is about its panics, Commands/Echo
--     about `echo`.
--     Shell/Session: `struct Shell` with the console that `with_writer` gives it, its prompt, `redraw` and
--     `complete`. Session/Ready is the invariant between two keys; Session/Cursor, Prefix, Typing and
--     Completion are about the cursor and Tab.
--     Shell/Loop: `new`, `reset_for_resize`, `handle_key` and `input_lost`. Loop/Edits is about the keys
--     that edit, Loop/Keys about Enter, Ctrl+C, Ctrl+L and lost input, Loop/Recall about the history's
--     keys; Loop/Table has what each key promises, Loop/Handle puts the keys together, and Loop/Start is
--     about new and resized shells.
--     Shell/Tests: runs on small inputs.
--
--   Vga: the text console, src/vga_buffer.rs.
--     Vga/Console: `Position` and `Writer`, the ring of 128 lines with its cursor, view and color.
--     Console/Offset is about `Position::offset`, Console/Bounds and Cursor about single writes,
--     Console/Write about texts, Console/Redraw about `replace_input` and scrolling.
--     Vga/Tests: runs on small inputs.
--
--   Desktop: the two windows and the mouse, src/desktop.rs.
--     Desktop.antt: the state, and `layout`; Desktop/Layout: what `layout` gives, and the invariant.
--     Desktop/Mouse: `mouse_byte`. Mouse/Pointer is about movement, Mouse/Press and Mouse/Follow about
--     presses and drags, Mouse/Packet about packets, Mouse/Stream about the bytes of one.
--     Desktop/Terminals: `open_terminal`, `close_terminal` and `sync_terminal_widths`, with the consoles
--     of Vga; Terminals/Windows and Terminals/Opening are about them.
--     Desktop/Tests: runs on small inputs.
--
--   Render: the renderer of src/vga_buffer.rs over the desktop and its two consoles. Render/Cells is about
--   the loops that store cells, Render/Frames about the frame, Render/Flush about the frame cache.
--
--   Keyboard: the keyboard's task, src/task/keyboard.rs, over Desktop, Vga and Shell. Keyboard/Valid is the
--   invariant of the desktop, the shells and the consoles; Keyboard/Resize, Events and Windows show it for
--   the parts of `run_shell`'s loop, and Keyboard/Runs for any order of the loop's rounds and of the
--   interrupts of keyboard and mouse (src/interrupts.rs). Keyboard/Lost is about scancodes that found no
--   room.
--
--   Allocator: the heap allocators, src/allocator.rs and src/allocator/.
--     Allocator/Region: regions of memory and lists of regions with no byte in common.
--     Allocator/Bump: bump.rs.
--     Allocator/FreeList: linked_list.rs, the list of free regions; FreeList/Find is about the search,
--     FreeList/Sizes about `size_align`, FreeList/NoOverlap about `alloc` and `dealloc`.
--     Allocator/Blocks: fixed_size_block.rs, the global allocator, over a heap of the crate
--     linked_list_allocator that is a parameter; Blocks/Classes is about `list_index`, Blocks/Reuse about
--     `alloc`, `dealloc` and the requested bytes.
--     Allocator/Tests: runs on a small heap.
--
--   Net: the web client, src/net/web.rs.
--     Net/Web: `render`, `render_html` and `matches_block`; Web/Bytes has the searches in slices, Web/Render
--     shows that the loop ends and what it can show, Web/Script is about scripts and escaped text,
--     Web/Response about `render`.
--     Net/Url: `Url::parse`; Url/Search is about searches, Url/Parse about what a URL is and that it
--     is read back, Url/Accept about how an accepted text is read, Url/Numeral about its port.
--     Net/Tests: runs on small inputs.
--
--   Pci: the search for devices, src/pci.rs, over a configuration space that is a parameter. Pci/Find is
--   about `find` and the selector's number.
--
--   E1000: the descriptor rings of the network card's driver, src/net/e1000.rs; E1000/Receive and E1000/Send
--   are about the two directions.
--
--   Task: the executor, src/task/executor.rs, over polling as a parameter; Task/Maps has the maps and sets
--   of ids, Task/Run is about a round of `run_ready_tasks`. Task/Simple is src/task/simple_executor.rs,
--   and Simple/Rounds is about its loop.
--
--   Interrupts: the tick and the two clocks of src/interrupts.rs; Interrupts/Clock is about them.
--
--   Memory: src/memory.rs, the frame allocator and `map_mmio`, and `init_heap` of src/allocator.rs, over a
--   mapper of the crate x86_64 that is a parameter with its documented behaviour. Memory/Frames is about
--   the frames, Memory/Mapping about the mapper, Mapping/Device about `map_mmio` and Mapping/Heap about
--   `init_heap`.
--
--   System: src/system.rs, `SystemInfo::new`, `cpu_name` and `fastfetch`, over the instruction `cpuid` and
--   the bootloader's memory map as parameters; System/Facts is about `new`.
--
-- How the code is read: a `usize` is a natural number. The allocators' sums of addresses and counts
-- are written with the overflow that they can have: a panic for `+`, as in a build with overflow
-- checks, `none` for `checked_add`, and wrapping for the atomic counters; the theorems state the
-- bounds under which nothing overflows, where a release build does the same. The other numbers of that
-- type are lengths, places and indices of buffers, which the invariants bound, and the addresses of
-- Memory, which its hypotheses bound. A method on `&mut self` returns the new state, and a panic (an
-- index out of range, a failed assertion, an `expect`) is a value. The loops of `Line::delete_word`
-- run on fuel, one more than the cursor, which the proofs show to be enough. An `i16` of the desktop
-- is an integer. `x & !(align - 1)` is written `x - x % align`, since the alignment of a `Layout` is a
-- power of two; `pad_to_align` gives the next multiple of it. A node of the free list stands in the
-- region that it describes, so that the list is a list of regions; that its bytes are nobody else's is
-- what the theorems show. The loop of `render_html` runs on as much fuel as the body has bytes, and
-- each round takes a byte at least. `str::trim` is read for ASCII text, which is all that the editor
-- takes. The loop of the simple executor's `run` is on fuel, which the polls that its tasks need
-- bound. Sums and products of `u64` in the clock and in the count of memory are checked. A page or a
-- frame is its start address; a `PhysAddr` has 52 bits, and the virtual addresses of `map_mmio` and
-- `init_heap` are in the lower half, as the crate x86_64 documents. A command is the list of what it
-- prints, since it reads nothing back from the console; the readings that it prints (the version, the
-- clock, the heap's count, the PCI search, the network) are a parameter that may change with every
-- key. An interrupt of the keyboard or the mouse is a step between two rounds of the keyboard's loop;
-- one within a round is not modelled.
--
-- Not modelled: the walk of the page tables in `translate_addr_inner`, wakers and sleeping, the redraw
-- worker, the network stack above the driver, and the code that only drives hardware or calls a library
-- (boot, ports, descriptor tables, the serial port).
pub mod Prelude
pub mod Shell
pub mod Vga
pub mod Desktop
pub mod Allocator
pub mod Net
pub mod Pci
pub mod E1000
pub mod Task
pub mod Interrupts
pub mod Memory
pub mod System
pub mod Keyboard
pub mod Render
