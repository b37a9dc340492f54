-- ===== src/Lib.antt =====
-- libfixc: messages of the FIX protocol, kept as fields over a space of values, edited, read from FIX
-- text and taken apart again. The library is written in C, in the directory src of the repository.
--
-- The parts and how they interact. A message (`struct fixc_msg_s`, src/fix.h) holds four fields of its
-- own, for the tags 8, 9, 35 and 10, and one block with slots for the other fields and, behind them,
-- the bytes of their values. A field refers to its text by an offset. The editing functions of src/fix.c
-- (`fixc_add_fld_at`, `fixc_add_tag_at`, `fixc_del_fld`) ask `check_size` for room, which may move the
-- block to a larger one, its sizes chosen by `__next_2power`. The reader (`make_fixc_from_fix`) allocates
-- a block by the length of a text and cuts the text in place into tags and values. A dictionary of
-- contexts is a module that src/engdso.c loads: a table of functions. By it `fixc_fixup` gives every field
-- the context it stands in; the FIXML writer makes an element of every context, and the extraction copies a
-- context to a message of its own. The FIXML reader (src/fixml-rd.c) is called back by expat and turns the
-- attributes of elements into fields by `fixc_add_tag`, its states being the contexts of the open elements.
--
-- Files and what they model:
--   Power     `__next_2power` of src/fix.c
--   Message   src/fix.h: the structs and enums; `make_fixc_msg`
--   Storage   `check_size`, `__allocd_vspc`, `__allocd_fspc`, `fixc_msg_z`, `_optz`, `_minz`
--   Edit      `fixc_add_fld(_at)`, `fixc_add_tag(_at)`, `fixc_del_fld`, `fixc_get_tag(_data)`, `fixc_msg_cpy`
--   Number    `__strtoui16`, `__ui16tostr`, `__ui8tostr`, and C's `strtol` and `%i`
--   Version   src/fix-nsuri.h, src/fix-ver.gperf, src/fixml-nsuri.gperf, src/fixml-nsuri-rev.c
--   Parse     `fixc_parse_tag`, `_mtyp`, `_fld`, `anal`, `make_fixc_from_fix`, without zlib
--   Render    `fixc_chksum`, `fixc_render_fld`, `fixc_render_fix`, over a buffer that is a list of bytes
--   Engine    src/engdso.c: the table of functions, its husks, `fixc_open_eng`, `fixc_close_eng`, `add_myself`
--   Fixup     `fixc_fixup` and `fixc_fixup_some` of src/fixml-wr.c, `fixc_msg_needs_fixup_p` of src/fix-private.h
--   Writer    the rest of src/fixml-wr.c: states, attributes, elements, documents, and the buffer that is resized
--   Extract   `fixc_extr_ctxt` and `fixc_extr_ctxt_deep` of src/fix.c
--   Reader    src/fixml-rd.c: name spaces, states, the handlers of elements, `make_fixc_from_fixml`
--   Base      helpers on lists, options and tests that all of them share
--   Tests     the theorems at concrete messages and texts
--
-- How state and operations correspond to the code. Every operation takes a message and returns it
-- changed; `Option` is a run that may fault, where a fault is an access outside the storage that the
-- program owns, or an assertion that fails, or, where a file says so, a run that is not modelled.
-- Pointers `flds` and `pr` are the lists of what has been written there, next to the numbers of slots
-- and bytes that are allocated. Numbers are 64 bits wide where the code has `size_t`, with the
-- wrap-around written out; a union is its bytes as a number.
-- The recursion of `fixc_add_fld_at` has two levels, after which a message is a batch; the loop of
-- `anal` runs on as much fuel as there are bytes, of which every round takes one at least.
-- The writer's text is a list of bytes up to the place `p`, and its states are a list with the newest in
-- front next to the number left in the pool; `__change_ctx` runs on as much fuel as the pool has states,
-- since every round closes one, and `__childp` on 2^16, since contexts have 16 bits. `fixc_fixup` keeps
-- the stack as a list and checks every push against the memory that `chck_stk` allocates. A dictionary's
-- answers are functions; a null pointer is `none`.
-- The FIXML reader's states are 16 cells with the links as indices, and its handlers run over a list of
-- events, the calls that expat makes; what expat makes of a text is a parameter.
-- `fixc_extr_ctxt_deep` takes what stands in the slot behind the last field as an argument.
-- Bounds: the refinement theorems ask for sizes below 2^56 fields and 2^60 bytes, far beyond what a
-- machine can allocate, so that no size wraps. Allocation does not fail in the model, as the code does
-- not test it.
--
-- Not modelled: the zlib branch of the reader, a FIX text with more fields than there are slots for,
-- which the code overwrites in its own block while it reads it, the renderer of FIX text that
-- allocates its buffer, what a copy that shares its block overwrites there, the command line tools,
-- and the tables and sources that are generated from the specification. Expat, the loader libltdl and
-- the modules it loads are parameters.
pub mod Base
pub mod Power
pub mod Message
pub mod Storage
pub mod Edit
pub mod Number
pub mod Version
pub mod Parse
pub mod Render
pub mod Tests
pub mod Engine
pub mod Fixup
pub mod Writer
pub mod Extract
pub mod Reader
