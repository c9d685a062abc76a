-- ===== src/Lib.antt =====
-- Verification of gsym-rs, the reader and writer of GSYM symbol files.
--
-- A GSYM file maps the addresses of a program to functions, source files and lines. A version-1 file
-- has a fixed layout behind its header, a version-2 file has a directory of sections. The writer
-- interns strings, lays the tables out and encodes a record for each function; the reader parses the
-- header, finds the function of an address in the sorted address table and runs its line table.
--
-- Which module is about which code (paths from the repository's root):
--   Error                     src/error.rs: the errors, and the crate's Result
--   Model                     src/model.rs: LineEntry, FileEntry; Range is AddressRange, Function is
--                             InlineNode, CallSite and Function, Equality their derived PartialEq
--   Endian.Order              src/endian.rs: Endian and the byte orders of integers
--   Endian.Cursor             src/endian.rs: Cursor, as a monad of reads that pass the cursor on
--   Endian.Encoder            src/endian.rs: Encoder, whose methods return the changed buffer
--   Format                    src/format/mod.rs: constants, file_table_size, align_up
--   Format.Leb                src/format/leb.rs: the LEB128 integers
--   Format.Line               src/format/line.rs: Parse is parse, decode and lookup, Range is
--                             choose_delta_range, Encode is encode_special and encode_into
--   Format.V1, Format.V2      src/format/v1.rs, src/format/v2.rs: the headers; V1.Uuid is FixedUuid,
--                             V1.Sections is Header::layout, V2.Sections is Header::write_layout,
--                             V2.Directory is parse_directory and validate_sections
--   Format.Function           src/format/function.rs: the function records; Ranges, CallSites, Inline
--                             and Decode are the decoders of that name, Encode is encode_into
--   Reader.Layout             src/reader/layout.rs: ParsedLayout and parse
--   Reader.Addresses          src/reader.rs: address and find_address_index
--   Reader.Strings            src/reader/function.rs: string_at
--   Reader.Functions          src/reader/function.rs, src/reader.rs: file_at, raw_function_at;
--                             src/reader/lookup.rs: matching_function
--   Reader.Inline             src/reader/lookup.rs: scan_inline_node
--   Reader.Lookup             src/reader/lookup.rs: lookup_with_options and what it calls
--   Reader.Owned              src/reader/owned.rs
--   Reader.Verify             src/reader.rs: verify_with, verify, decode_all_verified
--   Writer.Strings            src/writer/semantic.rs: StringTable and intern_files
--   Writer.Widths             src/writer/encode.rs: address_offset_width
--   Writer.Finalize           src/writer/finalize.rs: merge_equal_ranges, deduplicate,
--                             repair_final_range
--   Normalize                 src/normalize.rs
--   Validation                src/validation.rs
--   Builder                   src/builder.rs: GsymBuilder, its options and setters
--   Prelude, Tests            shared helpers; runs on concrete inputs
--
-- Integers are natural numbers, with the checked and saturating operations of the code written out;
-- a usize is a u64. Bytes are numbers below 256 where a theorem needs it. `Endian.Cursor.Reads`
-- states what a read returns in front of a given encoding, and `Endian.Encoder.Appends` pairs a
-- writer with the reader of what it appends: the round trips are composed of such facts.
-- `Reader.Inline.Simulates` and `Reader.Lookup.Yields` compare two readers of the same bytes.
--
-- Loops: the LEB loops are bounded by ten rounds as in the code. The line-table loop and the
-- directory loop run on the number of bytes that are left, and each round reads at least one; the
-- loops over the children of an inline node and over the records of a function run on the bytes that
-- are left as well; decode_from runs on the levels that check_merged_depth leaves. The search in the
-- address table runs on the distance of its bounds, which each round makes smaller. The scans of
-- lookups run on the bytes that are left, like the decoders, and the loop over the functions of an
-- address on the number of entries behind the first.
-- The byte order of the machine that runs the code is an argument of the functions that ask for it.
--
-- A tree that holds a list of itself (inline nodes, functions) is a pair of types in one block. The
-- hash tables of the builder and of the string table are parameters, with what their documentation
-- says of find. The scratch storage of a lookup is the list of inline frames, passed on.
--
-- Not modelled: the final ordering of functions, the encoding of whole files, transcoding, the
-- conversion from ELF and DWARF, memory maps, the cache crate and the command-line tool. The text of
-- messages and the conversion and I/O variants of the errors are left out.
pub mod Builder
pub mod Endian
pub mod Error
pub mod Format
pub mod Model
pub mod Normalize
pub mod Prelude
pub mod Reader
pub mod Tests
pub mod Validation
pub mod Writer
