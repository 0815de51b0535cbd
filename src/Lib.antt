-- ===== src/Lib.antt =====
-- The AT command daemon matd: how it reads, splits and executes command lines.
--
-- A reader thread takes the bytes of the DTE one by one to the line reader (at_parser_push in
-- src/parser.c). Each command line that it returns is split into commands (at_iterate_first and
-- at_iterate_next, in the same file), and each command is looked up in the bank of registered
-- handlers and executed (at_commands_execute in src/commands.c). Handlers write texts to the DTE
-- through the modem (src/at_modem.c), and the result code of the line is printed at its end
-- (at_print_reply in src/error.c).
--
--   Prelude: names of the libraries passed on, C strings as lists of bytes, Boolean tests on
--     numbers, lemmas on lists and arrays.
--   Libc: what the sources use of the C library: the character classes and comparisons (Ctype),
--     the directives of sscanf() that occur (Scanf), decimal numbers (Format).
--   Parser: src/parser.c, `struct at_parser`, at_parser_init and at_parser_push. Editor is the
--     unbounded editor that they implement; Arrays and Refine relate the two; Stream and Lines
--     are about whole inputs.
--   Line: src/parser.c, at_iterate_first, at_iterate_next, count_digits, basic_command_length
--     and extended_command_length; a pointer with a length is the rest of the line. Bounds,
--     Split, Extended and Commands hold the lemmas.
--   Modem: src/at_modem.c, the session parameters with their setters, at_reset,
--     at_write_unlocked, at_unsolicited_blob and at_intermediate_blob. Output holds the lemmas.
--   Reply: src/error.c, at_print_reply and at_ring. Text holds the lemmas.
--   Commands: src/commands.c, the at_register functions and at_commands_execute; Search has the
--     comparators and the tree of <search.h>, Order, Forms, Key, Dispatch, Keeps and
--     Registration the lemmas.
--   Session: src/at_modem.c, process_line and at_execute_string; Order relates a line to the
--     sequence of its commands.
--   Input: src/at_modem.c, at_getchar and at_read_text, with the outcomes of read(2) as a list;
--     Text holds the lemmas.
--   Daemon: src/at_modem.c, dte_thread; Asserts is about the lines it passes on, and Sessions
--     about whole runs.
--   Clac: src/commands.c, handle_clac and print_clac; Complete shows what is listed.
--   Charset: src/charset.c; Hex is about the codec and Names about AT+CSCS.
--   Basic: src/basic.c; Sane shows what its handlers keep.
--   Dummy: plugins/dummy.c; Bounds shows the ranges of its parameters.
--   Rate: include/at_rate.h, and at_print_rate of src/error.c.
--   Interface: plugins/interface.c, on the attributes of a terminal, whose flags are in
--     Formats; Framing is about AT+ICF.
--   Phonebook: src/phonebook.c, with Requests for what the commands scan; Default shows which
--     phonebook is active at first.
--   Ofono: plugins/ofono/core.c, core.h and ofono.h, requests over D-Bus, with Values for the
--     messages, Signals for the filters and the choice of the modem, and Errors on the results.
--     Calls with Calls.Texts, Ringing, Tones and Voicecall have plugins/ofono/voicecall.c;
--     Paths, HangUp, Notify with Notify.Filters, and Tones.Sent hold their lemmas. Network with
--     Network.Tables, Operators, what they read in Operators.Replies, and Registration has
--     plugins/ofono/network.c; Codes and Subscribed hold the lemmas. Power has
--     plugins/ofono/modem.c, Settings callsettings.c, Forwarding callforwarding.c, Sim with
--     Sim.Pins and its Tables sim.c, Ussd with Ussd.Text ss.c, Gprs gprs.c, Technologies
--     cnti.c, Sms sms.c and Meters callmeter.c, each with what it scans in Forms; Sms.Pdu is
--     about AT+CMGS, Gprs.Location is about AT+CGREG and Selected is about the choice of the
--     modem.
--   Connection: src/at_modem.c, at_connect_mtu and at_connect; Relay shows what is passed on,
--     Buffers the bounds, and Escape when the data mode ends and when data is lost.
--   Startup: src/commands.c, at_commands_init and at_commands_deinit; Restart is about the one
--     after the other.
--   Loader: src/plugins.c; Balance is about the count of references.
--   Clock: plugins/clock.c; Again is about a time that is read and set.
--   Events: plugins/uinput.c in Device (the devices), Keypad (AT+CKPD, AT+CMEC) and Touchscreen
--     (AT+CTSA, AT+CSS), plugins/input.c in Reports and its Lines (AT+CMER), and
--     plugins/keymap.h in Keymap; Shown and Presses relate the keys of AT+CKPD and those of
--     AT+CMER.
--   Tests: runs on concrete inputs.
--
-- Arrays are lists that keep their length, size_t wraps at 2 ^ 64, and a read outside of an array
-- is a value of its own. The outcomes of write(2) are a list in the state of the modem. The type
-- of the daemon's state is a parameter of the bank, since a handler may change all of it. The
-- splitting of a line takes as fuel the number of calls, and one more than the length of the line
-- is enough; the reading of a text takes a step of fuel for each byte, and so does the loop of
-- the reader thread, and the loop of AT+VTS a step for each byte of its line. The loop of AT+CHUP
-- takes as fuel its number of turns, with no bound that is always enough. The D-Bus bus, the
-- terminal, the dynamic linker, the clock, the input devices, floating point numbers and iconv()
-- are parameters; the data mode takes a list of what poll() finds, and of what read() and write()
-- do then, in each turn of its loop; a handler works on the state of the daemon through the
-- functions that read and put its parts, and where a theorem wants it, what has been put is what
-- is read.
--
-- Not modelled: threads, cancellation and locks, since each function modelled runs with the lock
-- held or on state of its own thread; failures of malloc(); the rotations by which tsearch() may
-- balance its tree; logging; the positioning of the oFono plugin; and the other plugins (time
-- zone, backlight, shell and exec commands, hardware information), which are mostly input and
-- output.
pub mod Prelude
pub mod Libc
pub mod Parser
pub mod Line
pub mod Modem
pub mod Reply
pub mod Commands
pub mod Session
pub mod Input
pub mod Charset
pub mod Daemon
pub mod Clac
pub mod Basic
pub mod Dummy
pub mod Rate
pub mod Connection
pub mod Clock
pub mod Loader
pub mod Startup
pub mod Events
pub mod Interface
pub mod Phonebook
pub mod Ofono
pub mod Tests
