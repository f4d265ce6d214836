-- ===== src/Lib.antt =====
-- BurpTUI is an intercepting HTTP and HTTPS proxy with a terminal interface. A proxy session
-- (src/proxy/Session.cpp) reads a client's requests through an HTTP parser (src/http/HttpParser.cpp,
-- over llhttp), answers some of them itself, and forwards the others to a server, whose responses it
-- passes on. A CONNECT request is handed to a MITM session (src/proxy/MitmSession.cpp), which speaks
-- TLS to both sides, or is passed through blindly. Both kinds of session put requests into the
-- intercept queue (src/proxy/InterceptManager.cpp) while interception is on; the user edits, forwards
-- or drops what waits there. Both report finished transactions through a callback.
--
-- Files, and the code they model:
--   Prelude and Prelude/*     lists, byte strings, integers and `std::stoi`, shared by all
--   Http/Message              src/http/HttpRequest, HttpResponse, HttpTransaction
--   Http/Parser               src/http/HttpParser.cpp: the callbacks, feed and take of both halves
--   Http/Parser/*             theorems: Assembly (headers), BodyLimit, Take
--   Proxy/Net                 the asio error codes that the sessions tell apart
--   Proxy/Intercept           src/proxy/InterceptManager.cpp
--   Proxy/Intercept/*         theorems: Fifo, Removal
--   Proxy/Session/State       src/proxy/Session.hpp, and close, the writes and reads of Session.cpp
--   Proxy/Session/Route       the target of a request; Replies: the proxy's own responses
--   Proxy/Session/Handlers    the read handlers; Completions: the others, and histories of events
--   Proxy/Session/*           theorems: Extends* (the effects only grow), Reports, Throws, WriteOrder
--   Proxy/Mitm/State, Handlers  src/proxy/MitmSession.cpp in the same way
--   Proxy/Mitm/*              theorems: Closing, Handshake, Editing
--   Proxy/CertCache           src/proxy/CertCache.cpp
--   Proxy/CertCache/*         theorems: Counts (occurrences of hosts), Valid, Lookup
--   Http/Raw, Http/Raw/*      ParseRawHttpRequest of src/http/HttpRequest.cpp, and its theorem
--   Util/Encoding             the hexadecimal and URL encodings of src/util/Encoding.cpp
--   Util/Encoding/RoundTrip   their round trips
--   Util/Queues, Util/Queues/Order  src/util/TsQueue.hpp, src/util/EventQueue.hpp, and their order
--   Prelude/Index             vectors: reading, writing, inserting and erasing at an index
--   Storage, Storage/Saved    src/storage/MemoryStore.cpp, and its theorem
--   Tui/Mouse, Tui/Marking    what src/tui/TextEditor.cpp and ScrollableViewer.cpp both have
--   Tui/TextEditor            src/tui/TextEditor.cpp; TextEditor/Render: its Render
--   Tui/TextEditor/*          theorems: Text, Valid, History (the cursor), Refine and Refine/* (the
--                             specification), Keys, Selection
--   Tui/Viewer                src/tui/ScrollableViewer.cpp
--   Tui/Viewer/*              theorems: Scrolled, Drawn
--   Tui/Formatter             src/tui/HttpFormatter.cpp
--   Tui/Formatter/*           theorems: Hex, Sanitize, Raw
--   Tui/Repeater              src/tui/RepeaterManager.cpp
--   Tui/Repeater/*            theorems: Target, Cleaned, and Sending with its histories
--   Util/Base64, Util/Base64/RoundTrip  Base64 of src/util/Encoding.cpp, and its round trip
--   Tui/ProxyTab              src/tui/ProxyTab.cpp; ProxyTab/Forwarded: its theorem
--   Tui/HistoryTab, Tui/HistoryTab/Labelled  src/tui/HistoryTab.cpp; its labels and its entries
--   Proxy/Certs               the calls of OpenSSL; Certs/SslInit and Certs/Generator: src/proxy/SslInit.cpp
--                             and src/proxy/CertGenerator.cpp
--   Proxy/Certs/*             theorems: Live (which objects are allocated), Lifetime and Lifetime/*;
--                             Fields (what a certificate holds), Minted and Minted/*
--   App/Args, App/Args/Options  src/main.cpp and src/app/Config.hpp, and the theorem
--   App/TuiApp                src/tui/TuiApp.cpp
--   App/Updates               the callback of src/app/App.cpp and the event loop, in steps
--   App/Updates/*             theorems: Refreshed, Counted, Shown, Settled
--   App/Server, App/Server/*  src/proxy/ProxyServer.cpp; theorems: Accepting, Deaf
--   App/Run                   src/app/App.cpp: App::run, with its theorem
--   Tui/DecoderTab, Tui/DecoderTab/Output  src/tui/DecoderTab.cpp; its theorems
--   Tui/RepeaterTab, Tui/RepeaterTab/Following  src/tui/RepeaterTab.cpp; its theorem
--   Util/Clipboard            src/util/Clipboard.cpp, with its theorems
--   Tests in most directories  the definitions run, and the theorems applied, at concrete inputs
--
-- How code and model correspond. A session is a record with the fields of the class. A handler is a
-- function from the state to the next state; what it asks of sockets, timer, resolver, callback and
-- intercept queue is appended to the field `effects`, in order. `Event` lists the completions that
-- asio may deliver, `step` calls the handler of one, and `run` of a list of them is a history, in any
-- order. Session handlers return an `Outcome`, since `std::stoi` may throw out of them. The methods
-- of the intercept manager return the callbacks they invoke; its mutex makes each locked block one
-- step, and `Call`, `step` and `run` are histories of calls from any thread.
--
-- llhttp is a parameter: a state, its two initial states, and a function from input bytes to the
-- callbacks and the error code. Nothing is assumed of it. A string is a list of byte codes. The id of
-- a transaction is the 32-bit image of an `int`, which wraps in `bump`; a port is cut to 16 bits where
-- the code casts it. All loops are structural recursion on lists, so no fuel is needed, except in
-- `digits`, which prints a number in as many rounds as the number itself, plus one, allows, and in
-- the index loops of `split_lines` and `format_hex_dump`, which take as many rounds as the text has
-- bytes; each round takes a byte at least. So does the loop that writes into the
-- clipboard pipe. The loops of
-- Base64 take as many rounds as bits wait, and three for the padding.
--
-- The components of the terminal interface are records too. A row, a column and a coordinate are
-- numbers, and subtraction stops at 0 where the code takes `std::max(0, ...)`. The focus, the box that
-- the layout gives, and what the clipboard answers are arguments. `act` and `run` in TextEditor,
-- Viewer/Scrolled and Repeater/Sending are histories of what the interface and the user do.
-- Where the code would read a request that is missing (a null pointer), the model reads an empty one.
--
-- The certificate code returns the calls of OpenSSL that it makes, in order, with the objects they are
-- given and what OpenSSL answers; the answers are arguments. `check_from` follows which objects are
-- allocated, and `press_all` what the calls write into a certificate. Of the application, `Updates` has
-- the threads that report transactions with the place where each stands in its call, and the places
-- where the interface stands in handling an event: a `Move` is one step of one of them, and `run` of
-- moves an interleaving. The proxy server is a state with the steps that start it, stop it and complete
-- what it waits for.
--
-- Not modelled: log lines; TLS, SNI and ALPN; sockets and threads beyond effects and events; what
-- OpenSSL computes; the SQLite calls; the layout and the colours of the terminal interface, which are
-- calls of FTXUI; the process that
-- runs the clipboard program.
pub mod App
pub mod Http
pub mod Prelude
pub mod Proxy
pub mod Storage
pub mod Tui
pub mod Util
