-- ===== src/Lib.antt =====
-- wifi-chat: the browser front end of a chat over the local network (frontend/*.js), and the hub of
-- its server (internal/hub, internal/store, internal/models).
--
-- The page is one script with global variables (frontend/app.js), a manager for voice and video
-- calls (frontend/call.js), a manager for the encryption keys (frontend/crypto.js) and a formatter
-- for code in messages (frontend/codeformat.js). The server speaks to it over a WebSocket: it sends
-- messages of a `type`, which `handleMessage` of frontend/app.js takes apart; those of calls go on
-- to `callManager.handleSignal`. Both scripts send through `send` of frontend/app.js and encrypt
-- through `cryptoManager`.
--
-- Base, with Base/Tests and Base/Lists, holds the names and lemmas that all share. Js/Text has
-- JavaScript strings as lists of UTF-16 code units (`js "..."` is a literal), Js/Dict objects
-- used as dictionaries, as association lists in the order of insertion. (JavaScript lists keys
-- that are array indices first, and every object answers to the names of the properties that it
-- inherits, as `constructor`; Crypto/Manager has that for shared keys, and elsewhere rooms and
-- users are taken to have other names. The order matters only where one identifier stands in two
-- conversations, and differs only if one of those is a room whose name is a number.)
--
-- Call models frontend/call.js. Call/State has the object `callManager` as a record, with the
-- document elements that it writes, the browser resources in use (streams, connections,
-- intervals) by number, and the async functions that wait. Call/Handlers has the methods up to
-- their first `await`, under the source's names (`onCallRequest` is `on_call_request`),
-- Call/Sealing `sendEncrypted` and `decryptSignal`, and Call/Tasks `resume`, which runs a
-- waiting function to its next `await`. Call/Machine makes events of all that may happen, in any
-- order: a run is a list of events, each with the keys that are at hand. The elements of the
-- page are taken to be there, as they are when the server has greeted it. Continuations that
-- follow one another with nothing to wait for between them are one step. What is proved stands
-- in Call/Invariant, Call/Secrecy, Call/Handshake, Call/Endings and Call/Races.
--
-- Chat models frontend/app.js. Chat/State has the global variables, what the page shows of them
-- and what has left the page, as one record; Chat/Store the message store and its rendering,
-- Chat/Views the navigation and the read receipts, Chat/Messages `handleMessage`, Chat/Commands
-- and Chat/Submit the slash commands and the message form, Chat/Disappearing and Chat/Connection
-- the timer and the socket, and Chat/Session the page as a machine. The asynchronous parts of
-- `handleMessage` are taken at the moment at which their decryption ends, where all that they
-- read of the state is read. Chat/Lists has what the side lists and the header show, with
-- Chat/Avatars; Chat/Images adds the picture that waits to be sent and its upload, before and
-- after the answer of the server. Chat/Start has the start of the page, login, logout and the
-- form that creates a room, and Chat/Element what `appendMessage` makes of a message, with the
-- formatter's HTML. Chat/Overlays, with Chat/Emoji, has the emoji picker, the lightbox, the
-- dialog for a room and the sidebar, apart from the rest of the page. Time, identifiers, the
-- answer to `confirm`, the case of letters, and the encryption are arguments. What is proved
-- stands in Chat/Rendering, Chat/History, Chat/Receipts, Chat/Statuses, Chat/Expiry,
-- Chat/Reconnecting, Chat/Keys, Chat/Wire, Chat/Presence, Chat/Badges, Chat/Uploads,
-- Chat/Saving, Chat/Rejoining and Chat/Overlays/Picking, and, on the definitions beside it, in
-- Chat/Avatars and Chat/Element.
--
-- Crypto models frontend/crypto.js. Crypto/Web has what the browser gives, as a record of
-- functions and, where a theorem needs them, records of the rules that they follow;
-- Crypto/Manager the object `cryptoManager` with what it keeps in `sessionStorage`, and its
-- methods, each of them one step but `importPeerKey`, whose two parts make imports run against
-- one another; Crypto/Life a session, with reloads of the page and the wipe. What is proved
-- stands in Crypto/Usages, Crypto/Reloading, Crypto/Pinning, Crypto/Fingerprint (which has
-- `getFingerprint` as well) and, for the calls and the page with these keys, Crypto/Clear.
--
-- Format models frontend/codeformat.js. Format/Rules has the token rules and the languages, with
-- their regular expressions as parameters, `detectLanguage`, `looksLikeCode` and the loop that
-- collects the matches; Format/Highlight the rest of `highlight`; Format/Message `formatMessage`,
-- with its own regular expressions written out. Js/Text has `String.replace` with its dollar
-- patterns, and Js/Scan global regular expressions as scanners. What is proved stands in
-- Format/Splicing, Format/Tokens, Format/Injection and Format/Safety, which rests on Format/Markup
-- (texts with given tags only), Format/Substitution, Format/Escaping, Format/Blocks,
-- Format/Placing and Format/Placeholders (what becomes of the placeholders); Format/Plain is about
-- characters that mean nothing to the passes.
--
-- Worker models frontend/sw.js: the caches as dictionaries by name and address, and the
-- listeners of `install`, `activate` and `fetch`, with the network as a function for each
-- moment. What is proved stands in Worker/Offline.
--
-- Server models the server that the pages speak to. Server/Message has
-- internal/models/message.go, Server/Store internal/store/store.go, and the others internal/hub:
-- Server/Hub the state of the hub and of its clients (by number, with the channel of each as a
-- list), and what the handlers share; Server/Joining `handleJoin`, `Register` and `Unregister`;
-- Server/Rooms the handlers of rooms and Server/Direct those of what goes from user to user;
-- Server/Running `ProcessMessage`, `InjectFromMesh` and the hub as a machine. Server/Link is
-- what either end of the socket reads in the JSON of the other. Server/Sending takes `SendJSON`
-- and `CloseSend` apart; elsewhere each handler is one step, as if it held the lock throughout;
-- sets and maps are lists, whose order means nothing; a text is cut by surrogate pairs, and
-- writes to the file succeed. Of a client's pumps there is only what they call and take, of the
-- mesh only what it is handed and hands on, with `IsRemoteUser` an argument, and it is taken to
-- be there, as internal/server always sets it. What is proved stands in Server/Membership (with
-- Passive, Handlers, Joins and Runs), Server/Posting, Server/Privacy, Server/Delivery,
-- Server/Calling, Server/Restarting, Server/Throttling, Server/Refusing and Server/Sending.
--
-- The fuels are those of the digits of a number, which is above it, and of the matches of a rule,
-- which is more than the length of the text and enough (Format/Tokens); other loops recur on lists.
-- WebRTC, the media devices, the Web Crypto functions, JSON on candidates and the socket are
-- parameters or events. The storage of the session is taken to have room, and the notifications to
-- be shown where they are allowed. Not modelled: the rest of the server, which is sockets, HTTP and
-- UDP (cmd, internal/mesh, internal/discovery, internal/server), the style, the scrolling and the
-- sounds.
mod Base
pub mod Js
pub mod Call
pub mod Chat
pub mod Crypto
pub mod Format
pub mod Worker
pub mod Server
