-- ===== src/Lib.antt =====
-- Offline payments: the accounting backend, the point of sale, and the NFC link between the point of
-- sale and the payer's phone.
--
-- A payer's wallet reserves a part of its balance (a commitment) for payments that are confirmed
-- without a network. The terminal sends a payment request to the phone over NFC, reads a receipt and
-- the authorization back, stores an acknowledgement, and later sends this evidence to the backend,
-- which settles the payment once against the commitment.
--
-- Files, by part of the program:
-- * Prelude, Prelude/: shared names, Boolean tests, equality, lists, texts and integers. Result and
--   Exec: Python calls that may raise, and methods over mutable state, whose writes stay when they
--   raise. Table, Table/: the statements of a relational database on a list of rows, and sums.
-- * Nfc/Apdu, Nfc/Fragments: build_apdu, parse_apdu, chunk_message and assemble_chunks of
--   protocol_v2.py, require_ok of pos_desktop/nfc.py. Nfc/Reading: _read_fragmented of
--   pos_desktop/service.py, and the replies of _process in pos_desktop/simulator.py. The loop has the
--   26 rounds of the source: 4096 bytes in fragments of 160 need 26. Cutting a message has fuel for
--   as many fragments as it has bytes. Nfc/Sending: the sending loops of deliver_request and _send_ack,
--   and _accept_fragment of the simulator; what it does with a whole message is an argument.
-- * Pos/Rows, Pos/Statements, Pos/Database, Pos/Lock, Pos/Keys: the methods of PosDatabase
--   (pos_desktop/database.py), one function each, on a record of the tables. Each statement is a test
--   and a change of a row, named after its method (sync_test and sync_change for apply_sync_result).
--   Pos/Database/Candidates: the queries that list rows; its child modules say which rows they return.
--   Pos/Backend, Pos/Sync: PosSyncService (pos_desktop/sync.py); Sync/Applied and Sync/Answers follow
--   its main loop, for one candidate and for all.
-- * Server/Models, Server/Session: the tables of models.py and the transaction of a SQLAlchemy
--   session. Server/Updates, Server/Apply: _apply of sync_v3.py, its statements and its branches;
--   Apply/Review has the rows that a kept review leaves, Apply/Outcome the ends of the whole.
--   Server/Claims: _record_claim of sync_v3.py. Server/Topup: simulated_topup_v3 of api_v3.py.
--   Server/Grants, Server/Issue: issue_authorization_v3 and _repeat_authorization of api_v3.py, with
--   the sums of Server/Reserves.
--   Server/Revocation: requires_review of revocation.py. Server/Protocol: the operations of
--   protocol_v3.py and issuer_keys.py that _apply calls, as an interface, which Server/Trust fills
--   from Wire and from the inventory of issuer_trust.py.
-- * Server/Validation, Server/Evidence/: _wire, _authorize, _validate and process_evidence_v3 of
--   sync_v3.py. Evidence/Process has the handler and its exception clauses, Evidence/Final the answers
--   for a payment that is accepted or rejected, Evidence/Review the rows written before a settlement.
-- * Wire and its modules, for protocol_v3.py: one function each, with its name less a leading
--   underscore. Wire/Json: the values, the canonical text that json.dumps writes, and values that
--   differ in the order of their items (Json/Same); the digits of a number have fuel above the
--   number. Wire/Parse: _parse_json. Wire/Keys: Base64, keys, signatures. Wire/Checks: the checks
--   of one field, with the patterns as tests on characters. Wire/Kinds, Wire/Payload:
--   validate_payload. Wire/Envelope, Wire/Verify: signed envelopes and the checks of their
--   signers. Wire/Select, Wire/Manifest, Wire/Binding: the answer to SELECT, closures, receipts
--   and acknowledgements.
-- * The modules named Tests hold concrete runs and instances.
--
-- Parameters of the model: the transport (a command's reply and the device's next state), the
-- backend as the synchroniser calls it (any answer, or an exception), the text of an instant, the
-- files of the issuer, the clock as a number of seconds, and what protocol_v3.py takes from libraries
-- (Wire/Library: the grammar of JSON, Base64, SHA-256, UUIDs, dates, keys and signatures). A value
-- nested too deeply for Python's stack counts as a text that the grammar refuses.
-- An identifier, a digest and a key are texts; an envelope is a list of bytes, each a number. Amounts
-- that the database keeps from being negative are natural numbers without an upper bound; the
-- 64-bit limit of SQLite is not modelled.
--
-- Not modelled: the other HTTP handlers (api_v2.py, api_v3.py, main.py), the synchronisation of
-- version 2 (sync_v2.py), authentication (auth.py), migrations, the user interface, key files and
-- tools; waiting for a busy database; log events; the simulator's cache of responses, which
-- answers a repeated APDU of one connection with the first reply; the KeyErrors that the simulator
-- may raise on the content of a whole message, which are in the argument that says what it does
-- with one. Several processes interleave as a sequence of whole methods of PosDatabase, of which
-- nearly each is one statement or one transaction; insert_request, a SELECT and an INSERT that
-- commit apart, is taken as one action. In the handlers of Server/Topup and Server/Issue, whatever
-- other processes commit between the first reads and the write transaction is a function on the
-- database, and an argument.
pub mod Exec
pub mod Nfc
pub mod Pos
pub mod Prelude
pub mod Result
pub mod Server
pub mod Table
pub mod Wire
