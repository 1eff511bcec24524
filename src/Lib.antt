-- ===== src/Lib.antt =====
-- The delegation network: agents that delegate tasks to each other with signed messages, under a
-- policy, with a gateway's receipt, and with a ledger against replays.
--
-- The parts and how they interact. A coordinator delegates a task (`delegate_task`) if its policy
-- allows it, and signs the request. The worker (`process_delegation_request`) reads it, checks its
-- expiry and its audience, resolves the runtime mode to decide whether a gateway receipt is required,
-- verifies the signature and the receipt, asks its policy and its handlers, and asks the replay ledger
-- for an execution; it then runs the handler, reports the outcome to the ledger and signs the result.
-- The coordinator verifies the result (`verify_worker_result`) and consumes its nonce and its replay
-- key, so that a result is accepted once. Beside the network stand the scripts that verify a release of
-- the program: of a directory of proofs, against GitHub, and of the files of a published release.
--
-- The files and their code:
--   Json, Json/*              values of the wire, Python's `==`, `dict.get` and hashing on them
--   Crypto                    what the program calls: json, hashlib, hmac, datetime, Ed25519
--   ReplayLedger, /Entry, /Table, /Execution, /Consumption
--                             src/replay_ledger.py: the rows, the SQL statements, and
--                             begin_request_execution, heartbeat_request_execution,
--                             finalize_request_execution and consume_result_replay
--   ReplayLedger/Moves, /Views, /Steps, /Traces
--                             the row of one key as a state machine, and sequences of calls
--   ReplayLedger/Attempts, /Lease, /Completion, /Results, /Reopening, /Answers, /Granting,
--   /Resumption, /Integrity, /Tampering, /Seals, /SealedCalls
--                             the ledger over such sequences, its answers on a single call, and the
--                             integrity codes of its rows
--   SecretKeys, /Private      src/replay_ledger.py: derive_integrity_key, configured_integrity_key and
--                             the checks of the key file
--   RuntimeSecurity/*         src/runtime_security.py
--   Text/*                    Python's str: strip, lower, startswith, f-strings, str(n)
--   Policy/*                  src/delegation_policy.py
--   Auth/*                    src/terminal3_agent_auth_adapter.py
--   Tee/*                     src/tee_authorization.py
--   Protocol/*                src/delegation_protocol.py
--   Verifier/*                src/result_verifier.py
--   Network/*                 src/agent_delegation_network.py: the agent's state and handlers,
--                             delegate_task and process_delegation_request with all its replies;
--                             /LedgerCalls, /ExecutionCalls and /History count its calls of handlers
--   Worker/*                  adn/worker_executor.py: handle_rpc and its table of sessions
--   Audit                     src/execution_receipt.py: build_receipt and verify_receipt
--   Release/Canonical, /Files, /Schema, /Manifest, /Inputs, /Attestation, /Directory
--                             scripts/verify_release.py, schemas/adn-release-proof-v1.schema.json
--   Release/Printed, /Reader/*, /Injective
--                             canonical JSON, read back by a reader of its own
--   Release/Archive, /Remote, /Paging, /TestsRun
--                             scripts/verify_release_remote.py
--   Release/Asset/*           scripts/verify_release_asset.py
--   Release/AssetRemote       scripts/verify_release_asset_remote.py
--   Release/Validation        scripts/validate_manifest.py
--   Release/Platform          what these scripts call; Release/Guarantees/* are their theorems
--   Prelude, Prelude/*        shared names, Booleans, lists, results with exceptions, dicts
--   Tests/*                   sample data and runs of the code on it
--
-- How the code is read. A function that may raise returns a `Result`, whose error is the exception; a
-- message that interpolates a value is shortened to its fixed part, except in the release scripts,
-- where only the text of a nested exception is left out. Stateful code takes its state and
-- returns it. Times are whole microseconds in ℕ, where the program has floats of seconds; each reading
-- of a clock is an argument, so no order between the readings is assumed unless a theorem says so.
-- Numbers of the wire are naturals: negative and fractional ones are not represented. A value of the
-- wire is any JSON value wherever the code does not check its type. A Python set of texts is a list
-- with no order promised. Random tokens, nonces and ids are arguments.
-- The ledger's table is an association list with the replay key as its key; each call is one
-- transaction (BEGIN IMMEDIATE serializes them), which is rolled back where the call raises. A crash
-- between calls is a sequence without the later calls. The ids that the network writes to a row are
-- texts; another value is written as the empty text.
-- `hmac`, `hashlib`, `json`, `fromisoformat`, `bytes.fromhex` and Ed25519 are the fields of the record
-- `Crypto`, a parameter; the laws that a theorem needs of them (`IsUsable`, `ReadsBack`, `IsKeyPair`)
-- are its hypotheses, and Tests/Samples has concrete functions that meet them. Mock mode and the
-- configured DID are arguments. Handlers of the application are arbitrary functions that may raise, and
-- that may return what `json.dumps` cannot print; such a value is known by its JSON view, in which its
-- `repr` stands for what cannot be printed, and by what `json.dumps` raises on it. The print of a list
-- or a dict by `str` is an argument of delegate_task.
-- The release scripts are under a second record, `Platform`: the parser of `json`, the print of lists
-- and dicts, the Unicode tables, `posixpath.normpath` and the readers of archives, of which nothing is
-- assumed. A directory is a dict from the names to the bytes; it does not change while a script runs.
-- GitHub is a function from addresses to bodies, so the same request has the same answer within a run.
-- Loops are structural recursion, but for three. The digits of a number n have the fuel n + 1, and
-- the reader of canonical JSON has a fuel above the number of parts of the value; both are proved to
-- read back what was printed. The paging loops count pages, and end within a bound that is proved.
--
-- Not modelled: opening the database with its retries and file modes, the heartbeat thread (its
-- calls are the `meanwhile` calls of an `Environment`), logging and printing, the policy file, the
-- scan of receipts for secrets and their saving, the receipt that process_delegation_request builds
-- and drops, get_agent_status, the sample policies and patterns, and the socket loop of the worker
-- executor, which are input and output or of no effect on the rest; and the other agents of src/,
-- llm/, the gateway's contract and the demos. Of the scripts, the headers and errors of the HTTP
-- clients, the command lines, release_gate.py and check_readme_claims.py, which search texts for
-- claims, are not modelled.
pub mod Prelude
pub mod Json
pub mod Crypto
pub mod ReplayLedger
pub mod RuntimeSecurity
pub mod Text
pub mod SecretKeys
pub mod Policy
pub mod Auth
pub mod Tee
pub mod Protocol
pub mod Verifier
pub mod Network
pub mod Worker
pub mod Audit
pub mod Release
pub mod Tests
