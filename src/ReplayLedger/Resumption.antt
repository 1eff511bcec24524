-- ===== src/ReplayLedger/Resumption.antt =====
-- What becomes of an execution whose process has died (src/replay_ledger.py).
use agent_delegation_network.Crypto.{Crypto}
use agent_delegation_network.ReplayLedger.Entry.{Entry}
use agent_delegation_network.ReplayLedger.Table.{Table}
