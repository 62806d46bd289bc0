-- ===== src/Lib.antt =====
-- The agent platform of this repository: cores written in Python, each a domain of pure rules with a
-- service around it. This library models the rules and, of five cores, the services on top of them,
-- and proves what they promise.
--
-- The parts and how they meet:
--   TowerCore (core/towercore) runs a fleet of agents. Its service logs typed events (Tower/Events,
--   Tower/Stream), asks the gate before each step (Tower/Gate), meters costs (Tower/Cost), looks for
--   drift in the log (Tower/Anomaly) and shows the fleet (Tower/Registry, Tower/Replay). The service
--   itself is Tower/Service, whose methods are the functions of the same names.
--   TrustCore (core/trustcore) issues, verifies and revokes signed credentials and decides from them:
--   Trust/Crypto, Trust/Credentials, Trust/Policy (domain), Trust/Store (adapters/memory.py),
--   Trust/Service and Trust/Service/Profile (application/services.py). Trust/Samples has small inputs.
--   SimCore (core/simcore) keeps the budget that purchases draw on (Sim/Ledger) and simulates before it
--   executes: one pipeline (Sim/Pipeline) runs on a fork of the trust service and the ledger (Sim/Fork)
--   or on the live ones; Sim/Service has the calls of SimService, Sim/Records what they store.
--   MemoryCore (core/memorycore) remembers facts with decaying confidence: Memory/Facts,
--   Memory/Contradiction, Memory/Forgetting, Memory/Recall (domain), Memory/Store (its
--   stores) and Memory/Service, which writes its receipts into the trust service.
--   AdaptiveCore (core/adaptivecore/domain) re-verifies the assumptions of a plan against the world
--   and damps its own reactions: Adaptive/Events, Adaptive/Plans, Adaptive/Worlds,
--   Adaptive/Checks and Adaptive/Detection (detection.py), Adaptive/Damping.
--   DecisionCore (core/decisioncore) turns weighted signals into one of five outcomes:
--   Decision/Policies, Decision/Signals, Decision/Resolve (domain), Decision/Judgement (what the
--   service makes of a proposal) and Decision/Service, which reads the authority from a fork of the
--   trust service and writes its receipts into the live one.
--   CompanyCore (core/companycore/domain) simulates a company; its events, the inbox where decisions
--   for a human wait and the fold of the events into the state are Company/Events, Company/Inbox and
--   Company/Ledger.
--
-- How the code is modelled. A method of a mutable object is a function from the object to the object
-- after it; a method that raises returns an error value. Where the code has written before it raises
-- (the services of TowerCore and SimCore), the object comes back beside the error (Prelude/Exec).
-- Payloads and worlds are dynamic values (Prelude/Values). Numbers that Python keeps as floats are
-- exact: amounts and prices in millionths, scores in thousandths, confidences in billionths; the
-- rounding of binary floats is not modelled, and a text that spells a number is read by `float` in
-- scopes of credentials only (elsewhere it raises). Wall-clock times and uuid4 identifiers are
-- arguments, and hypotheses say where an identifier is new. Code of other libraries is a parameter:
-- Ed25519, json and what `float` reads in a text (the record Crypto), the diff of deepdiff, and of
-- Python the powers of floats, the tables of characters and the regular expressions (the record
-- Python). Recursion is structural, but for the search for derived facts (Memory/Forgetting): its fuel
-- is one more than the number of facts, enough since each turn of the loop takes one doomed fact and
-- no fact is doomed twice.
--
-- Not modelled: the steps of the demonstration agents (in a history of the tower `advance` stands as
-- the events, requests for approval and drift checks that it makes), re-planning, the service of
-- AdaptiveCore, the ambient core, the rest of the company core, the demonstrations, the HTTP routes
-- and the user interface; hashes of the Python library, locks, and text made only to be read.
pub mod Prelude
pub mod Adaptive
pub mod Company
pub mod Decision
pub mod Memory
pub mod Sim
pub mod Tower
pub mod Trust
