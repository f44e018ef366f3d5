-- ===== src/Lib.antt =====
-- STPD hub: the operational core of the STS2 training project (the Python package stpd).
--
-- The program and its parts. Devices upload recorded game runs to a hub; the hub verifies them, lets
-- invited members administer the project, and runs feature and training jobs on a paid provider. All
-- of its durable state is one SQLite database, that stpd/hub/database.py owns: the class Operations
-- has a method for every transaction. The scheduler (stpd/hub/scheduler.py) is the client that spends
-- money: one tick looks at the one active job, or claims the next one, and talks to the provider.
-- Membership (stpd/hub/membership.py) and the identity service (stpd/hub/identity.py), by which a member
-- connects a device, work on the same database. The documents that cross these
-- borders are made and checked by stpd/json_boundary.py, stpd/artifact_contracts.py and
-- stpd/cloud_jobs/contracts.py, modal.py. stpd/data/splits.py and stpd/game_seed.py decide which
-- recorded episodes train a model, and which seeds the game keeps as they are; stpd/fullrun
-- admits the records of whole runs to a dataset, and its split keeps runs together that share a
-- decision. stpd/hub/uploads.py unpacks what a device has sent.
--
-- Files, and what they model.
--   Prelude        library names, Boolean tests, errors as values (Result), tables by key (Table,
--                  Keyed), and how a table changes when no row is deleted (Evolve) or some are (Thin)
--   Boundary       Json: documents and their equality; Checks: stpd/json_boundary.py;
--                  Texts: the order of texts, and sorted sets of them
--   Contracts      Producer, Request, Receipt, Call: the documents, with the checks of their
--                  constructors and decoders; Runtime: the hashes, the URL parser and the case folding
--                  that they call; RoundTrip: writing a document and reading it again
--   Hub/Schema     the tables as records
--   Hub/Jobs       the operations on jobs: Enqueue, Lease, Operator; Hub/Compute those on the attempts
--                  of a job: Launch up to the call of the provider, Settle from its answer on
--   Hub/Calls      one operation as a value, and what it commits; any sequence of them
--   Hub/Lifecycle  what each operation may do to a row; Hub/Runs what holds over any sequence
--   Hub/Scheduler  Base, Poll, Tick: a tick of the scheduler; Keeps, Intents, Turns, Launches: its
--                  calls of the provider against the database
--   Hub/Uploads    Create, Verify, Lists: the operations on uploads; the other files their theorems
--   Hub/Members    Devices, Tables, Settings, Access, Manage: devices and membership; Admins, Grants,
--                  Shutout, Credentials and Revocation their theorems; Keys the keys of the devices;
--                  Touches: what a call does to the tables that the identity service shares
--   Hub/Identity   stpd/hub/identity.py: Base its requests, Rates, Flows, Decide and Sessions its
--                  operations, Calls any sequence of them; Effects, Approves and Bounds what a call
--                  does; Approval, HandOut, Quota, Sound and Limits its theorems
--   Hub/Ingress    Paths, Unpack: the unpacking of an uploaded archive (stpd/hub/uploads.py); Exact: what
--                  it has written
--   Data           Splits, Seeds, and their theorems in Covers; WholeRuns: the split of whole runs
--                  (stpd/fullrun/data.py), the earlier of two texts (Order), the union of the runs that
--                  share a decision (Components), the partitions (Partition), and their theorems:
--                  Forest, Merge, Merges, Together and Linked of the union, Groups, Roots, Assign, Grouped and
--                  Isolation of the split
--   FullRun        Semantic, Transition: the records of stpd/fullrun/contracts.py; Views:
--                  stpd/fullrun/representation.py; Admission: admit of stpd/fullrun/data.py; RoundTrip,
--                  Fingerprint, Gathering and Admitted their theorems
--   Scenarios      concrete runs, on which every theorem is applied once
--
-- How the code is modelled. A transaction is a function from the database to its value and the next
-- database, or an error; Hub.Calls.committed and Hub.Members.Calls.settled roll back on an error, as
-- Operations.transaction does. SQLite runs these transactions one at a time, so that concurrent clients
-- are sequences of calls; a client that is in the middle of several transactions, the scheduler, lets
-- any calls of others happen before each of its own (the field others of its state). A method that
-- changes an object and may raise is state passing where the state comes back beside the error
-- (Hub/Exec). A lookup by key takes the first row that has it, in the order of insertion; the
-- uniqueness of a primary key is an invariant, and an insert of a key that is taken is an integrity
-- error. Drawn secrets and names are arguments.
--
-- Fuel. Loops are structural recursion, but for the search for a root in Data/WholeRuns/Components,
-- which takes the number of records as fuel. That is enough: a parent comes before its child, and fewer
-- runs come before a run than there are records.
--
-- Bounds. Numbers are natural numbers, as the checks of the code have them; times are whole
-- microseconds, with a reading that is not finite as a case of its own. A document column holds the
-- document where the database holds its sorted dump, so that equal texts are equal documents whose
-- members are sorted. Hashes are parameters: where a theorem needs two secrets to have two hashes it
-- says so.
--
-- Not modelled. The DDL, migration and backup of the database, HTTP routes and the console, the
-- verification worker's loop, the staging of archives and S3, the OS lock of the scheduler, the
-- artifact store and the Modal SDK behind the scheduler's World, the bootstrap of the membership and
-- its paged listing, the device list, the CSRF check and the query scoping of the identity service,
-- the checks of a Modal target, transitions of the second schema, the verification of platform
-- projections, an argument of admit, the files of datasets, and the packages for models, training,
-- evaluation and data collection.
pub mod Prelude
pub mod Boundary
pub mod Contracts
pub mod FullRun
pub mod Hub
pub mod Scenarios
pub mod Data
