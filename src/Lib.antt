-- ===== src/Lib.antt =====
-- Alignak, the monitoring framework (alignak/), as far as it is modelled here.
--
-- The Alignak scheduler launches checks on hosts and services, and hands each result to the item:
-- `consume_result` of alignak/objects/schedulingitem.py moves the item between its states, soft and
-- hard, and raises notifications, event handlers, log entries and acknowledgements.
--
-- Prelude: the shared names, tests on numbers, lists and signed counters.
-- Item: the hosts and services. Item/Kinds, Types and Checks have the data of schedulingitem.py,
--   host.py, service.py, check.py, acknowledge.py and downtime.py; Item/Logs the queues of broks
--   and actions; Item/Notifications `is_blocking_notifications`, `create_notifications`,
--   `remove_in_progress_notifications` and `get_event_handlers`; Item/Acknowledging the
--   acknowledgements; Item/Downtimes `enter`, `exit`, `cancel` and flexible downtimes;
--   Item/Schedule `schedule`; Item/Flap the flapping detection, whose floats are in Item/Doubles;
--   Item/States the states and identifiers; Item/Dependencies what an item depends on;
--   Item/Branches the branches of the handler and Item/Consume the handler itself. A method that
--   changes `self` is a function that returns the new item. Its other children hold the theorems:
--   Frames, Machine, Outcome, Attempts, Streak, Quiet, Silence, Recovery, DowntimeDepth, FlapRate,
--   Blocking, AcknowledgeLaws and Planning; and Samples, Examples and Plans run them at concrete
--   items.
-- Impact: problems that items pass on to those that depend on them, `set_myself_as_problem` and
--   the methods that it calls, of schedulingitem.py. Impact/Ties has the items with their ties, a
--   store of them and the business impact, Problems the methods; Counts, Linked, Ended, Excused,
--   Added, Registers, Registered and Settled the lemmas on each step, Raised the theorems, Examples
--   runs them. `register_a_problem` has fuel for the depth of the dependencies, which Graph shows to
--   be without loops.
-- BusinessRule: the rule trees of business items, alignak/dependencynode.py, which read the hard
--   states of the items. BusinessRule/Node has the class `DependencyNode`; its other children hold
--   the theorems: Aggregates and Total on what every valid rule gives, Negation, Order, Monotone,
--   Elements on the items that a rule reads, and Xof; Examples runs them.
-- Graph: the dependency graphs of alignak/graph.py. Graph/Nodes has the class `Graph` and its
--   search for loops, Packs its accessibility packs; Tags, Search, Loops, Turns and Visits the
--   lemmas on its tags, Acyclic, Closed and Covered the theorems, Examples runs them.
-- Link: the links from a daemon to the others, alignak/objects/satellitelink.py, and the start of
--   their connection in alignak/daemon.py. Link/Satellite has the link and its methods, Life and
--   Connection the theorems, Examples runs them.
-- Scheduler: the queues of alignak/scheduler.py. Scheduler/Jobs has the checks and actions of
--   alignak/action.py, Queues the state and the methods that add and delete, Polling
--   `get_to_run_checks` and `check_orphaned`, Results `manage_results`, and Consuming
--   `consume_results`, which hands the checks to `consume_result` of Item. Handed, Orphans, Timeouts
--   and Rounds have the theorems, Examples runs them.
-- Escalation: when a notification is escalated, alignak/objects/escalation.py and the methods of
--   schedulingitem.py that ask it. Escalation/Rules has the class and the methods, Times and Letters
--   the theorems, Examples runs them.
-- Contact: who is notified, alignak/objects/contact.py, alignak/objects/notificationway.py and
--   `scatter_notification` of schedulingitem.py, which asks Escalation. Contact/Ways has the
--   contacts and their ways, Scatter the method, Sent and Once the theorems, Examples runs them.
-- Daterange: the date ranges of alignak/daterange.py. Daterange/Calendar has its functions on days,
--   Ranges the classes, Bounds `get_start_and_end_time` of each, Days the methods of
--   `AbstractDaterange`; Starts, Fixed and First the lemmas, Valid and Expired the theorems, Samples
--   and Examples run them. The calendar of the library is a parameter.
-- Timeperiod: the time periods of alignak/objects/timeperiod.py. Timeperiod/Periods has the class and
--   its validity, Merged `merge_periods` of alignak/util.py, Search the searches, which have fuel for
--   their turns, Activation the log of activation changes and a theorem on it; Sooner the
--   lemmas, Found the theorem on the search, Examples runs them.
-- Serialization: what daemons send each other, alignak/misc/serialization.py. Serialization/Values
--   has `serialize`, Reading `unserialize` and the constructors of the classes of
--   alignak/dependencynode.py and alignak/external_command.py that it calls; Plain says which
--   values are sent, Pieces, Trip and Relay have the theorems, Examples runs them.
--
-- An item is modelled with what it reads of others as an argument (`Env`, `Dependency`,
-- `Timeperiod`), and the calls that it makes on others are recorded in their order (`Call`); Impact
-- and Scheduler/Consuming have a store of items. All loops are recursions on lists, trees or the
-- turns that a loop counts, but for the searches in graphs, whose fuel is the number of nodes, and
-- for those whose fuel is an argument: the rounds of `consume_results`, the depth of a value that
-- is read, the depth of the dependencies along which a problem is registered, and the turns of the
-- searches of a time period. Theorems show that there is enough, for time periods only without
-- excludes. Times are whole seconds, and one instant is `now` for a whole call. The rate of the
-- flapping detection is a float that is not negative, rounded after each operation as in Python
-- (Item/Doubles); the comparison of percentages in rules, in floating point, is a parameter, and so
-- is the library's calendar.
--
-- Not modelled: configuration loading, daemons, HTTP, modules and the dispatch of external
-- commands, which are input and output; the dispatcher of configuration parts, the parsers of rules,
-- expressions and performance data; and of the modelled parts what the notes in their files leave
-- out.
pub mod Prelude
pub mod Item
pub mod Impact
pub mod BusinessRule
pub mod Graph
pub mod Link
pub mod Scheduler
pub mod Escalation
pub mod Serialization
pub mod Contact
pub mod Daterange
pub mod Timeperiod
